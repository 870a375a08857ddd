-- ===== src/Epoller.antt =====
-- v1.7/src/Epoller.h, v1.7/src/Epoller.cpp: the poller over epoll. The interest list is the
-- kernel's; `capacity` is `activeEvents_.size()`.
pub mod Poll
use net_server_stepby_step.Base.{
  ℕ, ◌*◌, List, [], ◌∷◌, ◌++◌, Bool, Option, none, some, length, ◌==◌, if◌then◌else◌, Outcome, done,
  failed, aborted, assert, deref, ◌>>=◌, ◌>>◌,
}
use net_server_stepby_step.Os.{Os, CtlOp, ctl_add, ctl_mod, ctl_del}
use net_server_stepby_step.Channel.{
  Channel, Status, fresh, added, deleted, is_none_event, set_status, set_return_events,
}

pub record Epoller (K : Type 0) : Type 0 where
  pub kernel : K
  pub capacity : ℕ

abbrev pub default_event_nums : ℕ
default_event_nums = 128

-- The constructor, on what `epoll_create1` returned; it asserts that this is no error.
unfoldable pub new_epoller : {K : Type 0} → K → Bool → Outcome (Epoller K)
new_epoller k created = do
  assert created
  done (record { kernel = k; capacity = default_event_nums })

-- The operation and the new status that `updateChannel(Channel*)` chooses, by `st`.
unfoldable pub choose_op : Status → Channel → CtlOp × Channel
choose_op fresh c = (ctl_add, set_status c added)
choose_op deleted c = (ctl_add, set_status c added)
choose_op added c = if is_none_event c then (ctl_del, set_status c deleted) else (ctl_mod, c)

-- `if (::epoll_ctl(…) < 0) abort();`
unfoldable pub adopt : {K : Type 0} → Epoller K → Option K → Outcome (Epoller K)
adopt p none = failed aborted
adopt p (some k) = done (record p { kernel = k })

module _ (os : Os) where
  -- `updateChannel(Channel*, int)`: abort if epoll refuses.
  unfoldable pub control : Epoller os.Kernel → Channel → CtlOp → Outcome (Epoller os.Kernel)
  control p c op = adopt p (os.epoll_ctl p.kernel op c.fd c.events)

  -- `updateChannel(Channel*)`.
  unfoldable pub update_channel :
      Epoller os.Kernel → Channel → Outcome (Channel × Epoller os.Kernel)
  unfolding choose_op
  update_channel p c = do
    let chosen = choose_op c.status c
    q ← control p chosen.1 chosen.0
    done (chosen.1, q)

  -- `if (st == ADDED) updateChannel(channel, EPOLL_CTL_DEL);`
  unfoldable pub remove_entry : Status → Epoller os.Kernel → Channel → Outcome (Epoller os.Kernel)
  remove_entry added p c = control p c ctl_del
  remove_entry fresh p c = done p
  remove_entry deleted p c = done p

  -- `removeChannel`.
  unfoldable pub remove_channel :
      Epoller os.Kernel → Channel → Outcome (Channel × Epoller os.Kernel)
  remove_channel p c = do
    assert (is_none_event c)
    q ← remove_entry c.status p c
    done (set_status c fresh, q)

-- The channels that epoll points to, by address; `none` is an object that is gone.
abbrev pub Channels : Type 0
Channels = ℕ → Option Channel

abbrev pub put {ℓ} : {A : Type ℓ} → (ℕ → Option A) → ℕ → A → ℕ → Option A
put store p a q = if q == p then some a else store q

-- The loop of `poll` over what `epoll_wait` stored: pointer and returned events.
unfoldable pub collect : Channels → List ℕ → List (ℕ × ℕ) → Outcome (List ℕ × Channels)
collect store active [] = done (active, store)
collect store active ((p, ev) ∷ es) = do
  c ← deref (store p)
  collect (put store p (set_return_events c ev)) (active ++ p ∷ []) es

-- `poll`, on the result of `epoll_wait` (`none` is a negative number): the list of active channels
-- that is passed by reference, the channels, and the poller.
unfoldable pub poll :
    {K : Type 0}
    → Epoller K
    → Channels
    → List ℕ
    → Option (List (ℕ × ℕ))
    → Outcome (List ℕ × Channels × Epoller K)
unfolding collect
poll p store active none = done (active, store, p)
poll p store active (some []) = done (active, store, p)
poll p store active (some (e ∷ es)) = do
  t ← collect store active (e ∷ es)
  let full = length (e ∷ es) == p.capacity
  done (t.0, t.1, if full then record p { capacity = p.capacity * 2 } else p)
