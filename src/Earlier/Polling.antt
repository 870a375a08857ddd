-- ===== src/Earlier/Polling.antt =====
-- v1.5/src/Channel.h, v1.5/src/Channel.cpp, v1.5/src/Epoller.h and v1.5/src/Epoller.cpp (v1.4 has
-- the same Channel.cpp and Epoller.cpp): a channel knows whether it is polled by a Boolean, and
-- nothing handles EPOLLOUT.
use net_server_stepby_step.Base.{
  ℕ, List, [], ◌∷◌, ◌++◌, Bool, true, false, not, Option, none, some, ◌==◌, if◌then◌else◌, has,
  set_bit, clear_bit, epollin, epollout, epollhup, Outcome, done, deref, ◌>>=◌,
}
use net_server_stepby_step.Os.{Os, CtlOp, ctl_add, ctl_mod, ctl_del}
use net_server_stepby_step.Epoller.{Epoller, adopt, put}
use net_server_stepby_step.Channel.Dispatch.{Callbacks}

pub record Channel : Type 0 where
  pub fd : ℕ
  pub events : ℕ
  pub revents : ℕ
  pub polling : Bool

unfoldable pub new_channel : ℕ → Channel
new_channel fd = record { fd = fd; events = 0; revents = 0; polling = false }

abbrev pub set_events : Channel → ℕ → Channel
set_events c events = record c { events = events }

abbrev pub set_return_events : Channel → ℕ → Channel
set_return_events c revents = record c { revents = revents }

abbrev pub set_polling : Channel → Bool → Channel
set_polling c on = record c { polling = on }

abbrev pub is_none_event : Channel → Bool
is_none_event c = c.events == 0

abbrev pub is_writing : Channel → Bool
is_writing c = has c.events epollout

module _ {S : Type 0} (channel : S → Option Channel) (cb : Callbacks S) where
  -- One test of `revents_` with the call under it.
  unfoldable pub run_if : ℕ → Option (S → Outcome S) → S → Outcome S
  run_if bit none s = do c ← deref (channel s); done s
  run_if bit (some f) s = do c ← deref (channel s); if has c.revents bit then f s else done s

  unfoldable pub handle_events : S → Outcome S
  unfolding run_if
  handle_events s = do s₁ ← run_if epollhup cb.close_event s; run_if epollin cb.read_event s₁

-- The operation that `updateChannel(Channel*)` chooses, and the channel behind it.
unfoldable pub choose_op : Channel → CtlOp × Channel
choose_op c =
    if not c.polling
    then (ctl_add, set_polling c true)
    else if not (is_none_event c)
    then (ctl_mod, c)
    else (ctl_del, set_polling c false)

module _ (os : Os) where
  abbrev pub Registered : Type 0
  Registered = Outcome (Channel × Epoller os.Kernel)

  -- `updateChannel(Channel*, int)`.
  unfoldable pub control : Epoller os.Kernel → Channel → CtlOp → Outcome (Epoller os.Kernel)
  unfolding adopt
  control p c op = adopt p (os.epoll_ctl p.kernel op c.fd c.events)

  unfoldable pub update_channel : Epoller os.Kernel → Channel → Registered
  unfolding choose_op
  update_channel p c = do
    let chosen = choose_op c
    q ← control p chosen.1 chosen.0
    done (chosen.1, q)

  unfoldable pub enabled_readable : Epoller os.Kernel → Channel → Registered
  enabled_readable p c = update_channel p (set_events c (set_bit c.events epollin))

  unfoldable pub enabled_writable : Epoller os.Kernel → Channel → Registered
  enabled_writable p c = update_channel p (set_events c (set_bit c.events epollout))

  unfoldable pub disabled_all_events : Epoller os.Kernel → Channel → Registered
  disabled_all_events p c = update_channel p (set_events c 0)

  unfoldable pub disabled_readable : Epoller os.Kernel → Channel → Registered
  disabled_readable p c = update_channel p (set_events c (clear_bit c.events epollin))

  unfoldable pub disabled_writable : Epoller os.Kernel → Channel → Registered
  disabled_writable p c = update_channel p (set_events c (clear_bit c.events epollout))

-- `poll`, on what epoll_wait(2) stored; a negative answer is the empty list.
unfoldable pub poll :
    (ℕ → Option Channel) → List ℕ → List (ℕ × ℕ) → Outcome (List ℕ × (ℕ → Option Channel))
poll store active [] = done (active, store)
poll store active ((p, ev) ∷ es) = do
  c ← deref (store p)
  poll (put store p (set_return_events c ev)) (active ++ p ∷ []) es
