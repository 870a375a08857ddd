-- ===== src/Earlier/Refinement.antt =====
-- The channels of v1.5 against those of v1.7: the Boolean is whether the status is ADDED.
use net_server_stepby_step.Base.{
  ℕ, ◌≡◌, ◌==◌, refl, ◌∙◌, ap, List, [], ◌∷◌, Bool, true, false, Bool-cases, inl, inr, Option, none,
  some, if◌then◌else◌, Outcome, done, failed, ◌>>=◌, Returns, Returns-bind,
}
use net_server_stepby_step.Os.{Os, OsLaws}
use net_server_stepby_step.Channel.{Status, fresh, added, deleted}
use net_server_stepby_step.Channel as Now
use net_server_stepby_step.Epoller.{Epoller}
use net_server_stepby_step.Epoller as NowEpoller
use net_server_stepby_step.Channel.Update as NowUpdate
use net_server_stepby_step.Channel.Registration.{Synced, entry}
use net_server_stepby_step.Channel.Changes as NowChanges
use net_server_stepby_step.Channel.Changes.{
  Change, enable_read, enable_write, disable_read, disable_write, disable_all, removal, changes,
  AllMayChange, Settled, changes-Settled,
}
use net_server_stepby_step.Earlier.Polling.{
  Channel, choose_op, control, update_channel, enabled_readable, enabled_writable,
  disabled_all_events, disabled_readable, disabled_writable, Registered,
}

abbrev pub is_added : Status → Bool
is_added added = true
is_added fresh = false
is_added deleted = false

abbrev pub forget : Now.Channel → Channel
forget c = record { fd = c.fd; events = c.events; revents = c.revents; polling = is_added c.status }

choose_op-forget :
    (st : Status) (fd ev rev : ℕ)
    → let c : Now.Channel = record { fd = fd; events = ev; revents = rev; status = st } in
      let (op, c') = NowEpoller.choose_op st c in choose_op (forget c) ≡ (op, forget c')
unfolding choose_op NowEpoller.choose_op
choose_op-forget fresh fd ev rev = refl
choose_op-forget deleted fd ev rev = refl
choose_op-forget added fd ev rev = elim (Bool-cases (ev == 0)) [
  | inl none_left ↦ rw none_left refl
  | inr some_left ↦ rw some_left refl
]

module _ (os : Os) where
  abbrev pub forget_pair : Now.Channel × Epoller os.Kernel → Channel × Epoller os.Kernel
  forget_pair t = (forget t.0, t.1)

  -- A run of v1.7, with the channel of v1.5.
  abbrev pub forgotten : NowUpdate.Registered os → Registered os
  forgotten m = m >>= λ t. done (forget_pair t)

  pub update_channel-forget :
      (p : Epoller os.Kernel) (c : Now.Channel)
      → update_channel os p (forget c) ≡ forgotten (NowEpoller.update_channel os p c)
  unfolding update_channel NowEpoller.update_channel control NowEpoller.control
  update_channel-forget p c =
      let (op, c') = NowEpoller.choose_op c.status c in
      ap
        (λ chosen.
          NowEpoller.adopt p (os.epoll_ctl p.kernel chosen.0 chosen.1.fd chosen.1.events) >>= λ q.
          done (chosen.1, q))
        (choose_op-forget c.status c.fd c.events c.revents)
      ∙ go (NowEpoller.adopt p (os.epoll_ctl p.kernel op c'.fd c'.events)) c'
    where
      go :
          (o : Outcome (Epoller os.Kernel)) (c' : Now.Channel)
          → (o >>= λ q. done (forget c', q)) ≡ forgotten (o >>= λ q. done (c', q))
      go (done q) c' = refl
      go (failed e) c' = refl

  -- The changes that v1.5 has, and a sequence of them.
  pub change : Epoller os.Kernel → Channel → Change → Registered os
  change p c enable_read = enabled_readable os p c
  change p c enable_write = enabled_writable os p c
  change p c disable_read = disabled_readable os p c
  change p c disable_write = disabled_writable os p c
  change p c disable_all = disabled_all_events os p c
  change p c removal = done (c, p)

  pub run_changes : Epoller os.Kernel → Channel → List Change → Registered os
  run_changes p c [] = done (c, p)
  run_changes p c (d ∷ ds) = do t ← change p c d; run_changes t.1 t.0 ds

-- No removal.
abbrev pub Keeps : List Change → Type 0
Keeps [] = Unit {0}
Keeps (removal ∷ ds) = ⊥
Keeps (enable_read ∷ ds) = Keeps ds
Keeps (enable_write ∷ ds) = Keeps ds
Keeps (disable_read ∷ ds) = Keeps ds
Keeps (disable_write ∷ ds) = Keeps ds
Keeps (disable_all ∷ ds) = Keeps ds

Keeps-tail : (d : Change) (ds : List Change) → Keeps (d ∷ ds) → Keeps ds
Keeps-tail removal ds k = absurd k
Keeps-tail enable_read ds k = k
Keeps-tail enable_write ds k = k
Keeps-tail disable_read ds k = k
Keeps-tail disable_write ds k = k
Keeps-tail disable_all ds k = k

module _ (os : Os) where
  pub change-forget :
      (p : Epoller os.Kernel) (c : Now.Channel) (d : Change) (ds : List Change)
      → Keeps (d ∷ ds)
      → change os p (forget c) d ≡ forgotten os (NowChanges.change os p c d)
  unfolding change NowChanges.change enabled_readable enabled_writable disabled_readable
      disabled_writable disabled_all_events NowUpdate.enabled_readable NowUpdate.enabled_writable
      NowUpdate.disabled_readable NowUpdate.disabled_writable NowUpdate.disabled_all_events
      NowUpdate.update NowUpdate.loop_update_channel
  change-forget p c enable_read ds k = update_channel-forget os p (Now.set_events c _)
  change-forget p c enable_write ds k = update_channel-forget os p (Now.set_events c _)
  change-forget p c disable_read ds k = update_channel-forget os p (Now.set_events c _)
  change-forget p c disable_write ds k = update_channel-forget os p (Now.set_events c _)
  change-forget p c disable_all ds k = update_channel-forget os p (Now.set_events c _)
  change-forget p c removal ds k = absurd k

  -- Any sequence of enabling and disabling does in v1.5 what it does in v1.7: the same calls of
  -- epoll_ctl(2) with the same result or abort, and the channel of v1.5 is that of v1.7 with the
  -- status forgotten but for whether it is ADDED.
  pub run_changes-forget :
      (ds : List Change) (p : Epoller os.Kernel) (c : Now.Channel)
      → Keeps ds
      → run_changes os p (forget c) ds ≡ forgotten os (changes os p c ds)
  unfolding run_changes changes
  run_changes-forget [] p c k = refl
  run_changes-forget (d ∷ ds) p c k =
      ap (λ m. m >>= λ t. run_changes os t.1 t.0 ds) (change-forget p c d ds k)
      ∙ go (NowChanges.change os p c d) (λ t. run_changes-forget ds t.1 t.0 (Keeps-tail d ds k))
    where
      go :
          (m : NowUpdate.Registered os)
          → ((t : Now.Channel × Epoller os.Kernel)
              → run_changes os t.1 (forget t.0) ds ≡ forgotten os (changes os t.1 t.0 ds))
          → (forgotten os m >>= λ t. run_changes os t.1 t.0 ds)
            ≡ forgotten os (m >>= λ t. changes os t.1 t.0 ds)
      go (done t) ih = ih t
      go (failed e) ih = refl

abbrev pub polled_entry : Bool → ℕ → Option ℕ
polled_entry polling ev = if polling then some ev else none

entry-forget : (st : Status) (ev : ℕ) → entry st ev ≡ polled_entry (is_added st) ev
entry-forget fresh ev = refl
entry-forget deleted ev = refl
entry-forget added ev = refl

Keeps-AllMayChange : (ds : List Change) (ev : ℕ) → Keeps ds → AllMayChange ev ds
Keeps-AllMayChange [] ev k = tt
Keeps-AllMayChange (enable_read ∷ ds) ev k = (tt, Keeps-AllMayChange ds _ k)
Keeps-AllMayChange (enable_write ∷ ds) ev k = (tt, Keeps-AllMayChange ds _ k)
Keeps-AllMayChange (disable_read ∷ ds) ev k = (tt, Keeps-AllMayChange ds _ k)
Keeps-AllMayChange (disable_write ∷ ds) ev k = (tt, Keeps-AllMayChange ds _ k)
Keeps-AllMayChange (disable_all ∷ ds) ev k = (tt, Keeps-AllMayChange ds _ k)
Keeps-AllMayChange (removal ∷ ds) ev k = absurd k

module _ (os : Os) (laws : OsLaws os) where
  -- The interest list says what the channel says.
  abbrev pub InStep : Channel × Epoller os.Kernel → Type 0
  InStep t = os.interest t.1.kernel t.0.fd ≡ polled_entry t.0.polling t.0.events

  forgotten-InStep :
      (ds : List Change) (p : Epoller os.Kernel) (c : Now.Channel)
      → Keeps ds
      → os.pollable c.fd ≡ true
      → Synced os p c
      → Returns (run_changes os p (forget c) ds) InStep
  forgotten-InStep ds p c k u s = rw (run_changes-forget os ds p c k) (
      Returns-bind (Settled os laws p c) InStep (changes os p c ds) _
        (changes-Settled os laws ds p c u s (Keeps-AllMayChange ds c.events k))
        (λ t h. h.0 ∙ entry-forget t.0.status t.0.events))

  -- In v1.5 too any sequence of enabling and disabling on a channel in step with the interest list
  -- returns without an abort and leaves them in step, if epoll can poll the descriptor.
  pub run_changes-InStep :
      (ds : List Change) (p : Epoller os.Kernel) (c : Channel)
      → Keeps ds
      → os.pollable c.fd ≡ true
      → InStep (c, p)
      → Returns (run_changes os p c ds) InStep
  run_changes-InStep ds p c k u s = go c.polling s
    where
      go :
          (polling : Bool)
          → os.interest p.kernel c.fd ≡ polled_entry polling c.events
          → Returns
              (run_changes os p
                (record { fd = c.fd; events = c.events; revents = c.revents; polling = polling })
                ds)
              InStep
      go true s =
          forgotten-InStep ds p
            (record { fd = c.fd; events = c.events; revents = c.revents; status = added }) k u s
      go false s =
          forgotten-InStep ds p
            (record { fd = c.fd; events = c.events; revents = c.revents; status = fresh }) k u s
