-- ===== src/Earlier/Looping/Dispatch.antt =====
-- `handleEvents` of v1.3 does what that of v1.7 does, if the callbacks do the same.
use net_server_stepby_step.Base.{
  subst, ℕ, ◌≡◌, sym, Bool, true, false, Option, none, some, if◌then◌else◌, has, epollin, epollout,
  epollhup, Outcome, done, deref,
}
use net_server_stepby_step.Channel.Dispatch.{Callbacks}
use net_server_stepby_step.Channel.Dispatch as NowDispatch
use net_server_stepby_step.EventLoop as NowLoop
use net_server_stepby_step.Earlier.Polling.{Channel, run_if}
use net_server_stepby_step.Earlier.Refinement.{forget}
use net_server_stepby_step.Earlier.ChannelMap.Agreement.{Related, Related-bind}
use net_server_stepby_step.Earlier.Looping.{Reactor, handle_events}
use net_server_stepby_step.Earlier.Looping.Agreement.{Same, deref-forget}

module _ {K : Type 0} where
  -- Two callbacks that do the same, or two that are unset.
  abbrev pub SameCallback :
      Option (Reactor K → Outcome (Reactor K))
      → Option (NowLoop.Reactor K → Outcome (NowLoop.Reactor K))
      → Type 0
  SameCallback none none = Unit {0}
  SameCallback none (some g) = ⊥
  SameCallback (some f) none = ⊥
  SameCallback (some f) (some g) =
      (r : Reactor K) (s : NowLoop.Reactor K) → Same r s → Related Same (f r) (g s)

  pub record SameCallbacks (cb : Callbacks (Reactor K)) (cb' : Callbacks (NowLoop.Reactor K))
      : Type 0 where
    pub close : SameCallback cb.close_event cb'.close_event
    pub read : SameCallback cb.read_event cb'.read_event
    pub write : SameCallback cb.write_event cb'.write_event

  module _ (p : ℕ) (cb : Callbacks (Reactor K)) (cb' : Callbacks (NowLoop.Reactor K)) where
    run_if-Same :
        (bit : ℕ) (f : Option (Reactor K → Outcome (Reactor K)))
        (g : Option (NowLoop.Reactor K → Outcome (NowLoop.Reactor K)))
        → SameCallback f g
        → (r : Reactor K) (s : NowLoop.Reactor K) → Same r s
        → Related Same
            (run_if (λ r. r.channels p) cb bit f r)
            (NowDispatch.run_if (λ s. s.channels p) cb' bit g s)
    unfolding run_if NowDispatch.run_if
    run_if-Same bit none none h r s e =
        Related-bind (λ c d. c ≡ forget d) Same (deref (r.channels p)) (deref (s.channels p)) _ _
          (deref-forget (r.channels p) (s.channels p) (e.channels p)) λ c d _. e
    run_if-Same bit none (some g) h r s e = absurd h
    run_if-Same bit (some f) none h r s e = absurd h
    run_if-Same bit (some f) (some g) h r s e =
        Related-bind (λ c d. c ≡ forget d) Same (deref (r.channels p)) (deref (s.channels p)) _ _
          (deref-forget (r.channels p) (s.channels p) (e.channels p))
          λ c d k.
            subst
              (λ (c : Channel).
                Related Same (if has c.revents bit then f r else done r)
                  (if has d.revents bit then g s else done s))
              (sym k) (go (has d.revents bit) (h r s e))
      where
        go :
            (b : Bool)
            → Related Same (f r) (g s)
            → Related Same (if b then f r else done r) (if b then g s else done s)
        go true k = k
        go false k = e

    pub handle_events-Same :
        SameCallbacks cb cb'
        → (r : Reactor K) (s : NowLoop.Reactor K) → Same r s
        → Related Same
            (handle_events (λ r. r.channels p) cb r)
            (NowDispatch.handle_events (λ s. s.channels p) cb' s)
    unfolding handle_events NowDispatch.handle_events
    handle_events-Same h r s e =
        Related-bind Same Same _ _ _ _
          (run_if-Same epollhup cb.close_event cb'.close_event h.close r s e)
          λ r₁ s₁ e₁.
            Related-bind Same Same _ _ _ _
              (run_if-Same epollin cb.read_event cb'.read_event h.read r₁ s₁ e₁)
              λ r₂ s₂ e₂. run_if-Same epollout cb.write_event cb'.write_event h.write r₂ s₂ e₂
