-- ===== src/Earlier/Looping/Running.antt =====
-- The loop of v1.3 runs as that of v1.7 does.
use net_server_stepby_step.Base.{
  ◌≤◌, ◌≡◌, arith, subst, ℕ, zero, suc, refl, sym, List, [], ◌∷◌, Bool, true, false, Option, none,
  some, if◌then◌else◌, Outcome, done, failed, assert_failed, ◌>>=◌,
}
use net_server_stepby_step.Channel.Dispatch.{Callbacks}
use net_server_stepby_step.Channel.Dispatch as NowDispatch
use net_server_stepby_step.Epoller.{Epoller}
use net_server_stepby_step.Epoller as NowEpoller
use net_server_stepby_step.EventLoop as NowLoop
use net_server_stepby_step.Earlier.ChannelMap.Agreement.{Related, Related-bind}
use net_server_stepby_step.Earlier.Looping.{
  Reactor, max_event_nums, handle_events, poll, stored, poll_active, run_active, round, run_while,
  loop, go_on, end_loop, set_looping,
}
use net_server_stepby_step.Earlier.Looping.Agreement.{Same, Polled, poll-Polled}
use net_server_stepby_step.Earlier.Looping.Dispatch.{SameCallbacks, handle_events-Same}

-- Two bounded runs: both still go on, or both ended, alike.
abbrev pub BothRun :
    {A B : Type 0} → (A → B → Type 0) → Option (Outcome A) → Option (Outcome B) → Type 0
BothRun R none none = Unit {0}
BothRun R none (some o) = ⊥
BothRun R (some o) none = ⊥
BothRun R (some o) (some o') = Related R o o'

if_BothRun :
    {A B : Type 0} (R : A → B → Type 0) (b : Bool) (a x : Option (Outcome A))
    (a' x' : Option (Outcome B))
    → BothRun R a a'
    → BothRun R x x'
    → BothRun R (if b then a else x) (if b then a' else x')
if_BothRun R true a x a' x' h k = h
if_BothRun R false a x a' x' h k = k

module _ {K : Type 0} (wait : ℕ → K → Option (List (ℕ × ℕ)) × K)
    (callbacks : ℕ → Callbacks (Reactor K)) (callbacks' : ℕ → Callbacks (NowLoop.Reactor K))
    (same : (p : ℕ) → SameCallbacks (callbacks p) (callbacks' p))
    (few : (n : ℕ) (k : K) → max_event_nums ≤ n → wait n k ≡ wait max_event_nums k) where
  -- What follows the wait.
  collected-Same :
      (w : Option (List (ℕ × ℕ)) × K) (r : Reactor K) (s : NowLoop.Reactor K)
      → Same r s
      → Related Same
          (poll r.channels [] (stored w.0) >>= λ t.
            done (record r { kernel = w.1; channels = t.1; active_channels = t.0 }))
          (NowEpoller.poll (record (s.poller) { kernel = w.1 }) s.channels [] w.0 >>= λ t.
            done (record s { poller = t.2; channels = t.1; active_channels = t.0 }))
  collected-Same w r s e =
      Related-bind (Polled (record (s.poller) { kernel = w.1 })) Same _ _ _ _
        (poll-Polled (record (s.poller) { kernel = w.1 }) w.0 r.channels s.channels e.channels)
        λ t u h. record {
          kernel = sym h.2;
          room = omega (arith, h.3, e.room);
          channels = h.1;
          active = h.0;
          looping = e.looping;
          quitting = e.quitting;
        }

  poll_active-Same :
      (r : Reactor K) (s : NowLoop.Reactor K)
      → Same r s
      → Related Same (poll_active wait callbacks r) (NowLoop.poll_active wait callbacks' s)
  unfolding poll_active NowLoop.poll_active
  poll_active-Same r s e =
      subst
        (λ k.
          Related Same
            (poll r.channels [] (stored (wait max_event_nums k).0) >>= λ t. done (record r {
              kernel = (wait max_event_nums k).1;
              channels = t.1;
              active_channels = t.0;
            }))
            (NowLoop.poll_active wait callbacks' s))
        (sym e.kernel)
        (subst
          (λ a.
            Related Same
              (poll r.channels [] (stored (wait max_event_nums s.poller.kernel).0) >>= λ t.
                done (record r {
                  kernel = (wait max_event_nums s.poller.kernel).1;
                  channels = t.1;
                  active_channels = t.0;
                }))
              (NowEpoller.poll (record (s.poller) { kernel = a.1 }) s.channels [] a.0 >>= λ t.
                done (record s { poller = t.2; channels = t.1; active_channels = t.0 })))
          (sym (few s.poller.capacity s.poller.kernel e.room))
          (collected-Same (wait max_event_nums s.poller.kernel) r s e))

  run_active-Same :
      (ps : List ℕ) (r : Reactor K) (s : NowLoop.Reactor K)
      → Same r s
      → Related Same (run_active wait callbacks ps r) (NowLoop.run_active wait callbacks' ps s)
  unfolding run_active NowLoop.run_active
  run_active-Same [] r s e = e
  run_active-Same (p ∷ ps) r s e =
      Related-bind Same Same (handle_events (λ r. r.channels p) (callbacks p) r)
        (NowDispatch.handle_events (λ s. s.channels p) (callbacks' p) s) _ _
        (handle_events-Same p (callbacks p) (callbacks' p) (same p) r s e)
        λ r₁ s₁ e₁. run_active-Same ps r₁ s₁ e₁

  round-Same :
      (r : Reactor K) (s : NowLoop.Reactor K)
      → Same r s
      → Related Same (round wait callbacks r) (NowLoop.round wait callbacks' s)
  unfolding round NowLoop.round
  round-Same r s e =
      Related-bind Same Same (poll_active wait callbacks r) (NowLoop.poll_active wait callbacks' s)
        _ _ (poll_active-Same r s e)
        λ r₁ s₁ e₁.
          subst
            (λ l.
              Related Same (run_active wait callbacks l r₁)
                (NowLoop.run_active wait callbacks' s₁.active_channels s₁))
            (sym e₁.active) (run_active-Same s₁.active_channels r₁ s₁ e₁)

  run_while-Same :
      (fuel : ℕ) (r : Reactor K) (s : NowLoop.Reactor K)
      → Same r s
      → BothRun Same (run_while wait callbacks fuel r) (NowLoop.run_while wait callbacks' fuel s)
  unfolding run_while NowLoop.run_while
  run_while-Same zero r s e = tt
  run_while-Same (suc fuel) r s e =
      subst
        (λ b.
          BothRun Same
            (if b
              then some (done r)
              else go_on (run_while wait callbacks fuel) (round wait callbacks r))
            (if s.is_quitting
              then some (done s)
              else NowLoop.go_on (NowLoop.run_while wait callbacks' fuel)
                  (NowLoop.round wait callbacks' s)))
        (sym e.quitting)
        (if_BothRun Same s.is_quitting _ _ _ _ e (
          next (round wait callbacks r) (NowLoop.round wait callbacks' s) (round-Same r s e)
            (λ r₁ s₁ e₁. run_while-Same fuel r₁ s₁ e₁)))
    where
      next :
          (o : Outcome (Reactor K)) (o' : Outcome (NowLoop.Reactor K))
          → Related Same o o'
          → ((r : Reactor K) (s : NowLoop.Reactor K)
              → Same r s
              → BothRun Same
                  (run_while wait callbacks fuel r)
                  (NowLoop.run_while wait callbacks' fuel s))
          → BothRun Same
              (go_on (run_while wait callbacks fuel) o)
              (NowLoop.go_on (NowLoop.run_while wait callbacks' fuel) o')
      next (done r) (done s) h ih = ih r s h
      next (done r) (failed f) h ih = absurd h
      next (failed f) (done s) h ih = absurd h
      next (failed f) (failed g) h ih = h

  end_loop-Same :
      (x : Option (Outcome (Reactor K))) (y : Option (Outcome (NowLoop.Reactor K)))
      → BothRun Same x y
      → BothRun Same (end_loop x) (NowLoop.end_loop y)
  end_loop-Same none none h = tt
  end_loop-Same none (some o) h = absurd h
  end_loop-Same (some o) none h = absurd h
  end_loop-Same (some (done r)) (some (done s)) h = record {
    kernel = h.kernel;
    channels = h.channels;
    active = h.active;
    looping = refl;
    quitting = h.quitting;
    room = h.room;
  }
  end_loop-Same (some (done r)) (some (failed g)) h = absurd h
  end_loop-Same (some (failed f)) (some (done s)) h = absurd h
  end_loop-Same (some (failed f)) (some (failed g)) h = h

  -- While at most 128 descriptors are ready at a time, so that epoll_wait(2) answers the same for any
  -- larger room, the loop of v1.3, with its fixed room, and that of v1.7, which doubles its room, run
  -- alike for any number of rounds: both still run, or both ended at one fault, or both returned, and
  -- in one state. (They start in one state, that of v1.7 with room for 128 events or more, and their
  -- callbacks do the same and do not take room away.)
  pub loop-Same :
      (fuel : ℕ) (r : Reactor K) (s : NowLoop.Reactor K)
      → Same r s
      → BothRun Same (loop wait callbacks fuel r) (NowLoop.loop wait callbacks' fuel s)
  unfolding loop NowLoop.loop
  loop-Same fuel r s e =
      subst
        (λ b.
          BothRun Same
            (if b
              then some (failed assert_failed)
              else end_loop (run_while wait callbacks fuel (set_looping r true)))
            (NowLoop.loop wait callbacks' fuel s))
        (sym e.looping)
        (if_BothRun Same s.is_looping _ _ _ _ refl (
          end_loop-Same (run_while wait callbacks fuel (set_looping r true))
            (NowLoop.run_while wait callbacks' fuel (NowLoop.set_looping s true))
            (run_while-Same fuel (set_looping r true) (NowLoop.set_looping s true) (record {
              kernel = e.kernel;
              channels = e.channels;
              active = e.active;
              looping = refl;
              quitting = e.quitting;
              room = e.room;
            }))))
