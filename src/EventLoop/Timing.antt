-- ===== src/EventLoop/Timing.antt =====
-- `EventLoop::runAt`, `runAfter`, `runEvery` and `cancelTimer`, and v1.7/src/Timestamp.h. The
-- argument `current` is what `now()` gave to these, `now` what it gave to `setTimerfd`, and `p` the
-- address that `new` gave.
use net_server_stepby_step.Base.{
  ℕ, ◌+◌, ◌*◌, ◌<◌, ◌≡◌, refl, subst, add_size, List, Bool, Option, none, some, ltb, Outcome, done,
  ◌>>=◌, Returns, Returns-bind, arith,
}
use net_server_stepby_step.TimerQueue.{
  Timer, TimerQueue, Entry, new_timer, add_timer, cancel_timer, uintptr_max,
}
use net_server_stepby_step.TimerQueue.Invariant.{IsSound}
use net_server_stepby_step.TimerQueue.Round.{Holds}
use net_server_stepby_step.TimerQueue.Read.{Accepts}
use net_server_stepby_step.TimerQueue.Add.{Added, Follows, add_timer-Added}

unfoldable pub now_after : ℕ → ℕ → ℕ
now_after current interval = current + interval * 1000

module _ (settime : ℕ × ℕ → Bool) where
  unfoldable pub run_at : TimerQueue → ℕ → Option ℕ → ℕ → ℕ → Outcome TimerQueue
  run_at q when cb p now = do t ← add_timer settime q cb when 0 p now; done t.1

  unfoldable pub run_after : TimerQueue → ℕ → Option ℕ → ℕ → ℕ → ℕ → Outcome TimerQueue
  unfolding run_at
  run_after q delay cb current p now = run_at q (delay * 1000 + current) cb p now

  unfoldable pub run_every : TimerQueue → ℕ → Option ℕ → ℕ → ℕ → ℕ → Outcome TimerQueue
  unfolding now_after
  run_every q interval cb current p now = do
    t ← add_timer settime q cb (now_after current interval) interval p now
    done t.1

unfoldable pub loop_cancel_timer : TimerQueue → ℕ → Outcome TimerQueue
loop_cancel_timer q p = cancel_timer q p

-- The three requests of a client of the loop.
pub data Request : Type 0 where
  at : ℕ → Request
  after : ℕ → Request
  every : ℕ → Request

-- When the callback is to run first, and after how many microseconds again (0 for never).
abbrev pub first_run : ℕ → Request → ℕ
first_run current (at when) = when
first_run current (after delay) = current + delay * 1000
first_run current (every interval) = current + interval * 1000

abbrev pub period : Request → ℕ
period (at when) = 0
period (after delay) = 0
period (every interval) = interval

abbrev pub request :
    (ℕ × ℕ → Bool) → TimerQueue → Request → Option ℕ → ℕ → ℕ → ℕ → Outcome TimerQueue
request settime q (at when) cb current p now = run_at settime q when cb p now
request settime q (after delay) cb current p now = run_after settime q delay cb current p now
request settime q (every interval) cb current p now = run_every settime q interval cb current p now

-- A timer for the callback waits in the queue.
pub record Planned (due : List Entry) (q : TimerQueue) (cb : Option ℕ) (when interval p now : ℕ)
    (q' : TimerQueue) : Type 0 where
  pub sound : IsSound due q'
  pub timer : Timer
  pub stored : q'.heap p ≡ some timer
  pub callback : timer.callback ≡ cb
  pub timing : timer.timing ≡ when
  pub again : timer.interval ≡ interval
  pub repeated : timer.repeated ≡ ltb 0 interval
  pub queued : Holds (when, p) q'.timers
  pub follows : Follows q (when, p) now q'.armed

module _ (settime : ℕ × ℕ → Bool) (due : List Entry) (q : TimerQueue) (cb : Option ℕ) (p now : ℕ)
    (accepts : Accepts settime) (sound : IsSound due q) (fresh : q.heap p ≡ none)
    (in_range : p < uintptr_max) where
  planned :
      (when interval : ℕ)
      → Returns
          (add_timer settime q cb when interval p now >>= λ t. done t.1)
          (Planned due q cb when interval p now)
  planned when interval =
      let t = new_timer cb when interval (add_size q.last_id 1) in
      Returns-bind (Added due q t p now) _ (add_timer settime q cb when interval p now) _
        (add_timer-Added settime due q cb when interval p now accepts sound fresh in_range)
        λ r a.
          unfold new_timer in
          record {
            sound = a.sound;
            timer = t;
            stored = a.stored;
            callback = refl;
            timing = refl;
            again = refl;
            repeated = refl;
            queued = a.queued;
            follows = a.follows;
          }

  -- On a sound queue `runAt`, `runAfter` and `runEvery` return, with the queue still sound and a
  -- timer for the callback in it, which expires at the time asked for, and repeats after the
  -- interval exactly for `runEvery` with an interval that is not zero; the timerfd is set if no
  -- other timer comes before it. (The address is free, and `timerfd_settime` takes waits below a
  -- second of nanoseconds.)
  pub request-Planned :
      (r : Request) (current : ℕ)
      → Returns
          (request settime q r cb current p now)
          (Planned due q cb (first_run current r) (period r) p now)
  unfolding run_at run_after run_every now_after
  request-Planned (at when) current = planned when 0
  request-Planned (after delay) current =
      subst
        (λ when.
          Returns (run_at settime q when cb p now)
            (Planned due q cb (current + delay * 1000) 0 p now))
        (omega arith) (planned (current + delay * 1000) 0)
  request-Planned (every interval) current = planned (current + interval * 1000) interval
