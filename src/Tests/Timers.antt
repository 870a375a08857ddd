-- ===== src/Tests/Timers.antt =====
-- Runs of the queue of timers.
use net_server_stepby_step.Base.{
  ◌≢◌, Option, ℕ, ◌+◌, ◌-◌, ◌*◌, ◌<◌, ◌≤◌, ◌≡◌, refl, List, [], ◌∷◌, ◌^◌, Bool, true, false,
  if◌then◌else◌, Option, none, some, ◌==◌, Outcome, done, failed, use_after_free, assert_failed,
  Returns, arith,
}
use net_server_stepby_step.TimerQueue.{
  Timer, TimerQueue, Entry, new_timer, duration_from_now, cancel_timer, add_timer, handle_one,
  handle_timing_read,
}
use net_server_stepby_step.Channel.{added}
use net_server_stepby_step.Epoller.{Epoller}
use net_server_stepby_step.TimerQueue.Life.{
  Host, destroy_timer_queue, Ended, destroy_timer_queue-Ended,
}
use net_server_stepby_step.Tests.Machine.{Machine, machine, machine-OsLaws}
use net_server_stepby_step.TimerQueue.Clock.{nanoseconds, duration_from_now_lem}
use net_server_stepby_step.TimerQueue.Invariant.{Live, Apart, IsSound}
use net_server_stepby_step.TimerQueue.Expired.{handle_timing_read_early}
use net_server_stepby_step.TimerQueue.Read.{ArmedFor, handle_timing_read-IsSound}
use net_server_stepby_step.TimerQueue.Cancel.{cancel_timer-IsSound, handle_one_self_cancel}
use net_server_stepby_step.TimerQueue.Add.{Added, add_timer-Added}

-- A timer that repeats each 3 microseconds, and one that does not.
abbrev ticking : Timer
ticking = record {
  callback = some 0;
  timing = 10;
  interval = 3;
  repeated = true;
  canceled = false;
  timer_id = 1;
}

abbrev once : Timer
once = record {
  callback = some 1;
  timing = 5000;
  interval = 0;
  repeated = false;
  canceled = false;
  timer_id = 2;
}

abbrev heap : ℕ → Option Timer
heap p = if p == 7 then some ticking else (if p == 8 then some once else none)

abbrev queue : List Entry → TimerQueue
queue l = record { timers = l; heap = heap; armed = none; last_id = 2 }

abbrev both : List Entry
both = (10, 7) ∷ (5000, 8) ∷ []

ticking-Live : Live heap (10, 7)
ticking-Live = (ticking, refl, refl, refl, omega arith)

once-Live : Live heap (5000, 8)
once-Live = (once, refl, refl, refl, omega arith)

both-IsSound : IsSound [] (queue both)
both-IsSound = record {
  sorted = ((refl, tt), (tt, tt));
  live = (ticking-Live, (once-Live, tt));
  distinct = ((omega arith, tt), (tt, tt));
  live_due = tt;
  distinct_due = tt;
  apart = tt;
}

-- While the round handles the ticking one.
due-IsSound : IsSound ((10, 7) ∷ []) (queue ((5000, 8) ∷ []))
due-IsSound = record {
  sorted = (tt, tt);
  live = (once-Live, tt);
  distinct = (tt, tt);
  live_due = (ticking-Live, tt);
  distinct_due = (tt, tt);
  apart = ((omega arith, tt), tt);
}

abbrev any_wait : ℕ × ℕ → Bool
any_wait _ = true

abbrev nothing : ℕ → TimerQueue → Outcome TimerQueue
nothing f q = done q

handle_timing_read-IsSound_example :
    Returns
      (handle_timing_read any_wait nothing (queue both) (some 8) 10 20)
      (λ q. IsSound [] q × ArmedFor 20 q.timers q.armed)
    × ((n : Option ℕ)
        → n ≢ some 8
        → handle_timing_read any_wait nothing (queue both) n 10 20 ≡ failed assert_failed)
handle_timing_read-IsSound_example =
    handle_timing_read-IsSound any_wait nothing (queue both) 10 20 (λ f due q s. s) (λ d h. refl)
      (omega arith, (omega arith, tt)) both-IsSound

handle_timing_read_early_example :
    handle_timing_read any_wait nothing (queue both) (some 8) 9 20 ≡ failed assert_failed
handle_timing_read_early_example =
    handle_timing_read_early any_wait nothing (queue both) 9 20 7 ((5000, 8) ∷ []) refl both-IsSound

cancel_timer-IsSound_example :
    Returns (cancel_timer (queue both) 8) (λ q. IsSound [] q × (q.heap 8 ≡ none) × Apart 8 q.timers)
cancel_timer-IsSound_example = cancel_timer-IsSound [] (queue both) 8 once both-IsSound refl refl tt

handle_one_self_cancel_example :
    handle_one any_wait (λ f q. cancel_timer q 7) 10 (10, 7) (queue ((5000, 8) ∷ []))
    ≡ failed use_after_free
handle_one_self_cancel_example =
    handle_one_self_cancel any_wait (λ f q. cancel_timer q 7) (queue ((5000, 8) ∷ [])) 10 0 (10, 7)
      ticking refl (omega arith) refl refl refl

add_timer-Added_example :
    Returns
      (add_timer any_wait (queue both) (some 2) 6 0 9 1)
      (Added [] (queue both) (new_timer (some 2) 6 0 3) 9 1)
add_timer-Added_example =
    add_timer-Added any_wait [] (queue both) (some 2) 6 0 9 1 (λ d h. refl) both-IsSound refl
      (omega arith)

duration_from_now_lem_example :
    ((duration_from_now 5000000 0).1 < 10 ^ 9)
    × (0 < nanoseconds (duration_from_now 5000000 0))
    × (nanoseconds (duration_from_now 5000000 0) * 1000 ≤ 5000000 - 0)
    × (5000000 - 0 < nanoseconds (duration_from_now 5000000 0) * 1000 + 1000)
duration_from_now_lem_example = duration_from_now_lem 5000000 0 (omega arith)

-- The timerfd is 9, and is watched.
abbrev host : Host
host = record {
  queue = queue both;
  channel = record { fd = 9; events = 1; revents = 0; status = added };
}

abbrev watching : Epoller Machine
watching = record {
  kernel = record {
    entries = λ fd. if fd == 9 then some 1 else none;
    accepted = λ _. [];
    quota = none;
    incoming = none;
  };
  capacity = 128;
}

destroy_timer_queue-Ended_example :
    Returns (destroy_timer_queue machine host watching) (Ended machine machine-OsLaws host watching)
destroy_timer_queue-Ended_example =
    destroy_timer_queue-Ended machine machine-OsLaws host watching both-IsSound refl refl
