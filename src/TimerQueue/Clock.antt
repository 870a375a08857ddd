-- ===== src/TimerQueue/Clock.antt =====
-- `durationFromNow` of TimerQueue.cpp: what the timerfd is set to.
use net_server_stepby_step.Base.{
  ℕ, ◌+◌, ◌-◌, ◌*◌, ◌/◌, ◌<◌, ◌≤◌, Bool-cases, inl, inr, ltb, ltb→lt, ltb→le, arith, ◌^◌,
}
use net_server_stepby_step.TimerQueue.{duration_from_now}

-- The wait in nanoseconds that a `timespec` stands for.
abbrev pub nanoseconds : ℕ × ℕ → ℕ
nanoseconds (s, ns) = s * 10 ^ 9 + ns

-- For a time point at least one millisecond ahead the wait that is set is not zero, which would
-- disarm the timerfd, and is a valid `timespec`. But its count is that of the microseconds, taken
-- for nanoseconds: it is a thousandth of the wait, rounded down to microseconds.
pub duration_from_now_lem :
    (when now : ℕ)
    → now + 1000000 ≤ when
    → let d = duration_from_now when now in
      (d.1 < 10 ^ 9)
      × (0 < nanoseconds d)
      × (nanoseconds d * 1000 ≤ when - now)
      × (when - now < nanoseconds d * 1000 + 1000)
unfolding duration_from_now
duration_from_now_lem when now h = elim (Bool-cases (ltb ((when - now) / 1000) 1000)) [
  | inl soon ↦ absurd (omega (arith, ltb→lt _ _ soon))
  | inr late ↦ rw late (omega arith, omega (arith, ltb→le _ _ late), omega arith, omega arith)
]

-- For any time point the value is one that `timerfd_settime` takes, and arms the timer.
pub duration_from_now_valid :
    (when now : ℕ)
    → ((duration_from_now when now).1 < 10 ^ 9) × (0 < nanoseconds (duration_from_now when now))
unfolding duration_from_now
duration_from_now_valid when now = elim (Bool-cases (ltb ((when - now) / 1000) 1000)) [
  | inl soon ↦ rw soon (omega arith, omega arith)
  | inr late ↦ rw late (omega arith, omega (arith, ltb→le _ _ late))
]
