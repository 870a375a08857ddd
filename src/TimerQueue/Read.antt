-- ===== src/TimerQueue/Read.antt =====
-- `TimerQueue::handleTimingRead` as a whole.
use net_server_stepby_step.Base.{
  ap, none, failed, assert_failed, ne→==, subst, ℕ, ◌+◌, ◌<◌, ◌≤◌, ◌≡◌, ◌≢◌, refl, sym, List, [],
  ◌∷◌, ◌++◌, ◌^◌, Bool, true, Option, some, All, Returns, Returns-bind, Returns-mono, Outcome, done,
  arith,
}
use net_server_stepby_step.TimerQueue.{
  TimerQueue, Entry, get_expired, handle_expired, set_timerfd, rearm_first, rearm,
  handle_timing_read, duration_from_now,
}
use net_server_stepby_step.TimerQueue.Set.{All-mono}
use net_server_stepby_step.TimerQueue.Invariant.{Live, Apart, Distinct, IsSound}
use net_server_stepby_step.TimerQueue.Expired.{Splits, get_expired-Splits}
use net_server_stepby_step.TimerQueue.Clock.{duration_from_now_valid}
use net_server_stepby_step.TimerQueue.Round.{CallbacksKeep, handle_expired-IsSound}

All-append_left {ℓ κ} : {A : Type ℓ} (P : A → Type κ) (xs ys : List A) → All P (xs ++ ys) → All P xs
All-append_left P [] ys h = tt
All-append_left P (x ∷ xs) ys h = (h.0, All-append_left P xs ys h.1)

All-append_right {ℓ κ} :
    {A : Type ℓ} (P : A → Type κ) (xs ys : List A) → All P (xs ++ ys) → All P ys
All-append_right P [] ys h = h
All-append_right P (x ∷ xs) ys h = All-append_right P xs ys h.1

Distinct-append :
    (xs ys : List Entry)
    → Distinct (xs ++ ys)
    → Distinct xs × Distinct ys × All (λ e. Apart e.1 ys) xs
Distinct-append [] ys d = (tt, d, tt)
Distinct-append (x ∷ xs) ys d =
    let r = Distinct-append xs ys d.1 in
    (
      (All-append_left (λ f. f.1 ≢ x.1) xs ys d.0, r.0),
      r.1,
      (All-append_right (λ f. f.1 ≢ x.1) xs ys d.0, r.2),
    )

-- Taking the expired entries out of a sound queue leaves it sound, with those to be handled.
Splits-IsSound :
    (q : TimerQueue) (curr : ℕ) (t : List Entry × TimerQueue)
    → IsSound [] q
    → Splits q curr t
    → IsSound t.0 t.1
Splits-IsSound q curr t s p =
    let live = subst (λ l. All (Live q.heap) l) (sym p.parts) s.live in
    let live' = subst (λ h. All (Live h) (t.0 ++ t.1.timers)) (sym p.heap) live in
    let d = Distinct-append t.0 t.1.timers (subst Distinct (sym p.parts) s.distinct) in
    record {
      sorted = p.sorted;
      live = All-append_right (Live t.1.heap) t.0 t.1.timers live';
      distinct = d.1;
      live_due = All-append_left (Live t.1.heap) t.0 t.1.timers live';
      distinct_due = d.0;
      apart = d.2;
    }

-- The expired entries have expired, but for the one at the extra nanosecond.
due_expired :
    (curr : ℕ) (es : List Entry)
    → All (λ e. e.0 ≤ curr + 1) es
    → All (λ e. e.0 ≢ curr + 1) es
    → All (λ e. e.0 ≤ curr) es
due_expired curr [] h k = tt
due_expired curr (e ∷ es) h k =
    let a : e.0 ≤ curr + 1 = h.0 in
    let b : e.0 ≢ curr + 1 = k.0 in (omega arith, due_expired curr es h.1 k.1)

-- The timerfd was last set for the first timer of the queue.
abbrev pub ArmedFor : ℕ → List Entry → Option (ℕ × ℕ) → Type 0
ArmedFor now [] armed = Unit {0}
ArmedFor now (e ∷ l) armed = armed ≡ some (duration_from_now e.0 now)

module _ (settime : ℕ × ℕ → Bool) where
  -- timerfd_settime(2) refuses a wait only for its nanoseconds.
  abbrev pub Accepts : Type 0
  Accepts = (d : ℕ × ℕ) → d.1 < 10 ^ 9 → settime d ≡ true

  pub set_timerfd_lem :
      (q : TimerQueue) (when now : ℕ)
      → Accepts
      → set_timerfd settime q when now
        ≡ done (record q { armed = some (duration_from_now when now) })
  unfolding set_timerfd
  set_timerfd_lem q when now a =
      rw (a (duration_from_now when now) (duration_from_now_valid when now).0)

  rearm_first-IsSound :
      (ts : List Entry) (q : TimerQueue) (now : ℕ)
      → Accepts
      → IsSound [] q
      → Returns
          (rearm_first settime ts q now)
          (λ q'. IsSound [] q' × (q'.timers ≡ q.timers) × ArmedFor now ts q'.armed)
  unfolding rearm_first
  rearm_first-IsSound [] q now a s = (s, refl, tt)
  rearm_first-IsSound (e ∷ l) q now a s = rw (set_timerfd_lem q e.0 now a) (
    record {
      sorted = s.sorted;
      live = s.live;
      distinct = s.distinct;
      live_due = tt;
      distinct_due = tt;
      apart = tt;
    },
    refl,
    refl,
  )

  rearm-IsSound :
      (q : TimerQueue) (now : ℕ)
      → Accepts
      → IsSound [] q
      → Returns (rearm settime q now) (λ q'. IsSound [] q' × ArmedFor now q'.timers q'.armed)
  unfolding rearm
  rearm-IsSound q now a s =
      Returns-mono _ _ (rearm_first settime q.timers q now) (rearm_first-IsSound q.timers q now a s)
        (λ q' h. (h.0, subst (λ ts. ArmedFor now ts q'.armed) (sym h.1) h.2))

module _ (settime : ℕ × ℕ → Bool) (run_callback : ℕ → TimerQueue → Outcome TimerQueue) where
  reads-IsSound :
      (q : TimerQueue) (curr now : ℕ)
      → CallbacksKeep settime run_callback
      → Accepts settime
      → All (λ e. e.0 ≢ curr + 1) q.timers
      → IsSound [] q
      → Returns
          (handle_timing_read settime run_callback q (some 8) curr now)
          (λ q'. IsSound [] q' × ArmedFor now q'.timers q'.armed)
  unfolding handle_timing_read
  reads-IsSound q curr now keep a ne s =
      Returns-bind (Splits q curr) _ (get_expired q curr) _
        (get_expired-Splits q curr s.sorted (All-mono _ _ _ (λ e v. v.4) s.live))
        λ t p.
          Returns-bind (IsSound []) _ (handle_expired settime run_callback curr t.0 t.1) _
            (handle_expired-IsSound settime run_callback curr t.0 t.1 keep
              (due_expired curr t.0 p.expired (
                All-append_left (λ e. e.0 ≢ curr + 1) t.0 t.1.timers
                  (subst (λ l. All (λ (e : Entry). e.0 ≢ curr + 1) l) (sym p.parts) ne)))
              (Splits-IsSound q curr t s p))
            (λ q₁ s₁. rearm-IsSound settime q₁ now a s₁)

  read_fails :
      (q : TimerQueue) (curr now : ℕ) (n : Option ℕ)
      → n ≢ some 8
      → handle_timing_read settime run_callback q n curr now ≡ failed assert_failed
  unfolding handle_timing_read
  read_fails q curr now none h = refl
  read_fails q curr now (some n) h = rw (ne→== n 8 (λ e. h (ap some e))) refl

  -- A round on a sound queue whose read(2) of the timerfd gives its eight bytes returns, leaves the
  -- queue sound (each entry has its timer, which is not canceled and expires when the entry says; the
  -- set is in order), and sets the timerfd for the first timer that is left, provided that callbacks
  -- return and keep the queue sound with the entries still to be handled, that no timer expires
  -- exactly one nanosecond after the time that the round reads, and that `timerfd_settime` takes
  -- waits below a second of nanoseconds. Any other answer of read(2), such as EAGAIN when a callback
  -- earlier in the same round of the loop has set the timerfd anew, ends the program at an assertion.
  pub handle_timing_read-IsSound :
      (q : TimerQueue) (curr now : ℕ)
      → CallbacksKeep settime run_callback
      → Accepts settime
      → All (λ e. e.0 ≢ curr + 1) q.timers
      → IsSound [] q
      → Returns
          (handle_timing_read settime run_callback q (some 8) curr now)
          (λ q'. IsSound [] q' × ArmedFor now q'.timers q'.armed)
        × ((n : Option ℕ)
            → n ≢ some 8
            → handle_timing_read settime run_callback q n curr now ≡ failed assert_failed)
  handle_timing_read-IsSound q curr now keep a ne s =
      (reads-IsSound q curr now keep a ne s, read_fails q curr now)
