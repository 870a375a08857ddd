-- ===== src/TimerQueue/Expired.antt =====
-- `TimerQueue::getExpired`: which timers a round takes out, and the nanosecond that is too many.
use net_server_stepby_step.Base.{
  subst, ◌∙◌, Returns-done, ℕ, ◌+◌, ◌<◌, ◌≤◌, ◌≡◌, refl, sym, ap, List, [], ◌∷◌, ◌++◌, Bool, true,
  false, Bool-cases, inl, inr, some, All, Returns, Outcome, failed, assert_failed, lt→leb, arith,
}
use net_server_stepby_step.TimerQueue.{
  Timer, TimerQueue, Entry, entry_lt, from, bound, uintptr_max, ends_after, get_expired, handle_one,
  handle_expired, handle_timing_read,
}
use net_server_stepby_step.TimerQueue.Set.{
  Sorted, All-mono, before-append-from, from-Sorted, before_lt,
}
use net_server_stepby_step.TimerQueue.Invariant.{Live, IsSound}

-- What `getExpired` hands back and leaves.
pub record Splits (q : TimerQueue) (curr : ℕ) (t : List Entry × TimerQueue) : Type 0 where
  pub parts : t.0 ++ t.1.timers ≡ q.timers
  pub expired : All (λ e. e.0 ≤ curr + 1) t.0
  pub rest : All (λ e. curr + 1 < e.0) t.1.timers
  pub heap : t.1.heap ≡ q.heap
  pub sorted : Sorted t.1.timers

lt_bound : (curr : ℕ) (e : Entry) → entry_lt e (bound curr) ≡ true → e.0 ≤ curr + 1
lt_bound curr (w, p) h = ground arith

ge_bound :
    (curr : ℕ) (e : Entry) → entry_lt e (bound curr) ≡ false → e.1 < uintptr_max → curr + 1 < e.0
ge_bound curr (w, p) h k = ground arith

later_still : (curr : ℕ) (e f : Entry) → curr + 1 < e.0 → entry_lt e f ≡ true → curr + 1 < f.0
later_still curr (w, p) (v, q) h k = ground arith

from_gt :
    (curr : ℕ) (l : List Entry)
    → Sorted l
    → All (λ e. e.1 < uintptr_max) l
    → All (λ e. curr + 1 < e.0) (from (bound curr) l)
unfolding from
from_gt curr [] s a = tt
from_gt curr (e ∷ l) s a = elim (Bool-cases (entry_lt e (bound curr))) [
  | inl low ↦ rw low (from_gt curr l s.1 a.1)
  | inr high ↦
      let h = ge_bound curr e high a.0 in
      rw high (h, All-mono _ _ l (λ f k. later_still curr e f h k) s.0)
]

ends_after_of_All :
    (curr : ℕ) (l : List Entry) → All (λ e. curr + 1 < e.0) l → ends_after curr l ≡ true
ends_after_of_All curr [] h = refl
ends_after_of_All curr (e ∷ l) h = let k : curr + 1 < e.0 = h.0 in ground arith

-- On a set in order, with addresses below the greatest, the assertion of `getExpired` holds: it
-- takes out the entries up to one nanosecond after `curr`, leaves the later ones, and keeps all
-- timers.
pub get_expired-Splits :
    (q : TimerQueue) (curr : ℕ)
    → Sorted q.timers
    → All (λ e. e.1 < uintptr_max) q.timers
    → Returns (get_expired q curr) (Splits q curr)
unfolding get_expired
get_expired-Splits q curr s a =
    let later = from_gt curr q.timers s a in
    rw (ends_after_of_All curr (from (bound curr) q.timers) later) (record {
      parts = before-append-from (bound curr) q.timers;
      expired = All-mono _ _ _ (lt_bound curr) (before_lt (bound curr) q.timers);
      rest = later;
      heap = refl;
      sorted = from-Sorted (bound curr) q.timers s;
    })

cons-injective_head : {e f : Entry} {l m : List Entry} → e ∷ l ≡ f ∷ m → e ≡ f
cons-injective_head h = cc

module _ (settime : ℕ × ℕ → Bool) (run_callback : ℕ → TimerQueue → Outcome TimerQueue) where
  early_assert :
      (q : TimerQueue) (curr : ℕ) (e : Entry) (es : List Entry) (t : Timer)
      → q.heap e.1 ≡ some t
      → t.timing ≡ curr + 1
      → handle_expired settime run_callback curr (e ∷ es) q ≡ failed assert_failed
  unfolding handle_expired handle_one
  early_assert q curr e es t h k = rw h (rw (lt→leb t.timing curr (omega arith)))

  first_is_due :
      (curr p : ℕ) (l due : List Entry) (q : TimerQueue)
      → due ++ q.timers ≡ (curr + 1, p) ∷ l
      → All (λ e. curr + 1 < e.0) q.timers
      → Live q.heap (curr + 1, p)
      → handle_expired settime run_callback curr due q ≡ failed assert_failed
  first_is_due curr p l [] q e r v = absurd (not_after q.timers e r)
    where
      not_after : (ts : List Entry) → ts ≡ (curr + 1, p) ∷ l → All (λ e. curr + 1 < e.0) ts → ⊥
      not_after [] e r = cc
      not_after (f ∷ fs) e r = omega (arith, ap (λ (x : Entry). x.0) (cons-injective_head e), r.0)
  first_is_due curr p l (f ∷ es) q e r v =
      early_assert q curr f es v.0
        (ap q.heap (ap (λ (x : Entry). x.1) (cons-injective_head e)) ∙ v.1) v.2

  -- If the first timer of the queue expires exactly one nanosecond after the time that a round
  -- reads, having read the eight bytes of the timerfd, `getExpired` takes it out all the same, and the assertion that it has expired ends the
  -- program.
  pub handle_timing_read_early :
      (q : TimerQueue) (curr now p : ℕ) (l : List Entry)
      → q.timers ≡ (curr + 1, p) ∷ l
      → IsSound [] q
      → handle_timing_read settime run_callback q (some 8) curr now ≡ failed assert_failed
  unfolding handle_timing_read
  handle_timing_read_early q curr now p l e s =
      let (t, d, sp) =
        Returns-done (Splits q curr) (get_expired q curr)
          (get_expired-Splits q curr s.sorted (All-mono _ _ _ (λ e v. v.4) s.live)) in
      rw d (
        rw (
          first_is_due curr p l t.0 t.1 (sp.parts ∙ e) sp.rest (
            subst (λ h. Live h (curr + 1, p)) (sym sp.heap)
              (subst (λ ts. All (Live q.heap) ts) e s.live).0)))
