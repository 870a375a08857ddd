-- ===== src/TimerQueue/Add.antt =====
-- `TimerQueue::addTimer`.
use net_server_stepby_step.Base.{
  subst, ℕ, ◌<◌, ◌≡◌, refl, List, [], ◌∷◌, Bool, true, false, not, ◌||◌, Bool-cases, inl, inr,
  Option, none, some, All, Returns, add_size, arith,
}
use net_server_stepby_step.Epoller.{put}
use net_server_stepby_step.TimerQueue.{
  Timer, TimerQueue, Entry, new_timer, insert_entry, add_timer, is_first, entry_lt,
  duration_from_now, uintptr_max,
}
use net_server_stepby_step.TimerQueue.Set.{insert_entry-All, insert_entry-Sorted}
use net_server_stepby_step.TimerQueue.Invariant.{
  Live, IsSound, put-Live, put_self, insert_entry-Distinct,
}
use net_server_stepby_step.TimerQueue.Round.{Holds, insert_entry-Holds, insert_entry-Apart}
use net_server_stepby_step.TimerQueue.Read.{Accepts, set_timerfd_lem}
use net_server_stepby_step.TimerQueue.Cancel.{Live-Apart}

-- `armed` follows the first timer: it is set for an entry that comes before all others, and is
-- left alone if another comes before the entry.
pub record Follows (q : TimerQueue) (e : Entry) (now : ℕ) (armed : Option (ℕ × ℕ)) : Type 0 where
  pub earliest : All (λ f. entry_lt e f ≡ true) q.timers → armed ≡ some (duration_from_now e.0 now)
  pub later :
      (f : Entry) (l : List Entry) → q.timers ≡ f ∷ l → entry_lt f e ≡ true → armed ≡ q.armed

-- What `addTimer` leaves.
pub record Added (due : List Entry) (q : TimerQueue) (t : Timer) (p now : ℕ) (r : ℕ × TimerQueue)
    : Type 0 where
  pub address : r.0 ≡ p
  pub sound : IsSound due r.1
  pub stored : r.1.heap p ≡ some t
  pub queued : Holds (t.timing, p) r.1.timers
  pub follows : Follows q (t.timing, p) now r.1.armed

is_first_earliest :
    (e : Entry) (l : List Entry)
    → All (λ f. entry_lt e f ≡ true) l
    → is_first e (insert_entry e l) ≡ true
unfolding insert_entry
is_first_earliest (w, p) [] a = ground arith
is_first_earliest (w, p) (f ∷ l) a = let h = a.0 in rw h (irreflexive w p)
  where
    irreflexive : (w p : ℕ) → not (entry_lt (w, p) (w, p) || entry_lt (w, p) (w, p)) ≡ true
    irreflexive w p = ground arith

is_first_later :
    (e f : Entry) (l : List Entry)
    → entry_lt f e ≡ true
    → is_first e (insert_entry e (f ∷ l)) ≡ false
unfolding insert_entry
is_first_later (w, p) (v, r) l h = ground arith

inserted-IsSound :
    (due : List Entry) (q : TimerQueue) (t : Timer) (p id : ℕ)
    → IsSound due q
    → q.heap p ≡ none
    → p < uintptr_max
    → t.canceled ≡ false
    → (armed : Option (ℕ × ℕ))
    → IsSound due (record {
      timers = insert_entry (t.timing, p) q.timers;
      heap = put q.heap p t;
      armed = armed;
      last_id = id;
    })
inserted-IsSound due q t p id s h m c armed =
    let a = Live-Apart q.heap p q.timers h s.live in
    let b = Live-Apart q.heap p due h s.live_due in
    record {
      sorted = insert_entry-Sorted (t.timing, p) q.timers s.sorted;
      live =
          insert_entry-All (Live (put q.heap p t)) (t.timing, p) q.timers
            (t, put_self q.heap p t, refl, c, m) (put-Live q.heap p t q.timers a s.live);
      distinct = insert_entry-Distinct (t.timing, p) q.timers a s.distinct;
      live_due = put-Live q.heap p t due b s.live_due;
      distinct_due = s.distinct_due;
      apart = insert_entry-Apart (t.timing, p) due q.timers b s.apart;
    }

module _ (settime : ℕ × ℕ → Bool) where
  -- Adding a timer at an address that is free returns that address and leaves a sound queue sound,
  -- with the new timer and its entry in it and the same entries still to be handled; the timerfd
  -- is set for the new timer if it comes before all others, and is left alone if one comes before
  -- it.
  pub add_timer-Added :
      (due : List Entry) (q : TimerQueue) (cb : Option ℕ) (when interval p now : ℕ)
      → Accepts settime
      → IsSound due q
      → q.heap p ≡ none
      → p < uintptr_max
      → Returns
          (add_timer settime q cb when interval p now)
          (Added due q (new_timer cb when interval (add_size q.last_id 1)) p now)
  unfolding add_timer new_timer
  add_timer-Added due q cb when interval p now a s h m =
      elim (Bool-cases (is_first (when, p) (insert_entry (when, p) q.timers))) [
        | inl first ↦ rw first (
            rw (set_timerfd_lem settime _ when now a) (record {
              address = refl;
              sound = inserted-IsSound due q t p _ s h m refl _;
              stored = put_self q.heap p t;
              queued = insert_entry-Holds (when, p) q.timers;
              follows = record {
                earliest = λ _. refl;
                later = λ f l e lt. absurd (not_both f l e lt first);
              };
            }))
        | inr behind ↦ rw behind (record {
          address = refl;
          sound = inserted-IsSound due q t p _ s h m refl _;
          stored = put_self q.heap p t;
          queued = insert_entry-Holds (when, p) q.timers;
          follows = record {
            earliest = λ all. absurd (cc (is_first_earliest (when, p) q.timers all));
            later = λ _ _ _ _. refl;
          };
        })
      ]
    where
      t : Timer
      t = new_timer cb when interval (add_size q.last_id 1)

      not_both :
          (f : Entry) (l : List Entry)
          → q.timers ≡ f ∷ l
          → entry_lt f (when, p) ≡ true
          → is_first (when, p) (insert_entry (when, p) q.timers) ≡ true
          → ⊥
      not_both f l e lt first =
          let no_first = is_first_later (when, p) f l lt in
          let first' = subst (λ l. is_first (when, p) (insert_entry (when, p) l) ≡ true) e first in
          cc
