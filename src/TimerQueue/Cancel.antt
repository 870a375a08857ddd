-- ===== src/TimerQueue/Cancel.antt =====
-- `TimerQueue::addTimer` and `cancelTimer` keep the queue sound; a callback that cancels its own
-- timer does not.
use net_server_stepby_step.Base.{
  ℕ, ◌≤◌, ◌≡◌, ◌≢◌, refl, ◌∙◌, sym, ap, List, [], ◌∷◌, Bool, false, Option, none, some, All,
  Returns, Outcome, done, failed, use_after_free, if◌then◌else◌, ==-self, le→leb, arith,
}
use net_server_stepby_step.TimerQueue.{
  Timer, TimerQueue, Entry, erase_entry, cancel, delete, cancel_timer, handle_one, run_timer,
}
use net_server_stepby_step.TimerQueue.Set.{All-mono, erase_entry-All, erase_entry-Sorted}
use net_server_stepby_step.TimerQueue.Invariant.{
  Live, Apart, IsSound, delete-Live, erase_entry-Distinct, erase_entry-Apart,
}

none-some : {t : Timer} → none ≡ some t → ⊥
none-some e = cc

-- An address that holds no timer is apart from the entries of live ones.
pub Live-Apart :
    (heap : ℕ → Option Timer) (p : ℕ) (l : List Entry)
    → heap p ≡ none
    → All (Live heap) l
    → Apart p l
Live-Apart heap p [] h v = tt
Live-Apart heap p (e ∷ l) h v =
    (λ n. none-some (sym h ∙ ap heap (sym n) ∙ v.0.1), Live-Apart heap p l h v.1)

cancel_timer_lem :
    (q : TimerQueue) (p : ℕ) (t : Timer)
    → q.heap p ≡ some t
    → t.canceled ≡ false
    → cancel_timer q p
      ≡ done (record q { timers = erase_entry (t.timing, p) q.timers; heap = delete q.heap p })
unfolding cancel_timer cancel
cancel_timer_lem q p t h c = ground arith

delete_self : (heap : ℕ → Option Timer) (p : ℕ) → delete heap p p ≡ none
delete_self heap p = ap (λ b. if b then none else heap p) (==-self p)

-- Cancelling a timer that is in the heap of a sound queue and not canceled returns, and leaves the queue sound without the
-- timer, with the same entries still to be handled; the timer must not be one of those.
pub cancel_timer-IsSound :
    (due : List Entry) (q : TimerQueue) (p : ℕ) (t : Timer)
    → IsSound due q
    → q.heap p ≡ some t
    → t.canceled ≡ false
    → Apart p due
    → Returns (cancel_timer q p) (λ q'. IsSound due q' × (q'.heap p ≡ none) × Apart p q'.timers)
cancel_timer-IsSound due q p t s h c a =
    let l = erase_entry (t.timing, p) q.timers in
    let gone = erase_entry-Apart q.heap t.timing p t q.timers h refl s.live s.distinct in
    rw (cancel_timer_lem q p t h c) (
      record {
        sorted = erase_entry-Sorted (t.timing, p) q.timers s.sorted;
        live =
            delete-Live q.heap p l gone
              (erase_entry-All (Live q.heap) (t.timing, p) q.timers s.live);
        distinct = erase_entry-Distinct (t.timing, p) q.timers s.distinct;
        live_due = delete-Live q.heap p due a s.live_due;
        distinct_due = s.distinct_due;
        apart =
            All-mono (λ (e : Entry). Apart e.1 q.timers) (λ (e : Entry). Apart e.1 l) due
              (λ e h. erase_entry-All (λ (g : Entry). g.1 ≢ e.1) (t.timing, p) q.timers h) s.apart;
      },
      delete_self q.heap p,
      gone,
    )

module _ (settime : ℕ × ℕ → Bool) (run_callback : ℕ → TimerQueue → Outcome TimerQueue) where
  run_timer-some :
      (t : Timer) (q : TimerQueue) (f : ℕ)
      → t.callback ≡ some f
      → run_timer settime run_callback t q ≡ run_callback f q
  unfolding run_timer
  run_timer-some t q f e = ground arith

  -- A callback that cancels the timer that runs it deletes the timer under the loop, which reads
  -- it next: for a timer that is there, due and not canceled, with a callback that cancels it, the
  -- run ends in a use after free.
  pub handle_one_self_cancel :
      (q : TimerQueue) (curr f : ℕ) (e : Entry) (t : Timer)
      → q.heap e.1 ≡ some t
      → t.timing ≤ curr
      → t.canceled ≡ false
      → t.callback ≡ some f
      → run_callback f q ≡ cancel_timer q e.1
      → handle_one settime run_callback curr e q ≡ failed use_after_free
  unfolding handle_one
  handle_one_self_cancel q curr f e t h due c cb r =
      simp (h, le→leb t.timing curr due, c)
        (simp (run_timer-some t q f cb, r, cancel_timer_lem q e.1 t h c)
          (simp (delete_self q.heap e.1)))
