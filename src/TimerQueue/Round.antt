-- ===== src/TimerQueue/Round.antt =====
-- A round of `TimerQueue::handleTimingRead`: every access of a timer finds it, whatever callbacks
-- do that keep the queue sound.
use net_server_stepby_step.Base.{
  ◌≢◌, subst, ℕ, ◌+◌, ◌*◌, ◌≤◌, ◌≡◌, refl, sym, ap, List, [], ◌∷◌, Bool, true, false, Bool-cases,
  inl, inr, ◌⊎◌, Option, none, some, All, le→leb, Returns, Returns-bind, Returns-mono, Outcome,
  done, arith, if◌then◌else◌, ==-self,
}
use net_server_stepby_step.Epoller.{put}
use net_server_stepby_step.TimerQueue.{
  Timer, TimerQueue, Entry, insert_entry, delete, run_timer, settle, handle_one, handle_expired,
  entry_lt,
}
use net_server_stepby_step.TimerQueue.Set.{insert_entry-All, insert_entry-Sorted, entry_lt_total}
use net_server_stepby_step.TimerQueue.Invariant.{
  Live, Apart, IsSound, put-Live, delete-Live, put_self, insert_entry-Distinct,
}

-- The entry stands in the set.
abbrev pub Holds : Entry → List Entry → Type 0
Holds e [] = ⊥
Holds e (f ∷ l) = ((e.0 ≡ f.0) × (e.1 ≡ f.1)) ⊎ Holds e l

-- What the end of a loop's round makes of a timer: a repeating one runs again an interval later,
-- and any other is deleted.
abbrev pub Settles : Bool → Entry → Timer → TimerQueue → Type 0
Settles true e t q =
    (t' : Timer) × (q.heap e.1 ≡ some t')
    × (t'.timing ≡ t.timing + t.interval * 1000)
    × Holds (t'.timing, e.1) q.timers
Settles false e t q = q.heap e.1 ≡ none

pub insert_entry-Holds : (e : Entry) (l : List Entry) → Holds e (insert_entry e l)
unfolding insert_entry
insert_entry-Holds e [] = inl (refl, refl)
insert_entry-Holds e (f ∷ l) = elim (Bool-cases (entry_lt e f)) [
  | inl here ↦ rw here (inl (refl, refl))
  | inr there ↦ elim (Bool-cases (entry_lt f e)) [
    | inl later ↦ rw (there, later) (inr (insert_entry-Holds e l))
    | inr same ↦ rw (there, same) (inl (entry_lt_total e f there same))
  ]
]

pub insert_entry-Apart :
    (e : Entry) (es l : List Entry)
    → Apart e.1 es
    → All (λ f. Apart f.1 l) es
    → All (λ f. Apart f.1 (insert_entry e l)) es
insert_entry-Apart e [] l a h = tt
insert_entry-Apart e (f ∷ es) l a h = (
  insert_entry-All (λ g. g.1 ≢ f.1) e l (λ n. a.0 (sym n)) h.0,
  insert_entry-Apart e es l a.1 h.1,
)

module _ (e : Entry) (es : List Entry) (t : Timer) (q : TimerQueue) (c : t.canceled ≡ false)
    (s : IsSound (e ∷ es) q) where
  again : Timer
  again = record t { timing = t.timing + t.interval * 1000 }

  again_timing : again.timing ≡ t.timing + t.interval * 1000
  unfolding again
  again_timing = refl

  restarted-IsSound :
      IsSound es (record q {
        timers = insert_entry (again.timing, e.1) q.timers;
        heap = put q.heap e.1 again;
      })
  unfolding again
  restarted-IsSound = record {
    sorted = insert_entry-Sorted _ q.timers s.sorted;
    live =
        insert_entry-All (Live (put q.heap e.1 again)) (again.timing, e.1) q.timers
          (again, put_self q.heap e.1 again, refl, c, s.live_due.0.4)
          (put-Live q.heap e.1 again q.timers s.apart.0 s.live);
    distinct = insert_entry-Distinct _ q.timers s.apart.0 s.distinct;
    live_due = put-Live q.heap e.1 again es s.distinct_due.0 s.live_due.1;
    distinct_due = s.distinct_due.1;
    apart = insert_entry-Apart (again.timing, e.1) es q.timers s.distinct_due.0 s.apart.1;
  }

  deleted-IsSound : IsSound es (record q { heap = delete q.heap e.1 })
  deleted-IsSound = record {
    sorted = s.sorted;
    live = delete-Live q.heap e.1 q.timers s.apart.0 s.live;
    distinct = s.distinct;
    live_due = delete-Live q.heap e.1 es s.distinct_due.0 s.live_due.1;
    distinct_due = s.distinct_due.1;
    apart = s.apart.1;
  }

  settle-again :
      t.repeated ≡ true
      → settle e t q
        ≡ done (record q {
          timers = insert_entry (again.timing, e.1) q.timers;
          heap = put q.heap e.1 again;
        })
  unfolding settle again
  settle-again r = ground arith

  settle-once : t.repeated ≡ false → settle e t q ≡ done (record q { heap = delete q.heap e.1 })
  unfolding settle
  settle-once r = ground arith

  -- The second half of the loop's body: the timer of the entry that is handled is inserted again
  -- at its old expiry plus its interval if it repeats, and is deleted if not, and the queue stays
  -- sound with the entries that are left. (The timer is not canceled.)
  pub settle-Settles : Returns (settle e t q) (λ q'. IsSound es q' × Settles t.repeated e t q')
  settle-Settles = elim (Bool-cases t.repeated) [
    | inl repeats ↦ rw (settle-again repeats) (
      restarted-IsSound,
      subst
          (λ b. Settles b e t (record q {
            timers = insert_entry (again.timing, e.1) q.timers;
            heap = put q.heap e.1 again;
          }))
          (sym repeats)
          (
            again,
            put_self q.heap e.1 again,
            again_timing,
            insert_entry-Holds (again.timing, e.1) q.timers,
          ),
    )
    | inr once ↦ rw (settle-once once) (
      deleted-IsSound,
      subst (λ b. Settles b e t (record q { heap = delete q.heap e.1 })) (sym once)
          (ap (λ b. if b then none else q.heap e.1) (==-self e.1)),
    )
  ]

module _ (settime : ℕ × ℕ → Bool) (run_callback : ℕ → TimerQueue → Outcome TimerQueue) where
  -- The callbacks return and keep the queue sound, with the entries that are still to be handled.
  abbrev pub CallbacksKeep : Type 0
  CallbacksKeep =
      (f : ℕ) (due : List Entry) (q : TimerQueue)
      → IsSound due q
      → Returns (run_callback f q) (IsSound due)

  run_timer-IsSound :
      (due : List Entry) (t : Timer) (q : TimerQueue)
      → CallbacksKeep
      → IsSound due q
      → Returns (run_timer settime run_callback t q) (IsSound due)
  unfolding run_timer
  run_timer-IsSound due t q keep s = go t.callback
    where
      go :
          (o : Option ℕ)
          → Returns
              (elim o as (λ _. Outcome TimerQueue) [ none ↦ done q | some f ↦ run_callback f q ])
              (IsSound due)
      go none = s
      go (some f) = keep f due q s

  handle_one-IsSound :
      (curr : ℕ) (e : Entry) (es : List Entry) (q : TimerQueue)
      → CallbacksKeep
      → e.0 ≤ curr
      → IsSound (e ∷ es) q
      → Returns (handle_one settime run_callback curr e q) (IsSound es)
  unfolding handle_one
  handle_one-IsSound curr e es q keep h s =
      let v = s.live_due.0 in
      simp (v.1, le→leb v.0.timing curr (omega (arith, v.2)), v.3)
        (Returns-bind (IsSound (e ∷ es)) _ (run_timer settime run_callback v.0 q) _
          (run_timer-IsSound (e ∷ es) v.0 q keep s)
          λ q₁ s₁.
            let w = s₁.live_due.0 in
            simp w.1 (
              Returns-mono _ _ (settle e w.0 q₁) (settle-Settles e es w.0 q₁ w.3 s₁) (λ q₂ g. g.0)))

  pub handle_expired-IsSound :
      (curr : ℕ) (es : List Entry) (q : TimerQueue)
      → CallbacksKeep
      → All (λ e. e.0 ≤ curr) es
      → IsSound es q
      → Returns (handle_expired settime run_callback curr es q) (IsSound [])
  unfolding handle_expired
  handle_expired-IsSound curr [] q keep h s = s
  handle_expired-IsSound curr (e ∷ es) q keep h s =
      Returns-bind (IsSound es) _ (handle_one settime run_callback curr e q) _
        (handle_one-IsSound curr e es q keep h.0 s)
        (λ q₁ s₁. handle_expired-IsSound curr es q₁ keep h.1 s₁)
