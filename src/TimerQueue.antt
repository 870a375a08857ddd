-- ===== src/TimerQueue.antt =====
-- v1.7/src/TimerQueue.h, v1.7/src/TimerQueue.cpp (and those of v1.6): timers by expiry over one
-- timerfd. Time points are nanoseconds since the epoch, intervals microseconds that are not
-- negative. `Timer*` is an address in a heap of timers. The callbacks, which may call the queue
-- again, are a parameter, and so is `timerfd_settime`; each call of `now()` is an argument.
pub mod Set
pub mod Clock
pub mod Invariant
pub mod Expired
pub mod Round
pub mod Read
pub mod Cancel
pub mod Add
pub mod Life
use net_server_stepby_step.Base.{
  assert_failed, ℕ, ◌+◌, ◌-◌, ◌*◌, ◌/◌, ◌%◌, ◌^◌, List, [], ◌∷◌, Bool, true, false, not, ◌&&◌, ◌||◌,
  Option, none, some, ltb, leb, ◌==◌, if◌then◌else◌, add_size, Outcome, done, failed, aborted,
  assert, deref, ◌>>=◌, ◌>>◌,
}
use net_server_stepby_step.Epoller.{put}

-- `callback` names a `TimeCallback`; `none` is an empty one.
pub record Timer : Type 0 where
  pub callback : Option ℕ
  pub timing : ℕ
  pub interval : ℕ
  pub repeated : Bool
  pub canceled : Bool
  pub timer_id : ℕ

unfoldable pub new_timer : Option ℕ → ℕ → ℕ → ℕ → Timer
new_timer cb when interval id = record {
  callback = cb;
  timing = when;
  interval = interval;
  repeated = ltb 0 interval;
  canceled = false;
  timer_id = id;
}

abbrev pub is_expired : Timer → ℕ → Bool
is_expired t now = leb t.timing now

unfoldable pub restart : Timer → Outcome Timer
restart t = do assert t.repeated; done (record t { timing = t.timing + t.interval * 1000 })

unfoldable pub cancel : Timer → Outcome Timer
cancel t = do assert (not t.canceled); done (record t { canceled = true })

-- `std::pair<Timestamp, Timer*>`, and `<` on it.
abbrev pub Entry : Type 0
Entry = ℕ × ℕ

abbrev pub entry_lt : Entry → Entry → Bool
entry_lt (w, p) (v, q) = ltb w v || (w == v && ltb p q)

-- `std::set<Entry>` as its elements in order: `insert`, `erase`, and the split at `lower_bound`.
unfoldable pub insert_entry : Entry → List Entry → List Entry
insert_entry e [] = e ∷ []
insert_entry e (f ∷ l) =
    if entry_lt e f then e ∷ f ∷ l else f ∷ (if entry_lt f e then insert_entry e l else l)

unfoldable pub erase_entry : Entry → List Entry → List Entry
erase_entry e [] = []
erase_entry e (f ∷ l) = if entry_lt e f || entry_lt f e then f ∷ erase_entry e l else l

unfoldable pub before : Entry → List Entry → List Entry
before e [] = []
before e (f ∷ l) = if entry_lt f e then f ∷ before e l else []

unfoldable pub from : Entry → List Entry → List Entry
from e [] = []
from e (f ∷ l) = if entry_lt f e then from e l else f ∷ l

-- `armed` is the last `it_value` given to `timerfd_settime`.
pub record TimerQueue : Type 0 where
  pub timers : List Entry
  pub heap : ℕ → Option Timer
  pub armed : Option (ℕ × ℕ)
  pub last_id : ℕ

abbrev pub uintptr_max : ℕ
uintptr_max = 2 ^ 64 - 1

-- `durationFromNow`: seconds and nanoseconds. A time point in the past gives the least wait.
unfoldable pub duration_from_now : ℕ → ℕ → ℕ × ℕ
duration_from_now when now =
    let elapsed = (when - now) / 1000 in
    let microseconds = if ltb elapsed 1000 then 1000 else elapsed in
    (microseconds / 10 ^ 9, microseconds % 10 ^ 9)

-- `curr + 1ns` with the greatest address.
abbrev pub bound : ℕ → Entry
bound curr = (curr + 1, uintptr_max)

abbrev pub ends_after : ℕ → List Entry → Bool
ends_after curr [] = true
ends_after curr (e ∷ l) = ltb curr e.0

unfoldable pub get_expired : TimerQueue → ℕ → Outcome (List Entry × TimerQueue)
get_expired q curr = do
  let end = from (bound curr) q.timers
  assert (ends_after curr end)
  done (before (bound curr) q.timers, record q { timers = end })

-- `firstExpiredTimer`, in milliseconds, for a first timer that is not in the past.
unfoldable pub first_expired_timer : TimerQueue → ℕ → ℕ
first_expired_timer q now = elim q.timers [ [] ↦ 0 | e ∷ l ↦ (e.0 - now) / 1000000 ]

-- `delete timer`.
abbrev pub delete : (ℕ → Option Timer) → ℕ → ℕ → Option Timer
delete heap p a = if a == p then none else heap a

-- `timer->cancel(); timerList_.erase({timer->when(), timer}); delete timer;`
unfoldable pub cancel_timer : TimerQueue → ℕ → Outcome TimerQueue
unfolding cancel erase_entry
cancel_timer q p = do
  t ← deref (q.heap p)
  t' ← cancel t
  done (record q { timers = erase_entry (t'.timing, p) q.timers; heap = delete q.heap p })

-- The second `if` of the loop: restart and insert again, or delete.
unfoldable pub settle : Entry → Timer → TimerQueue → Outcome TimerQueue
unfolding restart insert_entry
settle e t q =
    if not t.canceled && t.repeated
    then (do
      t' ← restart t
      done (record q { timers = insert_entry (t'.timing, e.1) q.timers; heap = put q.heap e.1 t' }))
    else done (record q { heap = delete q.heap e.1 })

-- Whether `begin()` is the entry that was inserted.
abbrev pub is_first : Entry → List Entry → Bool
is_first e [] = false
is_first e (f ∷ l) = not (entry_lt e f || entry_lt f e)

-- `readTimerfd`, on what read(2) returned, `none` for an error: it must be the eight bytes of the
-- count.
abbrev pub read_timerfd : Option ℕ → Outcome (Unit {0})
read_timerfd none = failed assert_failed
read_timerfd (some n) = assert (n == 8)

module _ (settime : ℕ × ℕ → Bool) where
  unfoldable pub set_timerfd : TimerQueue → ℕ → ℕ → Outcome TimerQueue
  set_timerfd q when now =
      let value = duration_from_now when now in
      if settime value then done (record q { armed = some value }) else failed aborted

  -- `addTimer`; `p` is the address that `new` gave.
  unfoldable pub add_timer : TimerQueue → Option ℕ → ℕ → ℕ → ℕ → ℕ → Outcome (ℕ × TimerQueue)
  add_timer q cb when interval p now = do
    let id = add_size q.last_id 1
    let timers = insert_entry (when, p) q.timers
    let heap = put q.heap p (new_timer cb when interval id)
    let q₁ = record q { timers = timers; heap = heap; last_id = id }
    q₂ ← if is_first (when, p) timers then set_timerfd q₁ when now else done q₁
    done (p, q₂)

  -- The last lines of `handleTimingRead`, by the entries that are left.
  unfoldable pub rearm_first : List Entry → TimerQueue → ℕ → Outcome TimerQueue
  rearm_first [] q now = done q
  rearm_first (e ∷ l) q now = set_timerfd q e.0 now

  unfoldable pub rearm : TimerQueue → ℕ → Outcome TimerQueue
  unfolding rearm_first set_timerfd
  rearm q now = rearm_first q.timers q now

  module _ (run_callback : ℕ → TimerQueue → Outcome TimerQueue) where
    -- `Timer::run`.
    unfoldable pub run_timer : Timer → TimerQueue → Outcome TimerQueue
    run_timer t q = elim t.callback [ none ↦ done q | some f ↦ run_callback f q ]

    -- One round of the loop over the expired entries.
    unfoldable pub handle_one : ℕ → Entry → TimerQueue → Outcome TimerQueue
    unfolding run_timer settle
    handle_one curr e q = do
      t ← deref (q.heap e.1)
      assert (is_expired t curr)
      q₁ ← if not t.canceled then run_timer t q else done q
      t₁ ← deref (q₁.heap e.1)
      settle e t₁ q₁

    unfoldable pub handle_expired : ℕ → List Entry → TimerQueue → Outcome TimerQueue
    handle_expired curr [] q = done q
    handle_expired curr (e ∷ es) q = do q₁ ← handle_one curr e q; handle_expired curr es q₁

    -- `handleTimingRead`; `n` is what `read` on the timerfd returned.
    unfoldable pub handle_timing_read : TimerQueue → Option ℕ → ℕ → ℕ → Outcome TimerQueue
    unfolding handle_expired get_expired rearm
    handle_timing_read q n curr now = do
      read_timerfd n
      t ← get_expired q curr
      q₁ ← handle_expired curr t.0 t.1
      rearm q₁ now
