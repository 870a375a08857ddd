-- ===== src/Thread.antt =====
-- v1.7/src/Thread.h, v1.7/src/Thread.cpp: a thread that the constructor creates and that waits
-- behind a condition variable until `start`. The owner's calls and the steps of the new thread
-- interleave; what stands between a lock and its release is one step, and so is a destructor. Members
-- are constructed in the order of their declaration and destroyed in the reverse one: `thread_` runs
-- before `cv_` and `mutex_` are there, and is destroyed after them.
pub mod Steps
pub mod Gate
use net_server_stepby_step.Base.{
  ℕ, ◌+◌, Bool, true, false, not, ◌&&◌, if◌then◌else◌, Outcome, done, failed, terminated, undefined,
  use_after_free, assert, ◌>>=◌, ◌>>◌,
}

-- Where the new thread is in `run`: before the lock, in `cv_.wait`, behind the lock up to the end of
-- `threadFunc_`, or behind that.
pub data Phase : Type 0 where
  entering : Phase
  asleep : Phase
  running : Phase
  finished : Phase

-- `has_func` is whether `threadFunc_` is set, `runs` how often it returned, `is_joinable` what
-- `thread_.joinable()` says, `built` whether `cv_` and `mutex_` have been constructed, and `alive`
-- whether the object has not been destroyed.
pub record Thread : Type 0 where
  pub started : Bool
  pub joined : Bool
  pub has_func : Bool
  pub is_joinable : Bool
  pub built : Bool
  pub alive : Bool
  pub phase : Phase
  pub runs : ℕ

-- The constructor up to `thread_`, which starts the new thread, and what comes after it.
unfoldable pub new_thread : Bool → Thread
new_thread has_func = record {
  started = false;
  joined = false;
  has_func = has_func;
  is_joinable = true;
  built = false;
  alive = true;
  phase = entering;
  runs = 0;
}

unfoldable pub build : Thread → Thread
build t = record t { built = true }

-- The end of a wait, notified or spurious: the thread tests `started_` again.
abbrev pub wake : Phase → Phase
wake asleep = entering
wake entering = entering
wake running = running
wake finished = finished

unfoldable pub start : Thread → Outcome Thread
start t = do assert (not t.started); done (record t { started = true; phase = wake t.phase })

-- The call of `join`, as it returns.
unfoldable pub join : Thread → Outcome Thread
join t = do
  assert (t.started && not t.joined)
  done (record t { joined = true; is_joinable = false })

-- `joined()`.
abbrev pub is_joined : Thread → Bool
is_joined t = t.is_joinable

-- `started()`.
unfoldable pub is_started : Thread → Outcome Bool
is_started t = do assert (not t.started); done t.started

-- The destructor of `cv_`, on which no thread may wait.
abbrev pub destroy_cv : Phase → Outcome (Unit {0})
destroy_cv asleep = failed undefined
destroy_cv entering = done tt
destroy_cv running = done tt
destroy_cv finished = done tt

-- The destructor, with those of `mutex_`, `cv_` and `thread_`, which ends the program if the thread
-- is joinable.
unfoldable pub destroy_thread : Thread → Outcome Thread
destroy_thread t =
    let detached = if t.started && not t.joined then record t { is_joinable = false } else t in
    do
      destroy_cv detached.phase
      if detached.is_joinable then failed terminated else done (record detached { alive = false })

-- `run`, step by step: it locks `mutex_`, which must be there, and uses `threadFunc_`.
abbrev pub run_from : Phase → Thread → Outcome Thread
run_from entering t =
    if not t.alive
    then failed use_after_free
    else if not t.built
    then failed undefined
    else done (record t {
      phase = if t.started then (if t.has_func then running else finished) else asleep;
    })
run_from asleep t = done t
run_from running t =
    if t.alive
    then done (record t { phase = finished; runs = t.runs + 1 })
    else failed use_after_free
run_from finished t = done t

unfoldable pub run_step : Thread → Outcome Thread
run_step t = run_from t.phase t
