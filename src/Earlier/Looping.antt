-- ===== src/Earlier/Looping.antt =====
-- v1.3/src/EventLoop.h, v1.3/src/EventLoop.cpp, v1.3/src/Epoller.cpp and v1.3/src/Channel.cpp: the loop
-- with room for 128 events, the three callbacks of a channel, and the loop that a thread is said to
-- have. Channels are those of Earlier/Polling, whose methods v1.3 has.
pub mod Agreement
pub mod Dispatch
pub mod Running
use net_server_stepby_step.Base.{
  ℕ, zero, suc, List, [], ◌∷◌, ◌++◌, Bool, true, false, Option, none, some, if◌then◌else◌, epollin,
  epollout, epollhup, Outcome, done, failed, assert_failed, assert, deref, ◌>>=◌, ◌>>◌,
}
use net_server_stepby_step.Epoller.{put}
use net_server_stepby_step.Channel.Dispatch.{Callbacks}
use net_server_stepby_step.Earlier.Polling.{Channel, set_return_events, run_if}

-- `MaxEventNums`.
abbrev pub max_event_nums : ℕ
max_event_nums = 128

pub record Reactor (K : Type 0) : Type 0 where
  pub kernel : K
  pub channels : ℕ → Option Channel
  pub active_channels : List ℕ
  pub is_looping : Bool
  pub is_quitting : Bool

-- The constructor, on what epoll_create1(2) returned.
unfoldable pub new_reactor : {K : Type 0} → K → Bool → (ℕ → Option Channel) → Outcome (Reactor K)
new_reactor kernel created channels = do
  assert created
  done (record {
    kernel = kernel;
    channels = channels;
    active_channels = [];
    is_looping = false;
    is_quitting = false;
  })

-- `thread_EventLoop` after the constructor of the loop at this address, and after a destructor.
unfoldable pub enter_thread : ℕ → Option ℕ → Option ℕ
enter_thread this none = some this
enter_thread this (some other) = some other

unfoldable pub leave_thread : Option ℕ → Option ℕ
leave_thread _ = none

unfoldable pub quit : {K : Type 0} → Reactor K → Reactor K
quit r = record r { is_quitting = true }

abbrev pub set_looping : {K : Type 0} → Reactor K → Bool → Reactor K
set_looping r on = record r { is_looping = on }

-- `handleEvents`, with the test of EPOLLOUT that v1.5 leaves out.
module _ {S : Type 0} (channel : S → Option Channel) (cb : Callbacks S) where
  unfoldable pub handle_events : S → Outcome S
  unfolding run_if
  handle_events s = do
    s₁ ← run_if channel cb epollhup cb.close_event s
    s₂ ← run_if channel cb epollin cb.read_event s₁
    run_if channel cb epollout cb.write_event s₂

-- `poll`, on what epoll_wait(2) stored.
unfoldable pub poll :
    (ℕ → Option Channel) → List ℕ → List (ℕ × ℕ) → Outcome (List ℕ × (ℕ → Option Channel))
poll store active [] = done (active, store)
poll store active ((p, ev) ∷ es) = do
  c ← deref (store p)
  poll (put store p (set_return_events c ev)) (active ++ p ∷ []) es

-- The events that epoll_wait stored; a negative answer stores none.
abbrev pub stored : Option (List (ℕ × ℕ)) → List (ℕ × ℕ)
stored none = []
stored (some es) = es

-- What comes after a round.
abbrev pub go_on :
    {K : Type 0}
    → (Reactor K → Option (Outcome (Reactor K)))
    → Outcome (Reactor K)
    → Option (Outcome (Reactor K))
go_on rest (done r) = rest r
go_on rest (failed e) = some (failed e)

-- `isLooping_.exchange(false)` behind the loop.
abbrev pub end_loop : {K : Type 0} → Option (Outcome (Reactor K)) → Option (Outcome (Reactor K))
end_loop none = none
end_loop (some (done r)) = some (done (set_looping r false))
end_loop (some (failed e)) = some (failed e)

module _ {K : Type 0} (wait : ℕ → K → Option (List (ℕ × ℕ)) × K)
    (callbacks : ℕ → Callbacks (Reactor K)) where
  -- `activeChannels_.clear(); poller_->poll(…);`
  unfoldable pub poll_active : Reactor K → Outcome (Reactor K)
  unfolding poll
  poll_active r = do
    let (answer, k) = wait max_event_nums r.kernel
    t ← poll r.channels [] (stored answer)
    done (record r { kernel = k; channels = t.1; active_channels = t.0 })

  -- The loop over the active channels.
  unfoldable pub run_active : List ℕ → Reactor K → Outcome (Reactor K)
  run_active [] r = done r
  run_active (p ∷ ps) r = do
    r₁ ← handle_events (λ r. r.channels p) (callbacks p) r
    run_active ps r₁

  unfoldable pub round : Reactor K → Outcome (Reactor K)
  unfolding poll_active run_active
  round r = do r₁ ← poll_active r; run_active r₁.active_channels r₁

  -- `while (!quit_)`, for at most so many tests of the condition; `none` is a loop that still runs.
  unfoldable pub run_while : ℕ → Reactor K → Option (Outcome (Reactor K))
  run_while zero r = none
  run_while (suc fuel) r = if r.is_quitting then some (done r) else go_on (run_while fuel) (round r)

  unfoldable pub loop : ℕ → Reactor K → Option (Outcome (Reactor K))
  unfolding run_while
  loop fuel r =
      if r.is_looping
      then some (failed assert_failed)
      else end_loop (run_while fuel (set_looping r true))
