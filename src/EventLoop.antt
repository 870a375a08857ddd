-- ===== src/EventLoop.antt =====
-- v1.7/src/EventLoop.h, v1.7/src/EventLoop.cpp: the loop, over the channels by address. What the
-- channels' callbacks do is a parameter, and so is epoll_wait(2), which may change the kernel's
-- state. The methods on timers are in EventLoop/Timing; `updateChannel` and `removeChannel` are in
-- Channel/Update.
pub mod Run
pub mod Timing
use net_server_stepby_step.Base.{
  ℕ, zero, suc, List, [], ◌∷◌, Bool, true, false, not, Option, none, some, if◌then◌else◌, Outcome,
  done, failed, assert_failed, assert, ◌>>=◌, ◌>>◌,
}
use net_server_stepby_step.Channel.Dispatch.{Callbacks, handle_events}
use net_server_stepby_step.Epoller.{Epoller, Channels, poll}

pub record Reactor (K : Type 0) : Type 0 where
  pub poller : Epoller K
  pub channels : Channels
  pub active_channels : List ℕ
  pub is_looping : Bool
  pub is_quitting : Bool

-- The constructor.
unfoldable pub new_reactor : {K : Type 0} → Epoller K → Channels → Reactor K
new_reactor poller channels = record {
  poller = poller;
  channels = channels;
  active_channels = [];
  is_looping = false;
  is_quitting = false;
}

unfoldable pub quit : {K : Type 0} → Reactor K → Reactor K
quit r = record r { is_quitting = true }

abbrev pub set_looping : {K : Type 0} → Reactor K → Bool → Reactor K
set_looping r on = record r { is_looping = on }

-- What comes after a round.
abbrev pub go_on :
    {K : Type 0}
    → (Reactor K → Option (Outcome (Reactor K)))
    → Outcome (Reactor K)
    → Option (Outcome (Reactor K))
go_on rest (done r) = rest r
go_on rest (failed e) = some (failed e)

-- `isLooping_.exchange(false)` behind the loop.
abbrev pub end_loop : {K : Type 0} → Option (Outcome (Reactor K)) → Option (Outcome (Reactor K))
end_loop none = none
end_loop (some (done r)) = some (done (set_looping r false))
end_loop (some (failed e)) = some (failed e)

module _ {K : Type 0} (wait : ℕ → K → Option (List (ℕ × ℕ)) × K)
    (callbacks : ℕ → Callbacks (Reactor K)) where
  -- `wait` is epoll_wait(2), on the room for events. `activeChannels_.clear(); poller_->poll(…);`
  unfoldable pub poll_active : Reactor K → Outcome (Reactor K)
  poll_active r = do
    let (answer, k) = wait r.poller.capacity r.poller.kernel
    t ← poll (record (r.poller) { kernel = k }) r.channels [] answer
    done (record r { poller = t.2; channels = t.1; active_channels = t.0 })

  -- The loop over the active channels.
  unfoldable pub run_active : List ℕ → Reactor K → Outcome (Reactor K)
  run_active [] r = done r
  run_active (p ∷ ps) r = do
    r₁ ← handle_events (λ r. r.channels p) (callbacks p) r
    run_active ps r₁

  unfoldable pub round : Reactor K → Outcome (Reactor K)
  unfolding poll_active run_active
  round r = do r₁ ← poll_active r; run_active r₁.active_channels r₁

  -- `while (!quit_)`, for at most so many tests of the condition; `none` is a loop that still runs.
  unfoldable pub run_while : ℕ → Reactor K → Option (Outcome (Reactor K))
  run_while zero r = none
  run_while (suc fuel) r = if r.is_quitting then some (done r) else go_on (run_while fuel) (round r)

  unfoldable pub loop : ℕ → Reactor K → Option (Outcome (Reactor K))
  unfolding run_while
  loop fuel r =
      if r.is_looping
      then some (failed assert_failed)
      else end_loop (run_while fuel (set_looping r true))
