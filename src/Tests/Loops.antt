-- ===== src/Tests/Loops.antt =====
-- Runs of the poller, of the loop with its timers, of a server that opens, and of a thread.
use net_server_stepby_step.Base.{
  ◌≢◌, ◌>>=◌, undefined, use_after_free, false, ℕ, ◌+◌, ◌≡◌, refl, ◌↔◌, List, [], ◌∷◌, Bool, true,
  false, Option, none, some, if◌then◌else◌, ◌==◌, Outcome, done, failed, Returns, arith, has,
}
use net_server_stepby_step.Channel.{added}
use net_server_stepby_step.Channel.Dispatch.{Callbacks, handle_events}
use net_server_stepby_step.Epoller.{Epoller, Channels, collect, poll, put}
use net_server_stepby_step.Epoller.Poll.{Event, Polled, poll-Polled}
use net_server_stepby_step.EventLoop.{Reactor, set_looping, quit, round, loop}
use net_server_stepby_step.EventLoop.Run.{Ends, loop-Rounds}
use net_server_stepby_step.TimerQueue.{TimerQueue}
use net_server_stepby_step.TimerQueue.Invariant.{IsSound}
use net_server_stepby_step.TcpServer.{World, new_connection}
use net_server_stepby_step.TcpServer.Open.{Opened, new_connection-Opened}
use net_server_stepby_step.Acceptor.{accept}
use net_server_stepby_step.Acceptor.Listen.{accept_lem}
use net_server_stepby_step.Address.{
  new_address, copy_address, get_port, port_to_string, get_port-new_address,
}
use net_server_stepby_step.TcpServer.Names.{to_string}
use net_server_stepby_step.Thread.{
  Thread, new_thread, build, running, finished, destroy_thread, run_step, start,
}
use net_server_stepby_step.Thread.Steps.{
  Reaches, created, then_step, starts, proceeds, Gated, builds,
}
use net_server_stepby_step.Thread.Gate.{
  Reaches-Gated, started_finishes, destroy_thread_lem, left_behind,
}
use net_server_stepby_step.Tests.Machine.{Machine, machine, machine-OsLaws}

abbrev pair_of_channels : Channels
pair_of_channels p =
    if p == 1
    then some (record { fd = 5; events = 1; revents = 0; status = added })
    else (if p == 2
        then some (record { fd = 6; events = 1; revents = 0; status = added })
        else none)

abbrev pair_of_events : List Event
pair_of_events = (2, 1) ∷ (1, 16) ∷ []

-- A poller with room for two events, over a kernel without a state.
abbrev tight : Epoller (Unit {0})
tight = record { kernel = tt; capacity = 2 }

poll-Polled_example :
    Returns
      (poll tight pair_of_channels [] (some pair_of_events))
      (Polled tight pair_of_channels [] pair_of_events)
poll-Polled_example =
    poll-Polled tight pair_of_channels [] pair_of_events (omega arith)
      (
        (record { fd = 6; events = 1; revents = 0; status = added }, refl),
        ((record { fd = 5; events = 1; revents = 0; status = added }, refl), tt),
      )
      ((omega arith, tt), (tt, tt))

abbrev both_ready : ℕ → Unit {0} → Option (List Event) × Unit {0}
both_ready room k = (some pair_of_events, k)

-- The channel at address 2 calls `quit` when it is readable.
abbrev quits : ℕ → Callbacks (Reactor (Unit {0}))
quits p = record {
  close_event = none;
  read_event = if p == 2 then some (λ r. done (quit r)) else none;
  write_event = none;
}

abbrev reactor : Reactor (Unit {0})
reactor = record {
  poller = tight;
  channels = pair_of_channels;
  active_channels = [];
  is_looping = false;
  is_quitting = false;
}

-- Both channels have been handled, and the loop has ended.
abbrev ended : Reactor (Unit {0})
ended = record {
  poller = record { kernel = tt; capacity = 4 };
  channels =
      put (put pair_of_channels 2 (record { fd = 6; events = 1; revents = 1; status = added })) 1
        (record { fd = 5; events = 1; revents = 16; status = added });
  active_channels = 2 ∷ 1 ∷ [];
  is_looping = false;
  is_quitting = true;
}

loop_test : loop both_ready quits 2 reactor ≡ some (done ended)
unfolding loop round poll collect handle_events quit has
loop_test = refl

loop-Rounds_example : (loop both_ready quits 2 reactor ≡ some (done ended)) ↔ (
    (s : Reactor (Unit {0})) × Ends both_ready quits 2 (set_looping reactor true) s
    × (ended ≡ set_looping s false))
loop-Rounds_example = loop-Rounds both_ready quits 2 reactor ended refl

abbrev no_timers : TimerQueue
no_timers = record { timers = []; heap = λ _. none; armed = none; last_id = 0 }

no_timers-IsSound : IsSound [] no_timers
no_timers-IsSound = record {
  sorted = tt;
  live = tt;
  distinct = tt;
  live_due = tt;
  distinct_due = tt;
  apart = tt;
}

abbrev any_wait : ℕ × ℕ → Bool
any_wait _ = true

abbrev calm : Epoller Machine
calm = record {
  kernel = record { entries = λ _. none; accepted = λ _. []; quota = none; incoming = none };
  capacity = 128;
}

abbrev server : World Machine
server = record {
  poller = calm;
  conns = λ _. none;
  table = [];
  next_conn_idx = 1;
  ip_port = 56 ∷ [];
  local_addr = 0;
}

abbrev silent : ℕ → World Machine → Outcome (World Machine)
silent p w = done w

new_connection-Opened_example :
    Returns
      (new_connection machine silent silent 5 4000 (some 100, some 0) 3 server)
      (Opened machine server 3 5)
new_connection-Opened_example =
    new_connection-Opened machine machine-OsLaws silent silent (λ p w. refl) server 5 4000 100 0 3
      refl refl (omega arith)

accept_lem_example :
    accept {S = ℕ} (some (λ fd peer s. done (fd + s))) (λ s. s) (some 5) 4000 1 ≡ done 6
accept_lem_example = accept_lem (some (λ fd peer s. done (fd + s))) (λ s. s) (some 5) 4000 1

get_port-new_address_example :
    (get_port (copy_address (new_address 70000 [])) ≡ 4464)
    × (port_to_string (copy_address (new_address 70000 [])) ≡ to_string 4464)
get_port-new_address_example = get_port-new_address 70000 []

-- Built and started, and then in its function.
abbrev started_thread : Thread
started_thread = record {
  started = true;
  joined = false;
  has_func = true;
  is_joinable = true;
  built = true;
  alive = true;
  phase = running;
  runs = 0;
}

started-Reaches : Reaches true started_thread
unfolding new_thread build start run_step
started-Reaches =
    then_step (then_step (then_step created builds) (starts refl refl)) (proceeds refl)

-- The new thread may run before its gate is there.
new_thread_test : run_step (new_thread true) ≡ failed undefined
unfolding new_thread run_step
new_thread_test = refl

Reaches-Gated_example :
    Gated true started_thread
    × (true ≡ true → Returns (run_step started_thread) (Gated true))
    × (true ≡ false → run_step started_thread ≡ failed undefined)
Reaches-Gated_example = Reaches-Gated started-Reaches

started_finishes_example :
    Returns (run_step started_thread >>= run_step) (λ t. (t.phase ≡ finished) × (t.runs ≡ 1))
started_finishes_example = started_finishes started-Reaches refl

destroy_thread_lem_example :
    (destroy_thread started_thread ≡ done (left_behind started_thread))
    × (true ≡ true
        → running ≢ finished
        → run_step (left_behind started_thread) ≡ failed use_after_free)
destroy_thread_lem_example = destroy_thread_lem started-Reaches
