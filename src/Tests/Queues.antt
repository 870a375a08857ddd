-- ===== src/Tests/Queues.antt =====
-- Runs of the buffer and of the registration of channels.
use net_server_stepby_step.Base.{refl, List, [], ◌∷◌, ◌++◌, none, some, replicate, Returns, arith}
use net_server_stepby_step.Buffer.{Buffer, IsValid, contents, read_fd}
use net_server_stepby_step.Buffer.Queue.{
  Call, appends, retrieves, takes, takes_all, reads, run, queue_run, Agrees, run-queue_run,
}
use net_server_stepby_step.Buffer.Contents.{Received, read_fd-Received}
use net_server_stepby_step.Channel.{Channel, fresh}
use net_server_stepby_step.Channel.Changes.{
  Change, enable_read, enable_write, disable_all, removal, changes, Settled, changes-Settled,
}
use net_server_stepby_step.Epoller.{Epoller}
use net_server_stepby_step.Tests.Machine.{Machine, machine, machine-OsLaws}

-- Two bytes readable, two bytes writable.
abbrev pair : Buffer
pair = record { bytes = replicate 8 0 ++ 1 ∷ 2 ∷ 0 ∷ 0 ∷ []; read_index = 8; write_index = 10 }

pair-IsValid : IsValid pair
pair-IsValid = record {
  reserved = omega arith;
  ordered = omega arith;
  in_bounds = omega arith;
  small = omega arith;
}

abbrev calls : List Call
calls =
    appends (3 ∷ 4 ∷ 5 ∷ [])
    ∷ takes 4
    ∷ reads (some (6 ∷ 7 ∷ 8 ∷ 9 ∷ []))
    ∷ retrieves 1
    ∷ takes_all
    ∷ []

run-queue_run_example : Returns (run pair calls) (Agrees (queue_run (contents pair) calls))
run-queue_run_example =
    run-queue_run pair calls pair-IsValid (tt, (omega arith, (tt, (tt, (tt, tt))))) (omega arith)

read_fd-Received_example :
    Returns (read_fd pair (some (3 ∷ 4 ∷ 5 ∷ []))) (Received pair (3 ∷ 4 ∷ 5 ∷ []))
read_fd-Received_example = read_fd-Received pair (3 ∷ 4 ∷ 5 ∷ []) pair-IsValid (omega arith)

abbrev empty_poller : Epoller Machine
empty_poller = record {
  kernel = record { entries = λ _. none; accepted = λ _. []; quota = none; incoming = none };
  capacity = 128;
}

abbrev channel : Channel
channel = record { fd = 5; events = 0; revents = 0; status = fresh }

abbrev life : List Change
life = enable_read ∷ enable_write ∷ disable_all ∷ enable_read ∷ disable_all ∷ removal ∷ []

changes-Settled_example :
    Returns
      (changes machine empty_poller channel life)
      (Settled machine machine-OsLaws empty_poller channel)
changes-Settled_example =
    changes-Settled machine machine-OsLaws life empty_poller channel refl refl
      (tt, (tt, (tt, (tt, (tt, (refl, tt))))))
