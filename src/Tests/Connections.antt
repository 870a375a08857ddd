-- ===== src/Tests/Connections.antt =====
-- Runs of `send`, `handleWrite` and `shutdown`.
use net_server_stepby_step.Base.{
  ℕ, ◌+◌, ◌<◌, length, ◌≡◌, refl, ◌↔◌, List, [], ◌∷◌, ◌++◌, true, if◌then◌else◌, Option, none, some,
  replicate, ◌==◌, failed, aborted, Returns, arith, has,
}
use net_server_stepby_step.Buffer.{Buffer}
use net_server_stepby_step.Channel.{added, is_writing}
use net_server_stepby_step.TcpConnection.{Link, connected, send, handle_write}
use net_server_stepby_step.TcpConnection.Invariant.{Watched}
use net_server_stepby_step.TcpConnection.Send.{Sent, send-Sent}
use net_server_stepby_step.TcpConnection.Write.{
  Flushed, handle_write-Flushed, Refused, handle_write_aborts,
}
use net_server_stepby_step.TcpConnection.Drain.{
  Progress, Drained, write_events, write_events-Drained,
}
use net_server_stepby_step.Os.{Os, OsLaws}
use net_server_stepby_step.Tests.Machine.{
  Machine, machine, machine-OsLaws, write_on, write_on_accepts, write_on_entries,
}

abbrev holding : List ℕ → ℕ → Buffer
holding xs n = record { bytes = replicate 8 0 ++ xs; read_index = 8; write_index = 8 + n }

-- A connection on descriptor 5, with this mask and output, whose writes take so many bytes.
abbrev sample : ℕ → Buffer → Option ℕ → Link Machine
sample mask output quota = record {
  conn = record {
    name = [];
    socket = 100;
    channel = record { fd = 5; events = mask; revents = 0; status = added };
    local_addr = 0;
    peer_addr = 0;
    state = connected;
    input = holding (0 ∷ []) 0;
    output = output;
  };
  poller = record {
    kernel = record {
      entries = λ fd. if fd == 5 then some mask else none;
      accepted = λ _. [];
      quota = quota;
      incoming = none;
    };
    capacity = 128;
  };
}

abbrev idle : Link Machine
idle = sample 1 (holding (0 ∷ []) 0) (some 2)

idle-Watched : Watched machine idle
unfolding has
idle-Watched = record {
  sound = record {
    pollable = refl;
    synced = refl;
    mask = omega arith;
    valid = record {
      reserved = omega arith;
      ordered = omega arith;
      in_bounds = omega arith;
      small = omega arith;
    };
  };
  watching = refl;
}

abbrev busy : Option ℕ → Link Machine
busy quota = sample 5 (holding (1 ∷ 2 ∷ 3 ∷ []) 3) quota

busy-Watched : (quota : Option ℕ) → Watched machine (busy quota)
unfolding has
busy-Watched quota = record {
  sound = record {
    pollable = refl;
    synced = refl;
    mask = omega arith;
    valid = record {
      reserved = omega arith;
      ordered = omega arith;
      in_bounds = omega arith;
      small = omega arith;
    };
  };
  watching = refl;
}

send-Sent_example :
    Returns (send machine idle (7 ∷ 8 ∷ 9 ∷ [])) (Sent machine idle (7 ∷ 8 ∷ 9 ∷ []))
send-Sent_example =
    send-Sent machine machine-OsLaws idle (7 ∷ 8 ∷ 9 ∷ []) idle-Watched (omega arith)

handle_write-Flushed_example :
    Returns (handle_write machine (busy (some 2))) (Flushed machine (busy (some 2)) 2)
unfolding has
handle_write-Flushed_example =
    handle_write-Flushed machine machine-OsLaws (busy (some 2)) 1 (busy-Watched (some 2)) refl refl
      refl

handle_write_aborts_example :
    (handle_write machine (busy none) ≡ failed aborted)
    ↔ ((is_writing (busy none).conn.channel ≡ true) × Refused none)
handle_write_aborts_example =
    handle_write_aborts machine machine-OsLaws (busy none) (busy-Watched none) refl

-- An operating system whose writes take two bytes at a time, if there are so many.
abbrev pub flowing : Os
flowing = record {
  Kernel = Machine;
  interest = machine.interest;
  stream = machine.stream;
  pollable = machine.pollable;
  epoll_ctl = machine.epoll_ctl;
  write = λ m fd xs. write_on (some 2) m fd xs;
  readv = machine.readv;
  shut_wr = machine.shut_wr;
}

pub flowing-OsLaws : OsLaws flowing
flowing-OsLaws = record {
  add_lem = machine-OsLaws.add_lem;
  mod_lem = machine-OsLaws.mod_lem;
  del_lem = machine-OsLaws.del_lem;
  add_exists = machine-OsLaws.add_exists;
  mod_absent = machine-OsLaws.mod_absent;
  del_absent = machine-OsLaws.del_absent;
  write_accepts = λ m fd xs. write_on_accepts (some 2) m fd xs;
  write_interest = λ m fd xs j. write_on_entries (some 2) m fd xs j;
  readv_interest = λ m fd room j. refl;
  readv_stream = λ m fd room j. refl;
  shut_interest = λ m fd j. refl;
  shut_stream = λ m fd j. refl;
}

pub flows :
    (m : Machine) (fd : ℕ) (xs : List ℕ) → 0 < length xs → Progress (flowing.write m fd xs).0
flows m fd [] h = absurd (omega arith)
flows m fd (x ∷ xs) h = tt

abbrev waits : Link Machine
waits = busy none

waits-Watched : Watched flowing waits
unfolding has
waits-Watched = record {
  sound = record {
    pollable = refl;
    synced = refl;
    mask = omega arith;
    valid = (busy-Watched none).sound.valid;
  };
  watching = refl;
}

write_events-Drained_example : Returns (write_events flowing 3 waits) (Drained flowing waits)
write_events-Drained_example =
    write_events-Drained flowing flowing-OsLaws flows 3 waits waits-Watched refl (omega arith)
