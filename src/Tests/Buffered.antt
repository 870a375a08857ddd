-- ===== src/Tests/Buffered.antt =====
-- Runs of connections of v1.5.
use net_server_stepby_step.Base.{
  ◌≡◌, refl, List, [], ◌∷◌, none, false, some, replicate, ◌==◌, if◌then◌else◌, done, Returns, arith,
  has,
}
use net_server_stepby_step.Buffer.{Buffer, IsValid}
use net_server_stepby_step.Channel.{added}
use net_server_stepby_step.TcpConnection.{connected}
use net_server_stepby_step.TcpConnection as Now
use net_server_stepby_step.TcpServer.{owns, erase_name}
use net_server_stepby_step.TcpServer.Names.{same_name}
use net_server_stepby_step.Earlier.Buffered.Agreement.{forget_link, forget_conn, after_forget}
use net_server_stepby_step.Earlier.Buffered.Calls.{
  Call, sends, writes, reads, run_calls, run_calls_now, run_calls-forget,
}
use net_server_stepby_step.Earlier.Buffered.Server.{World, conn_events}
use net_server_stepby_step.Earlier.Buffered.Server.Ending.{Ended, conn_events-Ended}
use net_server_stepby_step.Tests.Machine.{Machine, machine, machine-OsLaws}

abbrev no_bytes : Buffer
no_bytes = record { bytes = replicate 16 0; read_index = 8; write_index = 8 }

-- A connection of v1.7 for which epoll returned EPOLLIN.
abbrev now : Now.Conn
now = record {
  name = 45 ∷ 49 ∷ [];
  socket = 100;
  channel = record { fd = 5; events = 1; revents = 1; status = added };
  local_addr = 0;
  peer_addr = 0;
  state = connected;
  input = no_bytes;
  output = no_bytes;
}

-- Writes take two bytes, and a read finds the end of the stream.
abbrev link : Now.Link Machine
link = record {
  conn = now;
  poller = record {
    kernel = record {
      entries = λ fd. if fd == 5 then some 1 else none;
      accepted = λ _. [];
      quota = some 2;
      incoming = some [];
    };
    capacity = 128;
  };
}

abbrev calls : List Call
calls = sends (7 ∷ 8 ∷ 9 ∷ []) ∷ writes ∷ reads ∷ []

run_calls-forget_example :
    run_calls machine (forget_link link) calls ≡ after_forget (run_calls_now machine link calls)
run_calls-forget_example = run_calls-forget machine calls link

-- Its counterpart in v1.5 is the object at address 3.
abbrev world : World Machine
world = record {
  poller = link.poller;
  conns = λ p. if p == 3 then some (forget_conn now) else none;
  table = (45 ∷ 49 ∷ [], 3) ∷ [];
  next_conn_idx = 2;
  ip_port = [];
  local_addr = 0;
}

owned_once : owns (erase_name now.name world.table) 3 ≡ false
unfolding owns erase_name same_name
owned_once = refl

no_bytes-IsValid : IsValid no_bytes
no_bytes-IsValid = record {
  reserved = omega arith;
  ordered = omega arith;
  in_bounds = omega arith;
  small = omega arith;
}

conn_events-Ended_example :
    Returns
      (conn_events machine (λ p w. done w) (λ p w. done w) 3 world)
      (Ended machine world 3 (forget_conn now))
unfolding has
conn_events-Ended_example =
    conn_events-Ended machine machine-OsLaws (λ p w. done w) (λ p w. done w) (λ p w. refl) world 3
      (forget_conn now) refl owned_once refl 1 refl no_bytes-IsValid refl refl refl
