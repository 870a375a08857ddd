-- ===== src/Tests/Servers.antt =====
-- Runs of a server with one connection.
use net_server_stepby_step.Base.{
  ℕ, ◌≡◌, refl, [], ◌∷◌, false, if◌then◌else◌, none, some, replicate, ◌==◌, Outcome, done, failed,
  use_after_free, Returns, arith, has,
}
use net_server_stepby_step.Buffer.{Buffer, IsValid}
use net_server_stepby_step.Channel.{added}
use net_server_stepby_step.TcpConnection.{Conn, connected}
use net_server_stepby_step.TcpServer.{World, handle_close, conn_events, owns, erase_name}
use net_server_stepby_step.Buffer.Bounds.{Appended}
use net_server_stepby_step.TcpServer.{handle_read}
use net_server_stepby_step.TcpServer.Reading.{read_into, handle_read-Delivered}
use net_server_stepby_step.TcpServer.Names.{same_name}
use net_server_stepby_step.TcpServer.Close.{Closed, handle_close-Closed}
use net_server_stepby_step.TcpServer.Lifetime.{conn_events_use_after_free}
use net_server_stepby_step.Tests.Machine.{Machine, machine, machine-OsLaws}

abbrev no_bytes : Buffer
no_bytes = record { bytes = replicate 16 0; read_index = 8; write_index = 8 }

no_bytes-IsValid : IsValid no_bytes
no_bytes-IsValid = record {
  reserved = omega arith;
  ordered = omega arith;
  in_bounds = omega arith;
  small = omega arith;
}

-- Epoll returned EPOLLIN for it.
abbrev conn : Conn
conn = record {
  name = 45 ∷ 49 ∷ [];
  socket = 100;
  channel = record { fd = 5; events = 1; revents = 1; status = added };
  local_addr = 0;
  peer_addr = 0;
  state = connected;
  input = no_bytes;
  output = no_bytes;
}

-- The connection is the object at address 3, and its peer has closed its end.
abbrev world : World Machine
world = record {
  poller = record {
    kernel = record {
      entries = λ fd. if fd == 5 then some 1 else none;
      accepted = λ _. [];
      quota = none;
      incoming = some [];
    };
    capacity = 128;
  };
  conns = λ p. if p == 3 then some conn else none;
  table = (45 ∷ 49 ∷ [], 3) ∷ [];
  next_conn_idx = 2;
  ip_port = [];
  local_addr = 0;
}

abbrev nothing : ℕ → World Machine → Outcome (World Machine)
nothing p w = done w

owned_once : owns (erase_name conn.name world.table) 3 ≡ false
unfolding owns erase_name same_name
owned_once = refl

handle_close-Closed_example :
    Returns (handle_close machine nothing nothing 3 world) (Closed machine world 3 conn)
handle_close-Closed_example =
    handle_close-Closed machine machine-OsLaws nothing nothing (λ p w. refl) world 3 conn refl refl
      refl owned_once

conn_events_use_after_free_example :
    conn_events machine nothing nothing 3 world ≡ failed use_after_free
unfolding has
conn_events_use_after_free_example =
    conn_events_use_after_free machine machine-OsLaws nothing nothing (λ p w. refl) world 3 conn
      refl refl refl owned_once no_bytes-IsValid refl refl refl

-- Three bytes are there to read.
abbrev busy_world : World Machine
busy_world = record world {
  poller = record {
    kernel = record {
      entries = λ fd. if fd == 5 then some 1 else none;
      accepted = λ _. [];
      quota = none;
      incoming = some (1 ∷ 2 ∷ 3 ∷ []);
    };
    capacity = 128;
  };
}

handle_read-Delivered_example :
    (b : Buffer) × Appended no_bytes (1 ∷ 2 ∷ 3 ∷ []) b
    × (handle_read machine nothing nothing 3 busy_world
        ≡ nothing 3 (read_into machine nothing nothing busy_world 3 conn refl b))
handle_read-Delivered_example =
    handle_read-Delivered machine nothing nothing busy_world 3 conn refl 1 (2 ∷ 3 ∷ [])
      no_bytes-IsValid (omega arith) refl
