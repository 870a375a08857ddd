-- ===== src/Tests/Stages.antt =====
-- Runs of the earlier stages.
use net_server_stepby_step.Base.{
  ◌≢◌, ℕ, ◌≡◌, refl, List, [], ◌∷◌, ◌++◌, true, none, some, ◌==◌, if◌then◌else◌, has, done, failed,
  use_after_free, Returns, All, arith,
}
use net_server_stepby_step.Earlier.Echo.{set_at, Server, Answers, main}
use net_server_stepby_step.Earlier.Echo.Replies.{Safely, echoed}
use net_server_stepby_step.Earlier.Echo.Serving.{flat, main-echoed}
use net_server_stepby_step.Earlier.EchoPoll.{EchoPoller, loop, poll}
use net_server_stepby_step.Earlier.EchoPoll.Looping.{loop-echoed}
use net_server_stepby_step.TcpServer.Names.{same_name}
use net_server_stepby_step.Earlier.Server.{
  Conn as OldConn, World as OldWorld, connected, conn_events,
}
use net_server_stepby_step.Earlier.Server.Close.{Closed, conn_events-Closed, conn_events_hangup}
use net_server_stepby_step.Earlier.ChannelMap.{
  MapPoller, replies, register_fd, new_map_poller, round,
}
use net_server_stepby_step.Earlier.ChannelMap.Agreement.{
  Related, Registered, Agrees, register_fd-Steps,
}
use net_server_stepby_step.Earlier.ChannelMap.Rounds.{
  with_answers, new_map_poller-Registered, round-Agrees,
}
use net_server_stepby_step.Tests.Machine.{Machine, machine, machine-OsLaws}

-- Two clients, 5 and 6; the listening socket is 3.
abbrev server : Server
server = record {
  is_open = λ fd. true;
  watched = λ fd. true;
  non_blocking = λ fd. true;
  sent = λ _. [];
  connect_sock = some 6;
}

abbrev data_for : List ℕ → Answers
data_for xs = record { accepted = none; received = some xs; taken = 10 }

abbrev events : List ((ℕ × ℕ) × Answers)
events =
    ((5, 1), data_for (1 ∷ 2 ∷ []))
    ∷ ((6, 1), data_for [])
    ∷ ((3, 1), record { accepted = some 7; received = none; taken = 0 })
    ∷ []

-- A connection that gets 5 comes, and in the next round two bytes of it.
abbrev rounds : List (List ((ℕ × ℕ) × Answers))
rounds =
    (((3, 1), record { accepted = some 5; received = none; taken = 0 }) ∷ [])
    ∷ (((5, 1), data_for (1 ∷ 2 ∷ [])) ∷ [])
    ∷ []

main_test : echoed 3 5 (flat rounds) ≡ 1 ∷ 2 ∷ []
unfolding has
main_test = refl

main-echoed_example :
    Safely
      (main (some 3) (some 0) (some 0) (some 4) rounds)
      (λ s. (j : ℕ) → s.sent j ≡ echoed 3 j (flat rounds))
main-echoed_example = main-echoed 3 (some 0) (some 0) (some 4) rounds refl

-- A connection of v1.4 at address 3, with the events that epoll returned.
abbrev old_conn : ℕ → OldConn
old_conn revents = record {
  name = 45 ∷ 49 ∷ [];
  socket = 100;
  channel = record { fd = 5; events = 1; revents = revents; polling = true };
  local_addr = 0;
  peer_addr = 0;
  state = connected;
}

abbrev old_world : ℕ → OldWorld Machine
old_world revents = record {
  poller = record {
    kernel = record {
      entries = λ fd. if fd == 5 then some 1 else none;
      accepted = λ _. [];
      quota = none;
      incoming = none;
    };
    capacity = 128;
  };
  conns = λ p. if p == 3 then some (old_conn revents) else none;
  table = (45 ∷ 49 ∷ [], 3) ∷ [];
  next_conn_idx = 2;
  ip_port = [];
  local_addr = 0;
}

conn_events-Closed_example :
    Returns
      (conn_events machine (λ p w. done w) (λ p xs w. done w) 3 (some []) (old_world 1))
      (Closed machine (old_world 1) 3 (old_conn 1))
unfolding has same_name
conn_events-Closed_example =
    conn_events-Closed machine machine-OsLaws (λ p w. done w) (λ p xs w. done w) (λ p w. refl)
      (old_world 1) 3 (old_conn 1) refl refl refl 1 refl refl refl

conn_events_hangup_example :
    conn_events machine (λ p w. done w) (λ p xs w. done w) 3 (some []) (old_world 17)
    ≡ failed use_after_free
unfolding has same_name
conn_events_hangup_example =
    conn_events_hangup machine machine-OsLaws (λ p w. done w) (λ p xs w. done w) (λ p w. refl)
      (old_world 17) 3 (old_conn 17) refl refl refl 1 refl (some []) refl

abbrev echo_poller : EchoPoller
echo_poller = record { is_open = λ fd. true; watched = λ fd. true; sent = λ _. [] }

loop-echoed_example : Safely (loop 3 (events ∷ rounds) echo_poller) (λ s.
    ((j : ℕ) → s.sent j ≡ [] ++ echoed 3 j (flat (events ∷ rounds)))
    × ((j : ℕ) → All (λ e. j ≢ e.0.0) (flat (events ∷ rounds)) → true ≡ true → s.is_open j ≡ true))
loop-echoed_example = loop-echoed 3 (events ∷ rounds) echo_poller

-- The map of v1.2 with the listening socket 3 and a client on 5; a byte of the client comes with
-- another connection, which gets 7.
abbrev map_poller : MapPoller
map_poller =
    let s = new_map_poller 3 in
    register_fd 5 (replies 5)
      (record s { core = record (s.core) { is_open = set_at s.core.is_open 5 true } })

map_poller-Registered : Registered 3 map_poller
map_poller-Registered =
    (register_fd-Steps 3 3 5 (new_map_poller 3) (new_map_poller-Registered 3)).0.1

abbrev answers : ℕ → Answers
answers fd = record { accepted = some 7; received = some (9 ∷ []); taken = 10 }

round-Agrees_example :
    Related
      (Agrees 3)
      (round answers ((5, 1) ∷ (3, 1) ∷ []) map_poller)
      (poll 3 (with_answers answers ((5, 1) ∷ (3, 1) ∷ [])) map_poller.core)
unfolding has new_map_poller
round-Agrees_example =
    round-Agrees 3 answers ((5, 1) ∷ (3, 1) ∷ []) map_poller map_poller-Registered
      (((λ e. omega (arith, e)), tt), (tt, tt)) (refl, (refl, tt)) ((λ e. refl), ((λ e. refl), tt))
