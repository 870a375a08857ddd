-- ===== src/Tests/Events/Pair.antt =====
-- A discard server with two connections.
mod Rounds
use net_server_stepby_step.Base.{
  ◌<◌, List, has, subst, sym, ap, ◌∙◌, ℕ, ◌≡◌, refl, [], ◌∷◌, ◌≢◌, false, some, none, done, Returns,
  arith, set_bit, inl, inr, same_or_other, some-injective, done-injective, ne→==, epollin,
}
use net_server_stepby_step.Buffer.{init}
use net_server_stepby_step.Channel.{set_return_events}
use net_server_stepby_step.Epoller.{update_channel, control, adopt}
use net_server_stepby_step.Channel.Update.{enabled_readable, update}
use net_server_stepby_step.TcpConnection.{Conn, establish}
use net_server_stepby_step.TcpServer.{World, new_connection, on_conn, conn_events}
use net_server_stepby_step.TcpServer.Invariant.{Consistent, IsUnused}
use net_server_stepby_step.TcpServer.Events.Keeping.{Keeps, Keeps-trans}
use net_server_stepby_step.TcpServer.Events.Arrivals.{Arrives, read_answer}
use net_server_stepby_step.TcpServer.Events.Dispatch.{
  returned, returned-Consistent, conn_events-Keeps,
}
use net_server_stepby_step.TcpServer.Events.Rounds.{
  Active, of_acceptor, accept_connection, server_round,
}
use net_server_stepby_step.TcpServer.Events.Reach.{
  polling, step, Reaches, then_event, Reaches-Consistent,
}
use net_server_stepby_step.Acceptor.{accept, sockets_accept}
use net_server_stepby_step.Channel.{added}
use net_server_stepby_step.Channel.Dispatch.{handle_events, run_if}
use net_server_stepby_step.TcpServer.Events.Rounds.Accepting.{acceptor_events-Keeps}
use net_server_stepby_step.TcpServer.Events.Rounds.Running.{server_round-Lives}
use net_server_stepby_step.Apps.{on_connection, discard_message}
use net_server_stepby_step.Apps.Discard.{
  discard_message-Consistent, discard_message-Keeps, on_connection_quiet,
}
use net_server_stepby_step.Tests.Connections.{flowing, flowing-OsLaws, flows}
use net_server_stepby_step.Tests.Machine.{Machine}
use net_server_stepby_step.TcpServer.Names.{connection_name, int_max}
use net_server_stepby_step.Tests.Events.{
  reserved, empty, acceptor_channel, accepting-Enabled, accepts-Reaches, empty-Consistent, value_or,
  one_connection, opened, opened_lem,
}

-- The object at address 8 gets descriptor 6.
abbrev pub accepts_second : Active
accepts_second = of_acceptor acceptor_channel (some 6) 0 (some 101, some 0) 8

abbrev pub two_connections : World Machine
unfolding new_connection
two_connections = value_or one_connection (
    new_connection flowing (on_connection flowing) (discard_message flowing) 6 0 (some 101, some 0)
      8 one_connection)

abbrev pub second : Conn
second = record opened {
  name = 56 ∷ 45 ∷ 50 ∷ [];
  socket = 101;
  channel = record (opened.channel) { fd = 6 };
}

second_lem :
    step flowing reserved
      (on_connection flowing)
      (discard_message flowing)
      (λ w. w)
      (polling (accepts_second ∷ []))
      one_connection
    ≡ done two_connections
unfolding step server_round accept_connection accept sockets_accept handle_events run_if has
    new_connection on_conn establish enabled_readable update update_channel control adopt
    on_connection one_connection two_connections set_bit empty
second_lem = refl

only_seven : (q : ℕ) → q ≢ 7 → one_connection.conns q ≡ none
unfolding new_connection on_conn establish enabled_readable update update_channel control adopt
    on_connection one_connection set_bit empty
only_seven q n = let e = ne→== q 7 n in simp e

IsUnused-six : IsUnused flowing reserved one_connection 6
IsUnused-six q c e f = elim (same_or_other q 7) [
  | inl here ↦
      let same = some-injective (sym opened_lem ∙ ap one_connection.conns (sym here) ∙ e) in
      let five : 5 ≡ 6 = ap (λ (c : Conn). c.channel.fd) same ∙ f in omega (arith, five)
  | inr other ↦ let gone = sym (only_seven q other) ∙ e in cc
]

two_index : one_connection.next_conn_idx < int_max
unfolding new_connection on_conn establish enabled_readable update update_channel control adopt
    on_connection one_connection set_bit empty
two_index = omega arith

two_connections-Reaches :
    Reaches flowing reserved
      (on_connection flowing)
      (discard_message flowing)
      (λ w. w)
      empty
      two_connections
two_connections-Reaches =
    then_event accepts-Reaches (polling (accepts_second ∷ []))
      (accepting-Enabled one_connection 5 0 (some 101, some 0) 8
        (refl, refl, IsUnused-six, only_seven 8 (λ e. omega (arith, e)), two_index, (101, 0, refl)))
      second_lem

pub two_connections-Consistent : Consistent flowing reserved two_connections
two_connections-Consistent =
    Reaches-Consistent flowing flowing-OsLaws reserved (on_connection flowing)
      (discard_message flowing) (λ w. w) (on_connection_quiet flowing flowing-OsLaws reserved)
      (discard_message-Keeps flowing flowing-OsLaws reserved) flows empty two_connections
      empty-Consistent two_connections-Reaches

pub first_stored : two_connections.conns 7 ≡ some opened
unfolding new_connection on_conn establish enabled_readable update update_channel control adopt
    on_connection one_connection two_connections set_bit empty connection_name
first_stored = refl

pub second_stored : two_connections.conns 8 ≡ some second
unfolding new_connection on_conn establish enabled_readable update update_channel control adopt
    on_connection one_connection two_connections set_bit empty connection_name
second_stored = refl
