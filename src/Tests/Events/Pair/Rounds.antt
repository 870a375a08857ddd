-- ===== src/Tests/Events/Pair/Rounds.antt =====
-- A round of the loop over two connections of the discard server.
use net_server_stepby_step.Base.{
  ◌<◌, List, has, subst, sym, ap, ◌∙◌, ℕ, ◌≡◌, refl, [], ◌∷◌, ◌≢◌, false, some, none, done, Returns,
  arith, set_bit, inl, inr, same_or_other, some-injective, done-injective, ne→==, epollin,
}
use net_server_stepby_step.Buffer.{init}
use net_server_stepby_step.Channel.{set_return_events}
use net_server_stepby_step.Epoller.{update_channel, control, adopt}
use net_server_stepby_step.Channel.Update.{enabled_readable, update}
use net_server_stepby_step.TcpConnection.{Conn, establish}
use net_server_stepby_step.TcpServer.{World, new_connection, on_conn, conn_events}
use net_server_stepby_step.TcpServer.Invariant.{Consistent, IsUnused}
use net_server_stepby_step.TcpServer.Events.Keeping.{Keeps, Keeps-trans}
use net_server_stepby_step.TcpServer.Events.Arrivals.{Arrives, read_answer}
use net_server_stepby_step.TcpServer.Events.Dispatch.{
  returned, returned-Consistent, conn_events-Keeps,
}
use net_server_stepby_step.TcpServer.Events.Rounds.{
  Active, of_connection, of_acceptor, Acceptable, store_events, accept_connection, channel_events,
  server_round, Orderly, Lives,
}
use net_server_stepby_step.Acceptor.{accept, sockets_accept}
use net_server_stepby_step.Channel.{added}
use net_server_stepby_step.Channel.Dispatch.{handle_events, run_if}
use net_server_stepby_step.TcpServer.Events.Rounds.Accepting.{acceptor_events-Keeps}
use net_server_stepby_step.TcpServer.Events.Rounds.Running.{server_round-Lives}
use net_server_stepby_step.Apps.{on_connection, discard_message}
use net_server_stepby_step.Apps.Discard.{discard_message-Keeps, on_connection_quiet}
use net_server_stepby_step.Tests.Connections.{flowing, flowing-OsLaws, flows}
use net_server_stepby_step.Tests.Machine.{Machine}
use net_server_stepby_step.TcpServer.Names.{int_max}
use net_server_stepby_step.Tests.Events.{reserved, empty, value_or, one_connection, opened}
use net_server_stepby_step.Tests.Events.Pair.{
  second, two_connections, two_connections-Consistent, first_stored, second_stored,
}

-- EPOLLIN for the first, and EPOLLOUT for the second.
abbrev first_active : World Machine
first_active = returned flowing reserved two_connections 7 opened 5

abbrev both_active : World Machine
both_active = returned flowing reserved first_active 8 second 4

-- The acceptor gets descriptor 9, for the object at address 9.
abbrev acceptor_active : Active
acceptor_active =
    of_acceptor (record { fd = 3; events = 1; revents = 1; status = added }) (some 9) 0
      (some 102, some 0) 9

abbrev active_channels : List Active
active_channels = acceptor_active ∷ of_connection 7 5 ∷ of_connection 8 4 ∷ []

store_events_lem : store_events active_channels two_connections ≡ done both_active
unfolding store_events
store_events_lem = rw first_stored (rw second_stored refl)

abbrev active_opened : Conn
active_opened = record opened { channel = set_return_events opened.channel 5 }

abbrev active_second : Conn
active_second = record second { channel = set_return_events second.channel 4 }

both_active-Consistent : Consistent flowing reserved both_active
both_active-Consistent =
    returned-Consistent flowing reserved first_active 8 second 4
      (returned-Consistent flowing reserved two_connections 7 opened 5 two_connections-Consistent
        first_stored)
      second_stored

-- No other object.
only_two : (q : ℕ) → q ≢ 7 → q ≢ 8 → both_active.conns q ≡ none
unfolding new_connection on_conn establish enabled_readable update update_channel control adopt
    on_connection one_connection two_connections set_bit empty
only_two q n m = let e = ne→== q 7 n in let f = ne→== q 8 m in simp (e, f)

IsUnused-nine : IsUnused flowing reserved both_active 9
IsUnused-nine q c e f = elim (same_or_other q 7) [
  | inl here ↦
      let same : active_opened ≡ c = some-injective (sym (ap both_active.conns here) ∙ e) in
      let no : 5 ≡ 9 = ap (λ (c : Conn). c.channel.fd) same ∙ f in omega (arith, no)
  | inr n ↦ elim (same_or_other q 8) [
    | inl here ↦
        let same : active_second ≡ c = some-injective (sym (ap both_active.conns here) ∙ e) in
        let no : 6 ≡ 9 = ap (λ (c : Conn). c.channel.fd) same ∙ f in omega (arith, no)
    | inr m ↦ let gone = sym (only_two q n m) ∙ e in cc
  ]
]

abbrev accepted : World Machine
unfolding channel_events
accepted = value_or both_active (
    channel_events flowing (on_connection flowing) (discard_message flowing) (λ w. w)
      acceptor_active both_active)

accepted_lem :
    channel_events flowing
      (on_connection flowing)
      (discard_message flowing)
      (λ w. w)
      acceptor_active
      both_active
    ≡ done accepted
unfolding channel_events accept_connection accept sockets_accept handle_events run_if has
    new_connection on_conn establish enabled_readable update update_channel control adopt
    on_connection one_connection two_connections set_bit empty accepted
accepted_lem = refl

nine_index : both_active.next_conn_idx < int_max
unfolding new_connection on_conn establish enabled_readable update update_channel control adopt
    on_connection one_connection two_connections set_bit empty
nine_index = omega arith

nine-Acceptable :
    Acceptable flowing
      (on_connection flowing)
      (discard_message flowing)
      (λ w. w)
      reserved
      both_active
      9
      (some 102, some 0)
      9
nine-Acceptable = (
  refl,
  refl,
  IsUnused-nine,
  only_two 9 (λ e. omega (arith, e)) (λ e. omega (arith, e)),
  nine_index,
  (102, 0, refl),
)

accepted-Keeps : Keeps flowing reserved both_active accepted
accepted-Keeps =
    subst (λ o. Returns o (Keeps flowing reserved both_active)) accepted_lem
      (acceptor_events-Keeps flowing flowing-OsLaws reserved (on_connection flowing)
        (discard_message flowing) (λ w. w) (on_connection_quiet flowing flowing-OsLaws reserved)
        both_active both_active-Consistent
        (record { fd = 3; events = 1; revents = 1; status = added }) (some 9) 0 (some 102, some 0) 9
        (λ on. (8, refl, nine-Acceptable)))

accepted_stored : accepted.conns 7 ≡ some active_opened
unfolding channel_events accept_connection accept sockets_accept handle_events run_if has
    new_connection on_conn establish enabled_readable update update_channel control adopt
    on_connection one_connection two_connections set_bit empty accepted
accepted_stored = refl

accepted_incoming : accepted.poller.kernel.incoming ≡ some (1 ∷ 2 ∷ [])
unfolding channel_events accept_connection accept sockets_accept handle_events run_if has
    new_connection on_conn establish enabled_readable update update_channel control adopt
    on_connection one_connection two_connections set_bit empty accepted
accepted_incoming = refl

arrives : Arrives active_opened.input (read_answer flowing accepted active_opened)
unfolding init
arrives = subst (Arrives active_opened.input) (sym accepted_incoming) (omega arith)

-- The second connection has nothing to read, also after the first has read.
second_idle :
    (w : World Machine) (c : Conn)
    → Keeps flowing reserved both_active w
    → w.conns 8 ≡ some c
    → has c.channel.revents epollin ≡ false
unfolding has
second_idle w c k e =
    let (d, f, r) = k.alive 8 active_second refl in
    let same = some-injective (sym f ∙ e) in
    ap (λ (c : Conn). has c.channel.revents epollin) (sym same) ∙ ap (λ m. has m epollin) r

first_handled :
    Returns
      (conn_events flowing (on_connection flowing) (discard_message flowing) 7 accepted)
      (Keeps flowing reserved accepted)
unfolding has
first_handled =
    conn_events-Keeps flowing flowing-OsLaws reserved (on_connection flowing)
      (discard_message flowing) (discard_message-Keeps flowing flowing-OsLaws reserved) flows 7
      accepted active_opened accepted-Keeps.consistent accepted_stored refl λ inn. arrives

rest-Orderly :
    Orderly flowing
      (on_connection flowing)
      (discard_message flowing)
      (λ w. w)
      reserved
      (of_connection 7 5 ∷ of_connection 8 4 ∷ [])
      accepted
unfolding Orderly channel_events
rest-Orderly = (
  λ c e inn.
      subst (λ c. Arrives c.input (read_answer flowing accepted c))
        (some-injective (sym accepted_stored ∙ e)) arrives,
  λ w₁ h. (
    λ c e inn.
        let k = subst (λ o. Returns o (Keeps flowing reserved accepted)) h first_handled in
        let no =
          sym (
            second_idle w₁ c (Keeps-trans flowing reserved both_active accepted w₁ accepted-Keeps k)
              e)
          ∙ inn in
        absurd cc,
    λ w₂ g. tt,
  ),
)

active-Orderly :
    Orderly flowing
      (on_connection flowing)
      (discard_message flowing)
      (λ w. w)
      reserved
      active_channels
      both_active
unfolding Orderly
active-Orderly = (
  λ on. (8, refl, nine-Acceptable),
  λ w₁ h.
      subst
        (Orderly flowing (on_connection flowing) (discard_message flowing) (λ w. w) reserved
          (of_connection 7 5 ∷ of_connection 8 4 ∷ []))
        (done-injective (sym accepted_lem ∙ h)) rest-Orderly,
)

server_round-Lives_example :
    Returns
      (server_round flowing
        (on_connection flowing)
        (discard_message flowing)
        (λ w. w)
        active_channels
        two_connections)
      (λ w'. Consistent flowing reserved w' × Lives two_connections w')
unfolding has
server_round-Lives_example =
    server_round-Lives flowing flowing-OsLaws reserved (on_connection flowing)
      (discard_message flowing) (λ w. w) (on_connection_quiet flowing flowing-OsLaws reserved)
      (discard_message-Keeps flowing flowing-OsLaws reserved) flows active_channels two_connections
      two_connections-Consistent ((opened, first_stored), refl, ((second, second_stored), refl, tt))
      λ w₁ h.
        subst
          (Orderly flowing (on_connection flowing) (discard_message flowing) (λ w. w) reserved
            active_channels)
          (done-injective (sym store_events_lem ∙ h)) active-Orderly
