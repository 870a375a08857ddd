-- ===== src/Tests/Events.antt =====
-- Runs of a server that starts with no connection, accepts one and reads from it.
mod Pair
use net_server_stepby_step.Base.{
  suc, has, ◌∙◌, done-injective, some-injective, subst, sym, ℕ, ◌≡◌, refl, [], ◌∷◌, Bool, none,
  some, ◌==◌, Outcome, done, failed, Returns, arith, set_bit,
}
use net_server_stepby_step.Buffer.{init, init_size}
use net_server_stepby_step.Channel.{Channel, added}
use net_server_stepby_step.Epoller.{Epoller, update_channel, control, adopt}
use net_server_stepby_step.Channel.Update.{enabled_readable, update}
use net_server_stepby_step.TcpConnection.{Conn, connected, establish, shutdown}
use net_server_stepby_step.TcpServer.{World, link, new_server, new_connection, on_conn, handle_read}
use net_server_stepby_step.TcpServer.Invariant.{Consistent}
use net_server_stepby_step.TcpServer.Events.Dispatch.{returned}
use net_server_stepby_step.TcpServer.Events.Rounds.{
  Active, of_connection, of_acceptor, store_events, accept_connection, server_round, Acceptable,
  Orderly,
}
use net_server_stepby_step.TcpServer.Events.Reach.{
  Event, polling, step, Enabled, Reaches, start, then_event, Reaches-step, Reaches-shutdown,
  Reaches-Consistent, new_server-Consistent,
}
use net_server_stepby_step.Acceptor.{SocketAnswers, accept, sockets_accept}
use net_server_stepby_step.Channel.Dispatch.{handle_events, run_if}
use net_server_stepby_step.Apps.{on_connection, discard_message, echo_message, day_time_connection}
use net_server_stepby_step.Apps.Discard.{
  discard_message-Consistent, discard_message-Keeps, discard_server-Reaches, on_connection_quiet,
}
use net_server_stepby_step.Apps.Echo.{Echoed, handle_read-Echoed}
use net_server_stepby_step.Apps.DayTime.{Told, day_time_connection-Told}
use net_server_stepby_step.TcpServer.Names.{connection_name}
use net_server_stepby_step.Channel.{set_return_events}
use net_server_stepby_step.TcpServer.{conn_events}
use net_server_stepby_step.TcpServer.Events.Arrivals.{
  Arrives, Fits, read_answer, handle_read-Consistent,
}
use net_server_stepby_step.Tests.Connections.{flowing, flowing-OsLaws, flows}
use net_server_stepby_step.Tests.Machine.{Machine}

-- The acceptor's descriptor is 3.
abbrev reserved : ℕ → Bool
reserved fd = fd == 3

abbrev poller : Epoller Machine
poller = record {
  kernel = record {
    entries = λ _. none;
    accepted = λ _. [];
    quota = some 2;
    incoming = some (1 ∷ 2 ∷ []);
  };
  capacity = 128;
}

abbrev pub empty : World Machine
unfolding new_server
empty = new_server poller (56 ∷ [])

-- The acceptor's channel with EPOLLIN; the object at address 7 gets descriptor 5.
abbrev pub acceptor_channel : Channel
acceptor_channel = record { fd = 3; events = 1; revents = 1; status = added }

abbrev pub accepts : Active
accepts = of_acceptor acceptor_channel (some 5) 0 (some 100, some 0) 7

abbrev pub value_or : {A : Type 0} → A → Outcome A → A
value_or a (done b) = b
value_or a (failed e) = a

abbrev pub one_connection : World Machine
unfolding new_connection
one_connection = value_or empty (
    new_connection flowing (on_connection flowing) (discard_message flowing) 5 0 (some 100, some 0)
      7 empty)

abbrev pub opened : Conn
opened = record {
  name = 56 ∷ 45 ∷ 49 ∷ [];
  socket = 100;
  channel = record { fd = 5; events = 1; revents = 0; status = added };
  local_addr = 0;
  peer_addr = 0;
  state = connected;
  input = init init_size;
  output = init init_size;
}

-- Nothing but a connection that can be accepted.
pub accepting-Enabled :
    (w : World Machine) (n peer : ℕ) (made : SocketAnswers) (p : ℕ)
    → Acceptable flowing
        (on_connection flowing)
        (discard_message flowing)
        (λ w. w)
        reserved
        w
        (suc n)
        made
        p
    → Enabled flowing reserved
        (on_connection flowing)
        (discard_message flowing)
        (λ w. w)
        w
        (polling (of_acceptor acceptor_channel (some (suc n)) peer made p ∷ []))
unfolding store_events Orderly
accepting-Enabled w n peer made p a = (
  tt,
  λ w₁ h.
      subst
        (Orderly flowing (on_connection flowing) (discard_message flowing) (λ w. w) reserved
          (of_acceptor acceptor_channel (some (suc n)) peer made p ∷ []))
        (done-injective h) (λ on. (n, refl, a), λ w₂ k. tt),
)

accepts_lem :
    step flowing reserved
      (on_connection flowing)
      (discard_message flowing)
      (λ w. w)
      (polling (accepts ∷ []))
      empty
    ≡ done one_connection
unfolding step server_round accept_connection accept sockets_accept handle_events run_if has
    new_connection on_conn establish enabled_readable update update_channel control adopt
    on_connection one_connection set_bit empty
accepts_lem = refl

pub accepts-Reaches :
    Reaches flowing reserved
      (on_connection flowing)
      (discard_message flowing)
      (λ w. w)
      empty
      one_connection
unfolding empty
accepts-Reaches =
    then_event start (polling (accepts ∷ []))
      (accepting-Enabled empty 4 0 (some 100, some 0) 7
        (refl, refl, λ q c e. absurd cc, refl, omega arith, (100, 0, refl)))
      accepts_lem

-- The same, with the world that the constructor leaves written out.
new_server-Reaches :
    Reaches flowing reserved
      (on_connection flowing)
      (discard_message flowing)
      (λ w. w)
      (new_server poller (56 ∷ []))
      one_connection
unfolding empty
new_server-Reaches = accepts-Reaches

pub opened_lem : one_connection.conns 7 ≡ some opened
unfolding new_connection on_conn establish enabled_readable update update_channel control adopt
    on_connection one_connection set_bit empty connection_name
opened_lem = refl

pub empty-Consistent : Consistent flowing reserved empty
unfolding empty
empty-Consistent =
    new_server-Consistent flowing reserved (on_connection flowing) (discard_message flowing)
      (λ w. w) poller (56 ∷ []) (λ fd r. refl)

one_connection-Consistent : Consistent flowing reserved one_connection
one_connection-Consistent =
    Reaches-Consistent flowing flowing-OsLaws reserved (on_connection flowing)
      (discard_message flowing) (λ w. w) (on_connection_quiet flowing flowing-OsLaws reserved)
      (discard_message-Keeps flowing flowing-OsLaws reserved) flows empty one_connection
      empty-Consistent accepts-Reaches

incoming_lem : one_connection.poller.kernel.incoming ≡ some (1 ∷ 2 ∷ [])
unfolding new_connection on_conn establish enabled_readable update update_channel control adopt
    on_connection one_connection set_bit empty connection_name
incoming_lem = refl

-- Two bytes have come.
abbrev reads : Event
reads = polling (of_connection 7 1 ∷ [])

reads-Enabled :
    Enabled flowing reserved
      (on_connection flowing)
      (discard_message flowing)
      (λ w. w)
      one_connection
      reads
unfolding store_events Orderly init has
reads-Enabled = (
  ((opened, opened_lem), refl, tt),
  λ w₁ h.
      subst
        (Orderly flowing (on_connection flowing) (discard_message flowing) (λ w. w) reserved
          (of_connection 7 1 ∷ []))
        (done-injective (sym stores ∙ h))
        (
          λ c e on.
              subst (λ c. Arrives c.input (read_answer flowing active c)) (some-injective e)
                arrives,
          λ w₂ k. tt,
        ),
)
  where
    active : World Machine
    active = returned flowing reserved one_connection 7 opened 1

    stores : store_events (of_connection 7 1 ∷ []) one_connection ≡ done active
    stores = rw opened_lem refl

    arrives : Arrives opened.input (
        read_answer flowing active (record opened { channel = set_return_events opened.channel 1 }))
    arrives = subst (Arrives opened.input) (sym incoming_lem) (omega arith)

Reaches-step_example :
    Consistent flowing reserved one_connection
    × Returns
        (step flowing reserved
          (on_connection flowing)
          (discard_message flowing)
          (λ w. w)
          reads
          one_connection)
        (Reaches flowing reserved
          (on_connection flowing)
          (discard_message flowing)
          (λ w. w)
          (new_server poller (56 ∷ [])))
Reaches-step_example =
    Reaches-step flowing flowing-OsLaws reserved (on_connection flowing) (discard_message flowing)
      (λ w. w) (on_connection_quiet flowing flowing-OsLaws reserved)
      (discard_message-Keeps flowing flowing-OsLaws reserved) flows poller (56 ∷ []) one_connection
      reads (λ fd r. refl) new_server-Reaches reads-Enabled

Reaches-shutdown_example :
    shutdown flowing (link one_connection opened) ≡ done (link one_connection opened)
Reaches-shutdown_example =
    Reaches-shutdown flowing flowing-OsLaws reserved (on_connection flowing)
      (discard_message flowing) (λ w. w) (on_connection_quiet flowing flowing-OsLaws reserved)
      (discard_message-Keeps flowing flowing-OsLaws reserved) flows poller (56 ∷ []) one_connection
      7 opened (λ fd r. refl) new_server-Reaches opened_lem

discard_server-Reaches_example :
    Consistent flowing reserved one_connection
    × Returns
        (step flowing reserved
          (on_connection flowing)
          (discard_message flowing)
          (λ w. w)
          reads
          one_connection)
        (Reaches flowing reserved
          (on_connection flowing)
          (discard_message flowing)
          (λ w. w)
          (new_server poller (56 ∷ [])))
discard_server-Reaches_example =
    discard_server-Reaches flowing flowing-OsLaws reserved (λ w. w) flows poller (56 ∷ [])
      one_connection reads (λ fd r. refl) new_server-Reaches reads-Enabled

handle_read-Consistent_example :
    Returns
      (handle_read flowing (on_connection flowing) (discard_message flowing) 7 one_connection)
      (Consistent flowing reserved)
unfolding init
handle_read-Consistent_example =
    handle_read-Consistent flowing flowing-OsLaws reserved (on_connection flowing)
      (discard_message flowing) (on_connection_quiet flowing flowing-OsLaws reserved)
      (discard_message-Consistent flowing flowing-OsLaws reserved) one_connection 7 opened
      one_connection-Consistent opened_lem
      (subst (Fits opened.input) (sym incoming_lem) (omega arith))

handle_read-Echoed_example :
    Returns
      (handle_read flowing (on_connection flowing) (echo_message flowing) 7 one_connection)
      (Echoed flowing reserved one_connection 7 opened (1 ∷ 2 ∷ []))
unfolding init
handle_read-Echoed_example =
    handle_read-Echoed flowing flowing-OsLaws reserved one_connection 7 opened
      one_connection-Consistent opened_lem 1 (2 ∷ []) incoming_lem (omega arith) (omega arith)

day_time_connection-Told_example :
    Returns
      (day_time_connection flowing (49 ∷ 50 ∷ []) 7 one_connection)
      (Told flowing one_connection 7 opened (49 ∷ 50 ∷ []))
unfolding init
day_time_connection-Told_example =
    day_time_connection-Told flowing flowing-OsLaws (49 ∷ 50 ∷ []) one_connection 7 opened
      opened_lem (one_connection-Consistent.healthy 7 opened opened_lem).watched refl (omega arith)
