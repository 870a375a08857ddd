-- ===== src/Earlier/Server.antt =====
-- v1.4/src/TcpConnection.h, v1.4/src/TcpConnection.cpp, v1.4/src/TcpServer.h and
-- v1.4/src/TcpServer.cpp: connections without buffers, owned by the map alone (`unique_ptr`), on the
-- channels of Earlier/Polling. Objects, names and callbacks are as in TcpServer.
pub mod Close
use net_server_stepby_step.Base.{
  ℕ, zero, suc, ◌+◌, List, [], ◌∷◌, Bool, true, false, Option, none, some, ◌==◌, if◌then◌else◌,
  Outcome, done, deref, assert, ◌>>=◌, ◌>>◌,
}
use net_server_stepby_step.Os.{Os}
use net_server_stepby_step.Acceptor.{SocketAnswers, new_sockets}
use net_server_stepby_step.Epoller.{Epoller, put}
use net_server_stepby_step.Channel.Dispatch.{Callbacks}
use net_server_stepby_step.TcpServer.{insert_name, erase_name}
use net_server_stepby_step.TcpServer.Names.{connection_name, next_index}
use net_server_stepby_step.TcpServer.Table.{find_name}
use net_server_stepby_step.Earlier.Polling.{
  Channel, new_channel, enabled_readable, disabled_all_events, handle_events,
}

pub data ConnectState : Type 0 where
  connected : ConnectState
  connecting : ConnectState
  disconnected : ConnectState

abbrev pub is_connecting : ConnectState → Bool
is_connecting connecting = true
is_connecting connected = false
is_connecting disconnected = false

pub record Conn : Type 0 where
  pub name : List ℕ
  pub socket : ℕ
  pub channel : Channel
  pub local_addr : ℕ
  pub peer_addr : ℕ
  pub state : ConnectState

-- The members of a new connection, whose `socket_` has the descriptor `socket`.
unfoldable pub fresh_conn : List ℕ → ℕ → ℕ → ℕ → ℕ → Conn
unfolding new_channel
fresh_conn name clientfd socket local_addr peer_addr = record {
  name = name;
  socket = socket;
  channel = new_channel clientfd;
  local_addr = local_addr;
  peer_addr = peer_addr;
  state = connecting;
}

-- The constructor; `new Sockets()` may fail.
unfoldable pub new_conn : List ℕ → ℕ → SocketAnswers → ℕ → ℕ → Outcome Conn
unfolding fresh_conn new_sockets
new_conn name clientfd made local_addr peer_addr = do
  socket ← new_sockets made.0 made.1
  done (fresh_conn name clientfd socket local_addr peer_addr)

pub record World (K : Type 0) : Type 0 where
  pub poller : Epoller K
  pub conns : ℕ → Option Conn
  pub table : List (List ℕ × ℕ)
  pub next_conn_idx : ℕ
  pub ip_port : List ℕ
  pub local_addr : ℕ

-- The constructor of `TcpServer`; `ip_port` is the port of the address as a string.
unfoldable pub new_server : {K : Type 0} → Epoller K → List ℕ → World K
new_server poller ip_port = record {
  poller = poller;
  conns = λ _. none;
  table = [];
  next_conn_idx = 1;
  ip_port = ip_port;
  local_addr = 0;
}

-- The object that an erased entry of the map owned is destroyed with it.
abbrev pub destroy_owned : Option ℕ → (ℕ → Option Conn) → ℕ → Option Conn
destroy_owned none conns q = conns q
destroy_owned (some p) conns q = if q == p then none else conns q

abbrev pub channel_of : Option Conn → Option Channel
channel_of none = none
channel_of (some c) = some c.channel

module _ (os : Os) (connection_callback : ℕ → World os.Kernel → Outcome (World os.Kernel))
    (message_callback : ℕ → List ℕ → World os.Kernel → Outcome (World os.Kernel)) where
  abbrev Run : Type 0
  Run = World os.Kernel → Outcome (World os.Kernel)

  unfoldable pub connection_established : ℕ → Run
  connection_established p w = do
    c ← deref (w.conns p)
    assert (is_connecting c.state)
    t ← enabled_readable os w.poller c.channel
    let c₁ : Conn = record c { state = connected; channel = t.0 }
    connection_callback p (record w { poller = t.1; conns = put w.conns p c₁ })

  unfoldable pub remove_connection : ℕ → Run
  remove_connection p w = do
    c ← deref (w.conns p)
    done (record w {
      table = erase_name c.name w.table;
      conns = destroy_owned (find_name c.name w.table) w.conns;
    })

  unfoldable pub handle_close : ℕ → Run
  unfolding remove_connection
  handle_close p w = do
    c ← deref (w.conns p)
    t ← disabled_all_events os w.poller c.channel
    let c₁ : Conn = record c { state = disconnected; channel = t.0 }
    w₂ ← connection_callback p (record w { poller = t.1; conns = put w.conns p c₁ })
    remove_connection p w₂

  -- `handleRead`, on what read(2) answered: `none` for an error, and at most 65536 bytes.
  unfoldable pub handle_read : ℕ → Option (List ℕ) → Run
  unfolding handle_close
  handle_read p none w = done w
  handle_read p (some []) w = handle_close p w
  handle_read p (some (x ∷ xs)) w = message_callback p (x ∷ xs) w

  -- The callbacks that the constructor sets; `answer` is what read(2) answers.
  abbrev pub conn_callbacks : ℕ → Option (List ℕ) → Callbacks (World os.Kernel)
  conn_callbacks p answer = record {
    close_event = some (handle_close p);
    read_event = some (handle_read p answer);
    write_event = none;
  }

  -- `Channel::handleEvents` of the connection's channel.
  unfoldable pub conn_events : ℕ → Option (List ℕ) → Run
  unfolding handle_events
  conn_events p answer = handle_events (λ w. channel_of (w.conns p)) (conn_callbacks p answer)

  -- `newConnection`; `p` is the address that `new` gave, `made` the
  -- answers to `new Sockets()`.
  unfoldable pub new_connection : ℕ → ℕ → SocketAnswers → ℕ → Run
  unfolding new_conn next_index connection_established
  new_connection sockfd peer_addr made p w = do
    let name = connection_name w.ip_port w.next_conn_idx
    conn ← new_conn name sockfd made w.local_addr peer_addr
    index ← next_index w.next_conn_idx
    let w₁ = record w { conns = put w.conns p conn; next_conn_idx = index }
    w₂ ← connection_established p w₁
    done (record w₂ { table = insert_name name p w₂.table })
