-- ===== src/TcpServer.antt =====
-- v1.7/src/TcpServer.h, v1.7/src/TcpServer.cpp, with the handlers of v1.7/src/TcpConnection.cpp
-- that run callbacks. A `World` is the server, the connection objects by address, and the poller.
-- An object lives as long as a `shared_ptr` to it: the one in `tcpConnections_`, or a local one of
-- the code; the user's callbacks, which are parameters, are taken to keep none.
pub mod Names
pub mod Table
pub mod Close
pub mod Reading
pub mod Open
pub mod Invariant
pub mod Events
pub mod Lifetime
use net_server_stepby_step.Base.{
  ℕ, zero, suc, ◌+◌, List, [], ◌∷◌, ◌++◌, Bool, true, false, ◌&&◌, Option, none, some, ◌==◌,
  if◌then◌else◌, Outcome, done, deref, ◌>>=◌, ◌>>◌,
}
use net_server_stepby_step.Os.{Os}
use net_server_stepby_step.Acceptor.{SocketAnswers}
use net_server_stepby_step.Epoller.{Epoller, put}
use net_server_stepby_step.Channel.{Channel}
use net_server_stepby_step.Channel.Update.{remove}
use net_server_stepby_step.Channel.Dispatch.{Callbacks, handle_events}
use net_server_stepby_step.TcpConnection.{
  Conn, Link, new_conn, is_connected, on_channel, establish, take_down, receive, send, shutdown,
  handle_write,
}
use Names.{same_name, connection_name, next_index}

-- `next_conn_idx` is an `int`: `next_index` moves it on. `localAddr_` is set by no constructor: it is the default address, with port 0.
pub record World (K : Type 0) : Type 0 where
  pub poller : Epoller K
  pub conns : ℕ → Option Conn
  pub table : List (List ℕ × ℕ)
  pub next_conn_idx : ℕ
  pub ip_port : List ℕ
  pub local_addr : ℕ

-- `std::map`: `tcpConnections_[name] = p` and `tcpConnections_.erase(name)`.
unfoldable pub insert_name : List ℕ → ℕ → List (List ℕ × ℕ) → List (List ℕ × ℕ)
insert_name n p [] = (n, p) ∷ []
insert_name n p ((m, q) ∷ t) = if same_name m n then (n, p) ∷ t else (m, q) ∷ insert_name n p t

unfoldable pub erase_name : List ℕ → List (List ℕ × ℕ) → List (List ℕ × ℕ)
erase_name n [] = []
erase_name n ((m, q) ∷ t) = if same_name m n then t else (m, q) ∷ erase_name n t

-- Whether the map owns the object.
unfoldable pub owns : List (List ℕ × ℕ) → ℕ → Bool
owns [] p = false
owns ((m, q) ∷ t) p = if q == p then true else owns t p

abbrev pub destroy : (ℕ → Option Conn) → ℕ → ℕ → Option Conn
destroy conns p q = if q == p then none else conns q

-- The constructor; `ip_port` is the port of the address as a string.
unfoldable pub new_server : {K : Type 0} → Epoller K → List ℕ → World K
new_server poller ip_port = record {
  poller = poller;
  conns = λ _. none;
  table = [];
  next_conn_idx = 1;
  ip_port = ip_port;
  local_addr = 0;
}

-- The connection at `p` with the poller, and a change of it written back.
abbrev pub link : {K : Type 0} → World K → Conn → Link K
link w c = record { conn = c; poller = w.poller }

abbrev pub set_link : {K : Type 0} → World K → ℕ → Link K → World K
set_link w p l = record w { poller = l.poller; conns = put w.conns p l.conn }

unfoldable pub on_conn :
    {K : Type 0} → ℕ → (Link K → Outcome (Link K)) → World K → Outcome (World K)
on_conn p f w = do c ← deref (w.conns p); l ← f (link w c); done (set_link w p l)

-- The last local `shared_ptr` to an object goes away.
unfoldable pub release : {K : Type 0} → ℕ → World K → World K
release p w = if owns w.table p then w else record w { conns = destroy w.conns p }

abbrev pub channel_of : Option Conn → Option Channel
channel_of none = none
channel_of (some c) = some c.channel

-- The channel of the connection object at `p`.
abbrev pub conn_channel : {K : Type 0} → ℕ → World K → Option Channel
conn_channel p w = channel_of (w.conns p)

module _ (os : Os)
    (connection_callback message_callback : ℕ → World os.Kernel → Outcome (World os.Kernel)) where
  abbrev Run : Type 0
  Run = World os.Kernel → Outcome (World os.Kernel)

  unfoldable pub connection_established : ℕ → Run
  connection_established p w = do w₁ ← on_conn p (establish os) w; connection_callback p w₁

  unfoldable pub connection_destroy : ℕ → Run
  connection_destroy p w = do
    c ← deref (w.conns p)
    w₁ ←
        if is_connected c.state
        then (do w₂ ← on_conn p (take_down os) w; connection_callback p w₂)
        else done w
    on_conn p (on_channel os (remove os)) w₁

  unfoldable pub remove_connection : ℕ → Run
  unfolding connection_destroy erase_name
  remove_connection p w = do
    c ← deref (w.conns p)
    connection_destroy p (record w { table = erase_name c.name w.table })

  -- `handleClose`; the `shared_ptr` that the close callback was given goes away behind it.
  unfoldable pub handle_close : ℕ → Run
  unfolding remove_connection
  handle_close p w = do
    w₁ ← on_conn p (take_down os) w
    w₂ ← connection_callback p w₁
    w₃ ← remove_connection p w₂
    done (release p w₃)

  -- The test of what `readFd` returned.
  unfoldable pub after_read : ℕ → Option ℕ → Run
  unfolding handle_close
  after_read p none w = done w
  after_read p (some zero) w = handle_close p w
  after_read p (some (suc n)) w = message_callback p w

  unfoldable pub handle_read : ℕ → Run
  unfolding after_read
  handle_read p w = do
    c ← deref (w.conns p)
    t ← receive os (link w c)
    after_read p t.0 (set_link w p t.1)

  abbrev pub conn_callbacks : ℕ → Callbacks (World os.Kernel)
  conn_callbacks p = record {
    close_event = some (handle_close p);
    read_event = some (handle_read p);
    write_event = some (on_conn p (handle_write os));
  }

  -- `Channel::handleEvents` of the connection's channel, with the callbacks of the constructor.
  unfoldable pub conn_events : ℕ → Run
  unfolding handle_events
  conn_events p = handle_events (conn_channel p) (conn_callbacks p)

  -- `newConnection`; `p` is the address that `new` gave, `made` the
  -- answers to `new Sockets()`.
  unfoldable pub new_connection : ℕ → ℕ → SocketAnswers → ℕ → Run
  unfolding new_conn next_index connection_established insert_name
  new_connection sockfd peer_addr made p w = do
    let name = connection_name w.ip_port w.next_conn_idx
    conn ← new_conn name sockfd made w.local_addr peer_addr
    index ← next_index w.next_conn_idx
    let w₁ = record w { conns = put w.conns p conn; next_conn_idx = index }
    w₂ ← connection_established p w₁
    done (record w₂ { table = insert_name name p w₂.table })
