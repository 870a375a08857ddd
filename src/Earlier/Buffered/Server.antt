-- ===== src/Earlier/Buffered/Server.antt =====
-- v1.5/src/TcpServer.h, v1.5/src/TcpServer.cpp, with the handlers of v1.5/src/TcpConnection.cpp that
-- run callbacks. `removeConnection` only erases the connection from the map: the channel is not
-- removed, and the object goes away with the last `shared_ptr`, behind the close callback.
pub mod Ending
use net_server_stepby_step.Base.{
  ℕ, zero, suc, ◌+◌, List, [], Bool, true, false, Option, none, some, ◌==◌, if◌then◌else◌, Outcome,
  done, deref, ◌>>=◌,
}
use net_server_stepby_step.Os.{Os}
use net_server_stepby_step.Acceptor.{SocketAnswers}
use net_server_stepby_step.Epoller.{Epoller, put}
use net_server_stepby_step.Channel.Dispatch.{Callbacks}
use net_server_stepby_step.TcpServer.{insert_name, erase_name, owns, destroy}
use net_server_stepby_step.TcpServer.Names.{connection_name, next_index}
use net_server_stepby_step.Earlier.Polling.{Channel, handle_events}
use net_server_stepby_step.Earlier.Buffered.{
  Conn, Link, new_conn, establish, take_down, receive, handle_write,
}

pub record World (K : Type 0) : Type 0 where
  pub poller : Epoller K
  pub conns : ℕ → Option Conn
  pub table : List (List ℕ × ℕ)
  pub next_conn_idx : ℕ
  pub ip_port : List ℕ
  pub local_addr : ℕ

-- The constructor; `ip_port` is the port of the address as a string.
unfoldable pub new_server : {K : Type 0} → Epoller K → List ℕ → World K
new_server poller ip_port = record {
  poller = poller;
  conns = λ _. none;
  table = [];
  next_conn_idx = 1;
  ip_port = ip_port;
  local_addr = 0;
}

abbrev pub link : {K : Type 0} → World K → Conn → Link K
link w c = record { conn = c; poller = w.poller }

abbrev pub set_link : {K : Type 0} → World K → ℕ → Link K → World K
set_link w p l = record w { poller = l.poller; conns = put w.conns p l.conn }

unfoldable pub on_conn :
    {K : Type 0} → ℕ → (Link K → Outcome (Link K)) → World K → Outcome (World K)
on_conn p f w = do c ← deref (w.conns p); l ← f (link w c); done (set_link w p l)

-- The last local `shared_ptr` to an object goes away.
unfoldable pub release : {K : Type 0} → ℕ → World K → World K
release p w =
    if owns w.table p then w else record w { conns = λ q. if q == p then none else w.conns q }

abbrev pub channel_of : Option Conn → Option Channel
channel_of none = none
channel_of (some c) = some c.channel

module _ (os : Os)
    (connection_callback message_callback : ℕ → World os.Kernel → Outcome (World os.Kernel)) where
  abbrev Run : Type 0
  Run = World os.Kernel → Outcome (World os.Kernel)

  unfoldable pub connection_established : ℕ → Run
  connection_established p w = do w₁ ← on_conn p (establish os) w; connection_callback p w₁

  unfoldable pub remove_connection : ℕ → Run
  remove_connection p w = do
    c ← deref (w.conns p)
    done (record w { table = erase_name c.name w.table })

  -- `handleClose`; the `shared_ptr` that the close callback was given goes away behind it.
  unfoldable pub handle_close : ℕ → Run
  unfolding remove_connection
  handle_close p w = do
    w₁ ← on_conn p (take_down os) w
    w₂ ← connection_callback p w₁
    w₃ ← remove_connection p w₂
    done (release p w₃)

  -- The test of what `readFd` returned.
  unfoldable pub after_read : ℕ → Option ℕ → Run
  unfolding handle_close
  after_read p none w = done w
  after_read p (some zero) w = handle_close p w
  after_read p (some (suc n)) w = message_callback p w

  unfoldable pub handle_read : ℕ → Run
  unfolding after_read
  handle_read p w = do
    c ← deref (w.conns p)
    t ← receive os (link w c)
    after_read p t.0 (set_link w p t.1)

  abbrev pub conn_callbacks : ℕ → Callbacks (World os.Kernel)
  conn_callbacks p = record {
    close_event = some (handle_close p);
    read_event = some (handle_read p);
    write_event = some (on_conn p (handle_write os));
  }

  -- `Channel::handleEvents` of the connection's channel.
  unfoldable pub conn_events : ℕ → Run
  unfolding handle_events
  conn_events p = handle_events (λ w. channel_of (w.conns p)) (conn_callbacks p)

  -- `newConnection`; `p` is the address that `new` gave, `made` the
  -- answers to `new Sockets()`.
  unfoldable pub new_connection : ℕ → ℕ → SocketAnswers → ℕ → Run
  unfolding new_conn next_index connection_established
  new_connection sockfd peer_addr made p w = do
    let name = connection_name w.ip_port w.next_conn_idx
    conn ← new_conn name sockfd made w.local_addr peer_addr
    index ← next_index w.next_conn_idx
    let w₁ = record w { conns = put w.conns p conn; next_conn_idx = index }
    w₂ ← connection_established p w₁
    done (record w₂ { table = insert_name name p w₂.table })
