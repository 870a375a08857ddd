-- ===== src/TcpServer/Open.antt =====
-- Opening a connection: `TcpServer::newConnection` with `TcpConnection::connectionEstablished`.
use net_server_stepby_step.Acceptor.{new_sockets}
use net_server_stepby_step.Base.{
  lt→ltb, ◌<◌, ℕ, ◌+◌, ◌≡◌, ◌≢◌, refl, ◌∙◌, ap, List, true, none, some, ne→==, if◌then◌else◌,
  set_bit, epollin, Outcome, done, failed, Returns, Returns-bind, ◌>>=◌,
}
use net_server_stepby_step.Os.{Os, OsLaws}
use net_server_stepby_step.Buffer.{init, init_size}
use net_server_stepby_step.Channel.{Channel, new_channel, set_events}
use net_server_stepby_step.Channel.Update.{enabled_readable}
use net_server_stepby_step.Channel.Registration.{Synced, Frame, Updated, update-Updated}
use net_server_stepby_step.Epoller.{Epoller, put}
use net_server_stepby_step.TcpConnection.{
  Conn, Link, connected, new_conn, fresh_conn, on_channel, establish,
}
use net_server_stepby_step.TcpServer.{
  World, set_link, link, on_conn, insert_name, connection_established, new_connection,
}
use net_server_stepby_step.TcpServer.Names.{connection_name, int_max, next_index}
use net_server_stepby_step.TcpServer.Table.{find_name, find_name-insert_name}
use net_server_stepby_step.TcpServer.Close.{put_self, bind_done}

module _ (os : Os) where
  -- The connection and the poller once it is established.
  record Ready (c : Conn) (p : Epoller os.Kernel) (l : Link os.Kernel) : Type 0 where
    name : l.conn.name ≡ c.name
    state : l.conn.state ≡ connected
    fd : l.conn.channel.fd ≡ c.channel.fd
    events : l.conn.channel.events ≡ set_bit c.channel.events epollin
    input : l.conn.input ≡ c.input
    output : l.conn.output ≡ c.output
    synced : Synced os l.poller l.conn.channel
    frame : Frame os c.channel.fd p l.poller

  -- What opening a connection leaves.
  pub record Opened (w : World os.Kernel) (p sockfd : ℕ) (w' : World os.Kernel) : Type 0 where
    pub conn : Conn
    pub stored : w'.conns p ≡ some conn
    pub state : conn.state ≡ connected
    pub name : conn.name ≡ connection_name w.ip_port w.next_conn_idx
    pub fd : conn.channel.fd ≡ sockfd
    pub events : conn.channel.events ≡ set_bit 0 epollin
    pub input : conn.input ≡ init init_size
    pub output : conn.output ≡ init init_size
    pub synced : Synced os w'.poller conn.channel
    pub found : find_name (connection_name w.ip_port w.next_conn_idx) w'.table ≡ some p
    pub table : w'.table ≡ insert_name (connection_name w.ip_port w.next_conn_idx) p w.table
    pub ip_port : w'.ip_port ≡ w.ip_port
    pub index : w'.next_conn_idx ≡ w.next_conn_idx + 1
    pub others : (q : ℕ) → q ≢ p → w'.conns q ≡ w.conns q
    pub frame : Frame os sockfd w.poller w'.poller

module _ (os : Os) (laws : OsLaws os) where
  establish-Ready :
      (name : List ℕ) (sockfd socket local peer : ℕ) (p : Epoller os.Kernel)
      → os.pollable sockfd ≡ true
      → os.interest p.kernel sockfd ≡ none
      → let c = fresh_conn name sockfd socket local peer in
        Returns (establish os (record { conn = c; poller = p })) (Ready os c p)
  unfolding establish fresh_conn new_channel on_channel enabled_readable
  establish-Ready name sockfd socket local peer p u free =
      let c = fresh_conn name sockfd socket local peer in
      let ev = set_bit c.channel.events epollin in
      Returns-bind (Updated os p (set_events c.channel ev)) _ _ _
        (update-Updated os laws p c.channel ev u free)
        λ t g. record {
          name = refl;
          state = refl;
          fd = ap (λ (c : Channel). c.fd) g.channel;
          events = ap (λ (c : Channel). c.events) g.channel;
          input = refl;
          output = refl;
          synced = g.synced;
          frame = g.frame;
        }

  module _ (connection_callback message_callback : ℕ → World os.Kernel → Outcome (World os.Kernel))
      (quiet : (p : ℕ) (w : World os.Kernel) → connection_callback p w ≡ done w) where
    established_lem :
        (w : World os.Kernel) (p : ℕ) (c : Conn)
        → w.conns p ≡ some c
        → connection_established os connection_callback message_callback p w
          ≡ (establish os (link w c) >>= λ l. done (set_link w p l))
    unfolding connection_established on_conn
    established_lem w p c e = simp e (go (establish os (link w c)))
      where
        go :
            (o : Outcome (Link os.Kernel))
            → ((o >>= λ l. done (set_link w p l)) >>= connection_callback p)
              ≡ (o >>= λ l. done (set_link w p l))
        go (done l) = quiet p (set_link w p l)
        go (failed e) = refl

    -- A new connection on a descriptor that epoll can poll and does not yet watch, while `new
    -- Sockets()` succeeds and the index of connections is below the greatest `int`: `newConnection`
    -- returns, with the object at the address, CONNECTED, watched for EPOLLIN alone, its status in
    -- agreement with the interest list, found in the map under its name; the index has moved on, and
    -- every other object and descriptor is as it was. (The user's callback returns and changes
    -- nothing.)
    pub new_connection-Opened :
        (w : World os.Kernel) (sockfd peer socket reused p : ℕ)
        → os.pollable sockfd ≡ true
        → os.interest w.poller.kernel sockfd ≡ none
        → w.next_conn_idx < int_max
        → Returns
            (new_connection os connection_callback message_callback sockfd peer
              (some socket, some reused)
              p
              w)
            (Opened os w p sockfd)
    unfolding new_connection new_conn new_sockets next_index
    new_connection-Opened w sockfd peer socket reused p u free small =
        let name = connection_name w.ip_port w.next_conn_idx in
        let c = fresh_conn name sockfd socket w.local_addr peer in
        let w₁ = record w { conns = put w.conns p c; next_conn_idx = w.next_conn_idx + 1 } in
        rw (lt→ltb w.next_conn_idx int_max small) (
          rw (established_lem w₁ p c (put_self w.conns p c)) (
            bind_done (Opened os w p sockfd) (establish os (link w₁ c)) (λ l. set_link w₁ p l) _
              (Returns-bind (Ready os c w.poller) _ (establish os (link w₁ c)) _
                (establish-Ready name sockfd socket w.local_addr peer w.poller u free)
                λ l r.
                  unfold fresh_conn new_channel in
                  record {
                    conn = l.conn;
                    stored = put_self w₁.conns p l.conn;
                    state = r.state;
                    name = r.name;
                    fd = r.fd;
                    events = r.events;
                    input = r.input;
                    output = r.output;
                    table = refl;
                    ip_port = refl;
                    synced = r.synced;
                    found = find_name-insert_name name p w.table;
                    index = refl;
                    others = λ q n.
                        ap (λ b. if b then some l.conn else w₁.conns q) (ne→== q p n)
                        ∙ ap (λ b. if b then some c else w.conns q) (ne→== q p n);
                    frame = r.frame;
                  })))
