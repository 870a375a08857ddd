-- ===== src/Apps/DayTime.antt =====
-- The daytime server: it sends the time to a new connection, and its call of `shutdown` behind that
-- has no effect, whatever the comment beside that call says.
use net_server_stepby_step.Base.{
  ℕ, ◌+◌, ◌≤◌, ◌≡◌, ◌∙◌, sym, ap, List, ◌++◌, some, length, Returns, Returns-bind, subst,
}
use net_server_stepby_step.Os.{Os, OsLaws}
use net_server_stepby_step.Buffer.{max_size}
use net_server_stepby_step.TcpConnection.{Conn, Link, connected, is_connected, send}
use net_server_stepby_step.TcpConnection.Invariant.{Watched, pending}
use net_server_stepby_step.TcpConnection.Send.{Sent, send-Sent}
use net_server_stepby_step.TcpConnection.Shutdown.{connected-shutdown}
use net_server_stepby_step.TcpServer.{World, link}
use net_server_stepby_step.TcpServer.Close.{put_self, on_conn_lem}
use net_server_stepby_step.Apps.{on_connection, discard_message, tells, day_time_connection}

module _ (os : Os) where
  -- The server after the connection `c` at `p` was told the time: it is still CONNECTED.
  pub record Told (w : World os.Kernel) (p : ℕ) (c : Conn) (time : List ℕ) (w' : World os.Kernel)
      : Type 0 where
    pub conn : Conn
    pub stored : w'.conns p ≡ some conn
    pub sent : pending os (link w' conn) ≡ pending os (link w c) ++ time
    pub state : conn.state ≡ connected
    pub watched : Watched os (link w' conn)

module _ (os : Os) (laws : OsLaws os) (time : List ℕ) where
  tells-Sent :
      (l : Link os.Kernel)
      → Watched os l
      → l.conn.state ≡ connected
      → l.conn.output.write_index + length time ≤ max_size
      → Returns (tells os time l) (Sent os l time)
  unfolding tells
  tells-Sent l v st k =
      Returns-bind (Sent os l time) _ (send os l time) _ (send-Sent os laws l time v k) λ l' t.
        subst (λ o. Returns o (Sent os l time)) (sym (connected-shutdown os l' (t.state ∙ st))) t

  -- The daytime server does not close a connection after it has sent the time: `onConnection` on a
  -- connection that is CONNECTED returns, the time has been added to what the connection has to
  -- send, and the connection is still CONNECTED, waiting for EPOLLOUT exactly while bytes wait.
  -- (It waited so before, and there is room for the time in the output buffer.)
  pub day_time_connection-Told :
      (w : World os.Kernel) (p : ℕ) (c : Conn)
      → w.conns p ≡ some c
      → Watched os (link w c)
      → c.state ≡ connected
      → c.output.write_index + length time ≤ max_size
      → Returns (day_time_connection os time p w) (Told os w p c time)
  unfolding day_time_connection
  day_time_connection-Told w p c e v st k = rw e (
      rw (ap is_connected st) (
        subst (λ o. Returns o (Told os w p c time))
          (sym
            (on_conn_lem os laws (on_connection os) (discard_message os) w p c (tells os time) e))
          (Returns-bind (Sent os (link w c) time) _ (tells os time (link w c)) _
            (tells-Sent (link w c) v st k)
            λ l t. record {
              conn = l.conn;
              stored = put_self w.conns p l.conn;
              sent = t.sent;
              state = t.state ∙ st;
              watched = t.watched;
            })))
