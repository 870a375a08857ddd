-- ===== src/TcpConnection/Shutdown.antt =====
-- `TcpConnection::shutdown`. It acts on a connection that is not CONNECTED, and on `socket_`, which
-- the constructor creates beside the accepted descriptor.
use net_server_stepby_step.Base.{◌≡◌, refl, done}
use net_server_stepby_step.Os.{Os}
use net_server_stepby_step.TcpConnection.{Link, connected, shutdown}

-- `shutdown` does nothing to a connection that is CONNECTED.
pub connected-shutdown :
    (os : Os) (l : Link os.Kernel) → l.conn.state ≡ connected → shutdown os l ≡ done l
unfolding shutdown
connected-shutdown os l e = rw e refl
