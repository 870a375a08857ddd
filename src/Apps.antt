-- ===== src/Apps.antt =====
-- The callbacks of the example servers, v1.7/Test/EchoServerTest.cpp, v1.7/Test/DiscardServerTest.cpp
-- and v1.7/Test/DayTimeServerTest.cpp. What they print is not modelled.
pub mod Discard
pub mod Echo
pub mod DayTime
use net_server_stepby_step.Base.{ℕ, List, if◌then◌else◌, Outcome, done, deref, ◌>>=◌}
use net_server_stepby_step.Os.{Os}
use net_server_stepby_step.Buffer.{retrieve_as_string}
use net_server_stepby_step.TcpConnection.{Link, set_input, send, shutdown, is_connected}
use net_server_stepby_step.TcpServer.{World, on_conn}

module _ (os : Os) where
  -- `onConnection` of the echo and the discard server only prints.
  unfoldable pub on_connection : ℕ → World os.Kernel → Outcome (World os.Kernel)
  on_connection p w = done w

  unfoldable pub echoes : Link os.Kernel → Outcome (Link os.Kernel)
  echoes l = do
    (message, rest) ← retrieve_as_string l.conn.input
    send os (set_input l rest) message

  -- `onMessage` of the echo server.
  unfoldable pub echo_message : ℕ → World os.Kernel → Outcome (World os.Kernel)
  unfolding echoes
  echo_message p w = on_conn p echoes w

  unfoldable pub discards : Link os.Kernel → Outcome (Link os.Kernel)
  discards l = do (message, rest) ← retrieve_as_string l.conn.input; done (set_input l rest)

  -- `onMessage` of the discard server and of the daytime server.
  unfoldable pub discard_message : ℕ → World os.Kernel → Outcome (World os.Kernel)
  unfolding discards
  discard_message p w = on_conn p discards w

  unfoldable pub tells : List ℕ → Link os.Kernel → Outcome (Link os.Kernel)
  tells time l = do l' ← send os l time; shutdown os l'

  -- `onConnection` of the daytime server; `time` is the local time as a string.
  unfoldable pub day_time_connection : List ℕ → ℕ → World os.Kernel → Outcome (World os.Kernel)
  unfolding tells
  day_time_connection time p w = do
    c ← deref (w.conns p)
    if is_connected c.state then on_conn p (tells time) w else done w
