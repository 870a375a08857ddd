-- ===== src/TcpServer/Events/Reach.antt =====
-- The states that a server reaches by rounds of its loop and calls of `send`, and the invariant
-- there.
use net_server_stepby_step.Base.{
  ℕ, ◌≡◌, ◌+◌, ◌≤◌, ◌<◌, Bool, false, none, some, List, length, Outcome, done, Returns,
  Returns-mono, subst, Returns-done,
}
use net_server_stepby_step.Os.{Os, OsLaws}
use net_server_stepby_step.Buffer.{max_size}
use net_server_stepby_step.Epoller.{Epoller}
use net_server_stepby_step.TcpConnection.{Conn, send, shutdown}
use net_server_stepby_step.TcpConnection.Shutdown.{connected-shutdown}
use net_server_stepby_step.TcpConnection.Drain.{Progress}
use net_server_stepby_step.TcpServer.{World, link, on_conn, new_server}
use net_server_stepby_step.TcpServer.Invariant.{Consistent}
use net_server_stepby_step.TcpServer.Events.Keeping.{Keeps}
use net_server_stepby_step.TcpServer.Events.Handlers.{send-Keeps}
use net_server_stepby_step.TcpServer.Events.Rounds.{
  Active, store_events, server_round, Calm, Orderly, Lives,
}
use net_server_stepby_step.TcpServer.Events.Rounds.Running.{server_round-Lives}

-- A round of the loop, on epoll's answer, or a call of `send` between two rounds.
pub data Event : Type 0 where
  polling : List Active → Event
  sending : ℕ → List ℕ → Event

module _ (os : Os) (reserved : ℕ → Bool)
    (connection_callback message_callback : ℕ → World os.Kernel → Outcome (World os.Kernel))
    (close : World os.Kernel → World os.Kernel) where
  unfoldable pub step : Event → World os.Kernel → Outcome (World os.Kernel)
  step (polling es) w = server_round os connection_callback message_callback close es w
  step (sending p message) w = on_conn p (λ l. send os l message) w

  -- When an event is one of ordinary work: no connection that epoll reports has hung up or is at the
  -- end of its stream, what is read or sent fits into the buffers, and connections can be accepted.
  abbrev pub Enabled : World os.Kernel → Event → Type 0
  Enabled w (polling es) =
      Calm es w
      × ((w₁ : World os.Kernel)
          → store_events es w ≡ done w₁
          → Orderly os connection_callback message_callback close reserved es w₁)
  Enabled w (sending p message) =
      (c : Conn) × (w.conns p ≡ some c) × (c.output.write_index + length message ≤ max_size)

  -- The states that a server can reach from a world by such events.
  pub data Reaches (w₀ : World os.Kernel) : World os.Kernel → Type 0 where
    start : Reaches w₀ w₀
    then_event :
        {w w' : World os.Kernel}
        → Reaches w₀ w
        → (e : Event) → Enabled w e
        → step e w ≡ done w'
        → Reaches w₀ w'

  -- A server that is made on a poller which watches at most the descriptors of the server itself.
  pub new_server-Consistent :
      (poller : Epoller os.Kernel) (ip_port : List ℕ)
      → ((fd : ℕ) → reserved fd ≡ false → os.interest poller.kernel fd ≡ none)
      → Consistent os reserved (new_server poller ip_port)
  unfolding new_server
  new_server-Consistent poller ip_port idle = record {
    healthy = λ q c e. absurd cc;
    apart = λ q r c d e f h. absurd cc;
    unwatched = λ fd r u. idle fd r;
    keyed = tt;
    listed = λ n q e. absurd cc;
  }

module _ (os : Os) (laws : OsLaws os) (reserved : ℕ → Bool)
    (connection_callback message_callback : ℕ → World os.Kernel → Outcome (World os.Kernel))
    (close : World os.Kernel → World os.Kernel)
    (quiet : (p : ℕ) (w : World os.Kernel) → connection_callback p w ≡ done w)
    (answers : (p : ℕ) (w : World os.Kernel) (c : Conn)
      → Consistent os reserved w
      → w.conns p ≡ some c
      → Returns (message_callback p w) (Keeps os reserved w))
    (flows : (k : os.Kernel) (fd : ℕ) (xs : List ℕ)
      → 0 < length xs
      → Progress (os.write k fd xs).0) where
  -- A round or a call of `send` in a consistent server.
  pub step-Consistent :
      (w : World os.Kernel) (e : Event)
      → Consistent os reserved w
      → Enabled os reserved connection_callback message_callback close w e
      → Returns
          (step os reserved connection_callback message_callback close e w)
          (Consistent os reserved)
  unfolding step
  step-Consistent w (polling es) s (calm, orderly) =
      Returns-mono (λ w'. Consistent os reserved w' × Lives w w') _
        (server_round os connection_callback message_callback close es w)
        (server_round-Lives os laws reserved connection_callback message_callback close quiet
          answers flows es w s calm orderly)
        (λ w' h. h.0)
  step-Consistent w (sending p message) s (c, e, k) =
      Returns-mono (Keeps os reserved w) _ _
        (send-Keeps os laws reserved connection_callback message_callback w p c s e message k)
        (λ w' a. a.consistent)

  pub Reaches-Consistent :
      (w₀ w : World os.Kernel)
      → Consistent os reserved w₀
      → Reaches os reserved connection_callback message_callback close w₀ w
      → Consistent os reserved w
  Reaches-Consistent w₀ w s start = s
  Reaches-Consistent w₀ w s (then_event r e enabled h) =
      subst (λ o. Returns o (Consistent os reserved)) h
        (step-Consistent _ e (Reaches-Consistent w₀ _ s r) enabled)

  reached-Consistent :
      (poller : Epoller os.Kernel) (ip_port : List ℕ) (w : World os.Kernel)
      → ((fd : ℕ) → reserved fd ≡ false → os.interest poller.kernel fd ≡ none)
      → Reaches os reserved connection_callback message_callback close (new_server poller ip_port) w
      → Consistent os reserved w
  reached-Consistent poller ip_port w idle = Reaches-Consistent (new_server poller ip_port) w (
      new_server-Consistent os reserved connection_callback message_callback close poller ip_port
        idle)

  -- In no state that a server reaches from the one that its constructor leaves, by rounds of its loop
  -- and calls of `send`, does `shutdown` on a live connection do anything: every live connection is
  -- CONNECTED there. (The rounds are those of ordinary work: no EPOLLHUP of a connection that epoll
  -- reports and no end of a stream, room in the buffers for what comes and for what is sent, and
  -- connections that can be accepted. The poller watches at first at most the descriptors of the
  -- server itself. Each `::write` takes some byte of what it is given. The connection callback returns
  -- and changes nothing; the message callback, on a live connection, returns, keeps the server
  -- consistent, closes no connection, and keeps the events that are stored in the channels.)
  pub Reaches-shutdown :
      (poller : Epoller os.Kernel) (ip_port : List ℕ) (w : World os.Kernel) (p : ℕ) (c : Conn)
      → ((fd : ℕ) → reserved fd ≡ false → os.interest poller.kernel fd ≡ none)
      → Reaches os reserved connection_callback message_callback close (new_server poller ip_port) w
      → w.conns p ≡ some c
      → shutdown os (link w c) ≡ done (link w c)
  Reaches-shutdown poller ip_port w p c idle r e =
      connected-shutdown os (link w c)
        ((reached-Consistent poller ip_port w idle r).healthy p c e).state

  -- From the state that the constructor of a server leaves, by any number of rounds of its loop and
  -- calls of `send`, the server is consistent: the map owns each connection object once, under the
  -- name that the server gave it; each object is connected, with valid buffers, on a descriptor of
  -- its own, in step with epoll's interest list and waiting for EPOLLOUT exactly while bytes wait;
  -- and epoll watches no other descriptor. And the next such round or call runs without a fault and
  -- leads to a state that is reached too. (In these rounds no connection that epoll reports has
  -- EPOLLHUP, or is read at the end of its stream: bytes come that fit into the input buffer, or an
  -- error; a new connection comes on a descriptor that epoll can poll and nothing uses, at an address
  -- of no object, with the index below the greatest `int` and `new Sockets()` succeeding; what is
  -- sent fits into the output buffer; each `::write` takes some byte. The poller watches at first at
  -- most the descriptors of the server itself. The connection callback returns and changes nothing;
  -- the message callback, on a live connection, returns, keeps the server consistent, closes no
  -- connection, and keeps the events that are stored in the channels.)
  pub Reaches-step :
      (poller : Epoller os.Kernel) (ip_port : List ℕ) (w : World os.Kernel) (e : Event)
      → ((fd : ℕ) → reserved fd ≡ false → os.interest poller.kernel fd ≡ none)
      → Reaches os reserved connection_callback message_callback close (new_server poller ip_port) w
      → Enabled os reserved connection_callback message_callback close w e
      → Consistent os reserved w
        × Returns (step os reserved connection_callback message_callback close e w) (
            Reaches os reserved connection_callback message_callback close
              (new_server poller ip_port))
  Reaches-step poller ip_port w e idle r enabled =
      let sound = reached-Consistent poller ip_port w idle r in
      let (w', h, s) =
        Returns-done (Consistent os reserved)
          (step os reserved connection_callback message_callback close e w)
          (step-Consistent w e sound enabled) in
      (sound, rw h (then_event r e enabled h))
