-- ===== src/TcpServer/Events/Rounds/Running.antt =====
-- A round over the channels of a consistent server.
use net_server_stepby_step.Base.{
  ℕ, ◌≡◌, List, [], ◌∷◌, Bool, some, has, epollhup, Outcome, done, Returns, Returns-done,
  Returns-mono, length, ◌<◌, ap, ◌∙◌,
}
use net_server_stepby_step.Os.{Os, OsLaws}
use net_server_stepby_step.TcpConnection.{Conn}
use net_server_stepby_step.TcpConnection.Drain.{Progress}
use net_server_stepby_step.TcpServer.{World, conn_events}
use net_server_stepby_step.TcpServer.Invariant.{Consistent}
use net_server_stepby_step.TcpServer.Events.Keeping.{Keeps, Keeps-refl, Keeps-trans}
use net_server_stepby_step.TcpServer.Events.Dispatch.{conn_events-Keeps}
use net_server_stepby_step.TcpServer.Events.Rounds.{
  Active, of_connection, of_acceptor, store_events, channel_events, run_channels, server_round,
  Finds, Orderly, Calm, AllReady, Lives,
}
use net_server_stepby_step.TcpServer.Events.Rounds.Accepting.{acceptor_events-Keeps}
use net_server_stepby_step.TcpServer.Events.Rounds.Storing.{Stored, store_events-Stored}

module _ (os : Os) (reserved : ℕ → Bool) where
  AllReady-Keeps :
      (es : List Active) (w w' : World os.Kernel)
      → Keeps os reserved w w'
      → AllReady es w
      → AllReady es w'
  AllReady-Keeps [] w w' k r = tt
  AllReady-Keeps (of_connection p ev ∷ es) w w' k ((c, e, calm), rest) =
      let (d, f, same) = k.alive p c e in
      ((d, f, ap (λ m. has m epollhup) same ∙ calm), AllReady-Keeps es w w' k rest)
  AllReady-Keeps (of_acceptor channel answer peer made p ∷ es) w w' k r = AllReady-Keeps es w w' k r

module _ (os : Os) (laws : OsLaws os) (reserved : ℕ → Bool)
    (connection_callback message_callback : ℕ → World os.Kernel → Outcome (World os.Kernel))
    (close : World os.Kernel → World os.Kernel)
    (quiet : (p : ℕ) (w : World os.Kernel) → connection_callback p w ≡ done w)
    (answers : (p : ℕ) (w : World os.Kernel) (c : Conn)
      → Consistent os reserved w
      → w.conns p ≡ some c
      → Returns (message_callback p w) (Keeps os reserved w))
    (flows : (k : os.Kernel) (fd : ℕ) (xs : List ℕ)
      → 0 < length xs
      → Progress (os.write k fd xs).0) where
  -- The handlers of one active channel, whose turn it is.
  channel_events-Keeps :
      (e : Active) (es : List Active) (w : World os.Kernel)
      → Consistent os reserved w
      → AllReady (e ∷ es) w
      → Finds os connection_callback message_callback close reserved e w
      → Returns
          (channel_events os connection_callback message_callback close e w)
          (λ w'. Keeps os reserved w w' × AllReady es w')
  unfolding channel_events
  channel_events-Keeps (of_connection p ev) es w s ((c, e, calm), rest) arrives =
      Returns-mono (Keeps os reserved w) _ (conn_events os connection_callback message_callback p w)
        (conn_events-Keeps os laws reserved connection_callback message_callback answers flows p w c
          s e calm (arrives c e))
        (λ w' k. (k, AllReady-Keeps os reserved es w w' k rest))
  channel_events-Keeps (of_acceptor channel answer peer made p) es w s r finds =
      Returns-mono (Keeps os reserved w) _
        (channel_events os connection_callback message_callback close
          (of_acceptor channel answer peer made p) w)
        (acceptor_events-Keeps os laws reserved connection_callback message_callback close quiet w s
          channel answer peer made p finds)
        (λ w' k. (k, AllReady-Keeps os reserved es w w' k r))

  run_channels-Keeps :
      (es : List Active) (w : World os.Kernel)
      → Consistent os reserved w
      → AllReady es w
      → Orderly os connection_callback message_callback close reserved es w
      → Returns
          (run_channels os connection_callback message_callback close es w)
          (Keeps os reserved w)
  unfolding run_channels Orderly
  run_channels-Keeps [] w s r o = Keeps-refl os reserved w s
  run_channels-Keeps (e ∷ es) w s r (finds, next) =
      let (w₁, d, (k, rest)) =
        Returns-done (λ w'. Keeps os reserved w w' × AllReady es w')
          (channel_events os connection_callback message_callback close e w)
          (channel_events-Keeps e es w s r finds) in
      rw d (
        Returns-mono (Keeps os reserved w₁) (Keeps os reserved w)
          (run_channels os connection_callback message_callback close es w₁)
          (run_channels-Keeps es w₁ k.consistent rest (next w₁ d))
          (λ w' k'. Keeps-trans os reserved w w₁ w' k k'))

  -- A round of the loop over the active channels of a consistent server, its acceptor's among them,
  -- runs without a fault, whatever the order of epoll's answer: the server is consistent after it,
  -- and no connection object went away. (The answer is about connections that live, and has no
  -- EPOLLHUP for them; when the turn of a handler comes, a connection finds under EPOLLIN bytes that
  -- fit into the input buffer, or an error, and the acceptor a descriptor that epoll can poll and
  -- nothing uses, an address of no object and an index below the greatest `int`, and `new Sockets()`
  -- succeeds; each `::write` takes some byte of what it is given;
  -- the connection callback returns and changes nothing; and the message callback, on a live
  -- connection, returns, keeps the server consistent, closes no connection, and keeps the events
  -- that are stored in the channels.)
  pub server_round-Lives :
      (es : List Active) (w : World os.Kernel)
      → Consistent os reserved w
      → Calm es w
      → ((w₁ : World os.Kernel)
          → store_events es w ≡ done w₁
          → Orderly os connection_callback message_callback close reserved es w₁)
      → Returns
          (server_round os connection_callback message_callback close es w)
          (λ w'. Consistent os reserved w' × Lives w w')
  unfolding server_round
  server_round-Lives es w s calm orderly =
      let (w₁, d, g) =
        Returns-done (Stored os reserved es w) (store_events es w)
          (store_events-Stored os reserved es w s calm) in
      rw d (
        Returns-mono (Keeps os reserved w₁) (λ w'. Consistent os reserved w' × Lives w w')
          (run_channels os connection_callback message_callback close es w₁)
          (run_channels-Keeps es w₁ g.consistent g.ready (orderly w₁ d))
          (λ w' k. (
            k.consistent,
            λ q c e. let (c₁, e₁) = g.lives q c e in let (c₂, e₂, r) = k.alive q c₁ e₁ in (c₂, e₂),
          )))
