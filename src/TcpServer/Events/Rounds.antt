-- ===== src/TcpServer/Events/Rounds.antt =====
-- One round of `EventLoop::loop` of v1.7 over the channels of a server, the
-- acceptor's and those of its connections: `Epoller::poll` stores the events in the channels, and then
-- the loop runs the handlers of each.
pub mod Storing
pub mod Accepting
pub mod Running
use net_server_stepby_step.Base.{
  ◌<◌, ℕ, suc, ◌≡◌, List, [], ◌∷◌, Bool, true, false, Option, none, some, has, epollin, epollhup,
  Outcome, done, deref, ◌>>=◌,
}
use net_server_stepby_step.Os.{Os}
use net_server_stepby_step.Acceptor.{SocketAnswers, accept}
use net_server_stepby_step.Channel.{Channel, set_return_events}
use net_server_stepby_step.Channel.Dispatch.{handle_events}
use net_server_stepby_step.TcpConnection.{Conn, Link}
use net_server_stepby_step.TcpServer.{World, set_link, conn_events, new_connection}
use net_server_stepby_step.TcpServer.Names.{int_max}
use net_server_stepby_step.TcpServer.Invariant.{IsUnused}
use net_server_stepby_step.TcpServer.Events.Arrivals.{read_answer, Arrives}

-- A channel of epoll's answer: of the connection at an address, with the events; or the acceptor's,
-- with its events in it, and what the handler will get: the answer of accept4 and the peer, the
-- answers to `new Sockets()`, and the address of the new object.
pub data Active : Type 0 where
  of_connection : ℕ → ℕ → Active
  of_acceptor : Channel → Option ℕ → ℕ → SocketAnswers → ℕ → Active

-- `setReturnEvents` of each channel that epoll_wait answered.
unfoldable pub store_events : {K : Type 0} → List Active → World K → Outcome (World K)
store_events [] w = done w
store_events (of_connection p ev ∷ es) w = do
  c ← deref (w.conns p)
  let stored = record c { channel = set_return_events c.channel ev }
  store_events es (set_link w p (record { conn = stored; poller = w.poller }))
store_events (of_acceptor channel answer peer made p ∷ es) w = store_events es w

module _ (os : Os)
    (connection_callback message_callback : ℕ → World os.Kernel → Outcome (World os.Kernel))
    (close : World os.Kernel → World os.Kernel) where
  -- `Acceptor::accept`, with the callback that the constructor of `TcpServer` sets.
  unfoldable pub accept_connection :
      Option ℕ → ℕ → SocketAnswers → ℕ → World os.Kernel → Outcome (World os.Kernel)
  accept_connection answer peer made p w =
      accept
        (some
          (λ fd peer w. new_connection os connection_callback message_callback fd peer made p w))
        close answer peer w

  -- `Channel::handleEvents` of an active channel.
  unfoldable pub channel_events : Active → World os.Kernel → Outcome (World os.Kernel)
  unfolding accept_connection handle_events
  channel_events (of_connection p ev) w = conn_events os connection_callback message_callback p w
  channel_events (of_acceptor channel answer peer made p) w =
      handle_events (λ _. some channel)
        (record {
          close_event = none;
          read_event = some (accept_connection answer peer made p);
          write_event = none;
        })
        w

  -- The loop over the active channels.
  unfoldable pub run_channels : List Active → World os.Kernel → Outcome (World os.Kernel)
  unfolding channel_events
  run_channels [] w = done w
  run_channels (e ∷ es) w = do w₁ ← channel_events e w; run_channels es w₁

  unfoldable pub server_round : List Active → World os.Kernel → Outcome (World os.Kernel)
  unfolding store_events run_channels
  server_round es w = do w₁ ← store_events es w; run_channels es w₁

  -- What a new connection needs: a descriptor that epoll can poll and that nothing uses, an address
  -- of no object, an index below the greatest `int`, and `new Sockets()` to succeed.
  abbrev pub Acceptable : (ℕ → Bool) → World os.Kernel → ℕ → SocketAnswers → ℕ → Type 0
  Acceptable reserved w sockfd made p =
      (os.pollable sockfd ≡ true)
      × (reserved sockfd ≡ false)
      × IsUnused os reserved w sockfd
      × (w.conns p ≡ none)
      × (w.next_conn_idx < int_max)
      × ((socket : ℕ) × (reused : ℕ) × (made ≡ (some socket, some reused)))

  -- What a handler finds under EPOLLIN: a connection bytes that fit, or an error, and the acceptor a
  -- connection as above.
  abbrev pub Finds : (ℕ → Bool) → Active → World os.Kernel → Type 0
  Finds reserved (of_connection p ev) w =
      (c : Conn)
      → w.conns p ≡ some c
      → has c.channel.revents epollin ≡ true
      → Arrives c.input (read_answer os w c)
  Finds reserved (of_acceptor channel answer peer made p) w =
      has channel.revents epollin ≡ true
      → (n : ℕ) × (answer ≡ some (suc n)) × Acceptable reserved w (suc n) made p

  -- Each handler does when its turn comes.
  unfoldable pub Orderly : (ℕ → Bool) → List Active → World os.Kernel → Type 0
  Orderly reserved [] w = Unit {0}
  Orderly reserved (e ∷ es) w =
      Finds reserved e w
      × ((w₁ : World os.Kernel) → channel_events e w ≡ done w₁ → Orderly reserved es w₁)

-- Each answer for a connection is about an object that lives, and has no EPOLLHUP.
abbrev pub Calm : {K : Type 0} → List Active → World K → Type 0
Calm [] w = Unit {0}
Calm (of_connection p ev ∷ es) w =
    ((c : Conn) × (w.conns p ≡ some c)) × (has ev epollhup ≡ false) × Calm es w
Calm (of_acceptor channel answer peer made p ∷ es) w = Calm es w

-- The object lives, and its events have no EPOLLHUP.
abbrev pub Ready : {K : Type 0} → World K → ℕ → Type 0
Ready w p = (c : Conn) × (w.conns p ≡ some c) × (has c.channel.revents epollhup ≡ false)

abbrev pub AllReady : {K : Type 0} → List Active → World K → Type 0
AllReady [] w = Unit {0}
AllReady (of_connection p ev ∷ es) w = Ready w p × AllReady es w
AllReady (of_acceptor channel answer peer made p ∷ es) w = AllReady es w

-- No connection object goes away.
abbrev pub Lives : {K : Type 0} → World K → World K → Type 0
Lives w w' = (q : ℕ) (c : Conn) → w.conns q ≡ some c → (d : Conn) × (w'.conns q ≡ some d)
