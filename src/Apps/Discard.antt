-- ===== src/Apps/Discard.antt =====
-- The discard server: its message callback keeps the invariant of the server.
use net_server_stepby_step.Base.{
  ◌<◌, length, ℕ, ◌≡◌, refl, List, [], Bool, false, some, none, done, Returns, Returns-bind,
  Returns-mono, ◌≤◌,
}
use net_server_stepby_step.Os.{Os, OsLaws}
use net_server_stepby_step.Buffer.{IsValid, contents, retrieve_as_string}
use net_server_stepby_step.Buffer.Contents.{retrieve_as_string-Taken}
use net_server_stepby_step.TcpConnection.{Conn}
use net_server_stepby_step.TcpServer.{World, link, new_server}
use net_server_stepby_step.TcpServer.Invariant.{Consistent}
use net_server_stepby_step.TcpServer.Invariant.Renewal.{Renewed}
use net_server_stepby_step.TcpServer.Events.Keeping.{Keeps}
use net_server_stepby_step.TcpServer.Events.Handlers.{on_conn-Keeps}
use net_server_stepby_step.TcpServer.Events.Reach.{Event, Enabled, step, Reaches, Reaches-step}
use net_server_stepby_step.TcpConnection.Drain.{Progress}
use net_server_stepby_step.Apps.{on_connection, discards, discard_message}
use net_server_stepby_step.Epoller.{Epoller}

module _ (os : Os) (laws : OsLaws os) (reserved : ℕ → Bool) where
  pub on_connection_quiet : (p : ℕ) (w : World os.Kernel) → on_connection os p w ≡ done w
  unfolding on_connection
  on_connection_quiet p w = refl

  discards-Renewed :
      (w : World os.Kernel) (p : ℕ) (c : Conn)
      → Consistent os reserved w
      → w.conns p ≡ some c
      → Returns
          (discards os (link w c))
          (λ l. Renewed os reserved w c l × (l.conn.channel.revents ≡ c.channel.revents))
  unfolding discards
  discards-Renewed w p c s e =
      let h = s.healthy p c e in
      Returns-bind
        (λ t.
          (t.0 ≡ contents c.input)
          × IsValid t.1
          × (contents t.1 ≡ [])
          × (t.1.write_index ≤ c.input.write_index))
        _ (retrieve_as_string c.input) _ (retrieve_as_string-Taken c.input h.input)
        λ t g. (
          record {
            watched = record {
              sound = record {
                pollable = h.watched.sound.pollable;
                synced = h.watched.sound.synced;
                mask = h.watched.sound.mask;
                valid = h.watched.sound.valid;
              };
              watching = h.watched.watching;
            };
            input = g.1;
            state = refl;
            name = refl;
            fd = refl;
            entries = λ j n. refl;
          },
          refl,
        )

  pub discard_message-Keeps :
      (p : ℕ) (w : World os.Kernel) (c : Conn)
      → Consistent os reserved w
      → w.conns p ≡ some c
      → Returns (discard_message os p w) (Keeps os reserved w)
  unfolding discard_message
  discard_message-Keeps p w c s e =
      on_conn-Keeps os laws reserved (on_connection os) (discard_message os) w p c s e (discards os)
        (discards-Renewed w p c s e)

  pub discard_message-Consistent :
      (p : ℕ) (w : World os.Kernel) (c : Conn)
      → Consistent os reserved w
      → w.conns p ≡ some c
      → Returns (discard_message os p w) (Consistent os reserved)
  discard_message-Consistent p w c s e =
      Returns-mono (Keeps os reserved w) _ _ (discard_message-Keeps p w c s e)
        (λ w' a. a.consistent)

  -- From the state that the constructor leaves, by any number of rounds of its loop and calls of
  -- `send`, the discard server is consistent, and the next such round or call runs without a fault
  -- and leads to a state that is reached too. (In these rounds no connection that epoll reports has
  -- EPOLLHUP, or is read at the end of its stream: bytes come that fit into the input buffer, or an
  -- error; a new connection comes on a descriptor that epoll can poll and nothing uses, at an address
  -- of no object, with the index below the greatest `int` and `new Sockets()` succeeding; what is
  -- sent fits into the output buffer; each `::write` takes some byte. The poller watches at first at
  -- most the descriptors of the server itself.)
  pub discard_server-Reaches :
      (close : World os.Kernel → World os.Kernel)
      (flows : (k : os.Kernel) (fd : ℕ) (xs : List ℕ)
        → 0 < length xs
        → Progress (os.write k fd xs).0)
      (poller : Epoller os.Kernel) (ip_port : List ℕ) (w : World os.Kernel) (e : Event)
      → ((fd : ℕ) → reserved fd ≡ false → os.interest poller.kernel fd ≡ none)
      → Reaches os reserved
          (on_connection os)
          (discard_message os)
          close
          (new_server poller ip_port)
          w
      → Enabled os reserved (on_connection os) (discard_message os) close w e
      → Consistent os reserved w
        × Returns (step os reserved (on_connection os) (discard_message os) close e w) (
            Reaches os reserved
              (on_connection os)
              (discard_message os)
              close
              (new_server poller ip_port))
  discard_server-Reaches close =
      Reaches-step os laws reserved (on_connection os) (discard_message os) close
        on_connection_quiet discard_message-Keeps
