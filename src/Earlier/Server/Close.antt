-- ===== src/Earlier/Server/Close.antt =====
-- Closing a connection of v1.4, and what `Channel::handleEvents` does behind it.
use net_server_stepby_step.Base.{
  ℕ, ◌≡◌, ◌≢◌, refl, ◌∙◌, ap, List, [], Bool, true, false, Option, none, some, ==-self, ne→==,
  if◌then◌else◌, has, epollin, epollhup, Outcome, done, failed, use_after_free, Returns,
  Returns-bind, Returns-done, ◌>>=◌,
}
use net_server_stepby_step.Channel.Dispatch.{Callbacks}
use net_server_stepby_step.Os.{Os, OsLaws, Sets, ctl_del}
use net_server_stepby_step.Epoller.{Epoller, adopt, put}
use net_server_stepby_step.TcpServer.{erase_name}
use net_server_stepby_step.TcpServer.Table.{find_name}
use net_server_stepby_step.Earlier.Polling.{
  Channel, choose_op, control, update_channel, disabled_all_events, run_if, handle_events,
  Registered,
}
use net_server_stepby_step.Earlier.Server.{
  Conn, World, disconnected, channel_of, destroy_owned, remove_connection, handle_close,
  handle_read, conn_callbacks, conn_events,
}

-- A test of `revents_` on a channel that is there with the bit, without it, and on none.
module _ {S : Type 0} (channel : S → Option Channel) (cb : Callbacks S) (bit : ℕ)
    (f : S → Outcome S) (s : S) where
  pub run_if_set :
      (c : Channel)
      → channel s ≡ some c
      → has c.revents bit ≡ true
      → run_if channel cb bit (some f) s ≡ f s
  unfolding run_if
  run_if_set c e h = simp (e, h)

  pub run_if_clear :
      (c : Channel)
      → channel s ≡ some c
      → has c.revents bit ≡ false
      → run_if channel cb bit (some f) s ≡ done s
  unfolding run_if
  run_if_clear c e h = simp (e, h)

  run_if_gone : channel s ≡ none → run_if channel cb bit (some f) s ≡ failed use_after_free
  unfolding run_if
  run_if_gone e = simp e

module _ (os : Os) where
  -- The descriptor has left the interest list, and no other entry has changed.
  abbrev pub Unlisted : ℕ → Epoller os.Kernel → Epoller os.Kernel → Type 0
  Unlisted fd p q =
      (os.interest q.kernel fd ≡ none)
      × ((j : ℕ) → j ≢ fd → os.interest q.kernel j ≡ os.interest p.kernel j)

  adopt-Unlisted :
      (p : Epoller os.Kernel) (fd : ℕ) (o : Option os.Kernel)
      → Sets os p.kernel fd none o
      → Returns (adopt p o) (Unlisted fd p)
  unfolding adopt
  adopt-Unlisted p fd none h = absurd h
  adopt-Unlisted p fd (some k) h = (
    h.0 fd ∙ ap (λ b. if b then none else os.interest p.kernel fd) (==-self fd),
    λ j n. h.0 j ∙ ap (λ b. if b then none else os.interest p.kernel j) (ne→== j fd n),
  )

  -- What closing leaves.
  pub record Closed (w : World os.Kernel) (p : ℕ) (c : Conn) (w' : World os.Kernel) : Type 0 where
    pub gone : w'.conns p ≡ none
    pub others : (q : ℕ) → q ≢ p → w'.conns q ≡ w.conns q
    pub unlisted : Unlisted c.channel.fd w.poller w'.poller
    pub table : w'.table ≡ erase_name c.name w.table

module _ (os : Os) (laws : OsLaws os) where
  pub disabled-Unlisted :
      (p : Epoller os.Kernel) (c : Channel) (m : ℕ)
      → c.polling ≡ true
      → os.interest p.kernel c.fd ≡ some m
      → Returns (disabled_all_events os p c) (λ t. Unlisted os c.fd p t.1)
  unfolding disabled_all_events update_channel choose_op control
  disabled-Unlisted p c m on listed = go c.polling on
    where
      go :
          (b : Bool)
          → b ≡ true
          → Returns
              (disabled_all_events os p
                (record { fd = c.fd; events = c.events; revents = c.revents; polling = b }))
              (λ t. Unlisted os c.fd p t.1)
      go true e =
          Returns-bind (Unlisted os c.fd p) _ (adopt p (os.epoll_ctl p.kernel ctl_del c.fd 0)) _
            (adopt-Unlisted os p c.fd _ (laws.del_lem p.kernel c.fd 0 m listed)) (λ q h. h)
      go false e = cc

  module _ (connection_callback : ℕ → World os.Kernel → Outcome (World os.Kernel))
      (message_callback : ℕ → List ℕ → World os.Kernel → Outcome (World os.Kernel))
      (quiet : (p : ℕ) (w : World os.Kernel) → connection_callback p w ≡ done w)
      (w : World os.Kernel) (p : ℕ) (c : Conn) (e : w.conns p ≡ some c)
      (owned : find_name c.name w.table ≡ some p) (on : c.channel.polling ≡ true) (m : ℕ)
      (listed : os.interest w.poller.kernel c.channel.fd ≡ some m) where
    abbrev downed : Channel × Epoller os.Kernel → World os.Kernel
    downed t = record w {
      poller = t.1;
      conns = put w.conns p (record c { state = disconnected; channel = t.0 });
    }

    abbrev left : Channel × Epoller os.Kernel → World os.Kernel
    left t = record (downed t) {
      table = erase_name c.name w.table;
      conns = destroy_owned (some p) (downed t).conns;
    }

    removed :
        (t : Channel × Epoller os.Kernel)
        → remove_connection os connection_callback message_callback p (downed t) ≡ done (left t)
    unfolding remove_connection
    removed t = rw (==-self p) (rw owned refl)

    handle_close_lem :
        handle_close os connection_callback message_callback p w
        ≡ (disabled_all_events os w.poller c.channel >>= λ t. done (left t))
    unfolding handle_close
    handle_close_lem = simp e (go (disabled_all_events os w.poller c.channel))
      where
        go :
            (o : Registered os)
            → (o >>= λ t. connection_callback p (downed t) >>= λ w₂.
                remove_connection os connection_callback message_callback p w₂)
              ≡ (o >>= λ t. done (left t))
        go (done t) = rw (quiet p (downed t)) (removed t)
        go (failed f) = refl

    close_returns :
        Returns (handle_close os connection_callback message_callback p w) (Closed os w p c)
    close_returns = rw handle_close_lem (
        Returns-bind (λ t. Unlisted os c.channel.fd w.poller t.1) (Closed os w p c)
          (disabled_all_events os w.poller c.channel) _
          (disabled-Unlisted w.poller c.channel m on listed)
          λ t u. record {
            gone = ap (λ b. if b then none else (downed t).conns p) (==-self p);
            others = λ q n.
                ap (λ b. if b then none else (downed t).conns q) (ne→== q p n)
                ∙ ap
                    (λ b.
                      if b
                      then some (record c { state = disconnected; channel = t.0 })
                      else w.conns q)
                    (ne→== q p n);
            unlisted = u;
            table = refl;
          })

    read_closes :
        handle_read os connection_callback message_callback p (some []) w
        ≡ handle_close os connection_callback message_callback p w
    unfolding handle_read
    read_closes = refl

    -- When the peer of a connection of v1.4 closes its end, so that epoll returns EPOLLIN without
    -- EPOLLHUP and read(2) gives no byte, the connection is closed: its object is gone, its entry is
    -- out of the map and its descriptor out of the interest list, and all others are as they were.
    -- (The user's callback returns and changes nothing, the map owns the object under its name, and
    -- the channel is polled.)
    pub conn_events-Closed :
        has c.channel.revents epollin ≡ true
        → has c.channel.revents epollhup ≡ false
        → Returns
            (conn_events os connection_callback message_callback p (some []) w)
            (Closed os w p c)
    unfolding conn_events handle_events
    conn_events-Closed inn calm =
        let at_p = ap channel_of e in
        rw (run_if_clear _ _ epollhup _ w c.channel at_p calm)
          (rw (run_if_set _ _ epollin _ w c.channel at_p inn) (rw read_closes close_returns))

    -- When epoll returns EPOLLHUP for such a connection, its object is destroyed first, and
    -- `handleEvents` then reads the channel that went with it. (The user's callback
    -- returns and changes nothing, the map owns the object under its name, and the channel is
    -- polled.)
    pub conn_events_hangup :
        (answer : Option (List ℕ))
        → has c.channel.revents epollhup ≡ true
        → conn_events os connection_callback message_callback p answer w ≡ failed use_after_free
    unfolding conn_events handle_events
    conn_events_hangup answer hup =
        let (w', done_w, closed) = Returns-done (Closed os w p c) _ close_returns in
        rw (run_if_set _ _ epollhup _ w c.channel (ap channel_of e) hup) (
          rw done_w (
            run_if_gone (λ (w : World os.Kernel). channel_of (w.conns p))
              (conn_callbacks os connection_callback message_callback p answer) epollin
              (handle_read os connection_callback message_callback p answer) w'
              (ap channel_of closed.gone)))
