-- ===== src/Earlier/Buffered/Server/Ending.antt =====
-- The end of a stream in v1.5: the connection closes, and nothing reads its channel afterwards.
use net_server_stepby_step.Base.{
  ℕ, ◌≡◌, ◌≢◌, refl, ◌∙◌, ap, arith, [], true, false, none, some, ==-self, ne→==, ◌==◌,
  if◌then◌else◌, has, epollin, epollhup, Outcome, done, failed, Returns, Returns-bind, Returns-done,
  ◌>>=◌,
}
use net_server_stepby_step.Os.{Os, OsLaws}
use net_server_stepby_step.Buffer.{Buffer, IsValid, writable_size, read_fd}
use net_server_stepby_step.Buffer.Contents.{Received, read_fd-Received}
use net_server_stepby_step.Epoller.{Epoller}
use net_server_stepby_step.TcpConnection.{disconnected}
use net_server_stepby_step.TcpServer.{erase_name, owns}
use net_server_stepby_step.TcpServer.Close.{put_self}
use net_server_stepby_step.Earlier.Polling.{Channel, Registered, disabled_all_events, handle_events}
use net_server_stepby_step.Earlier.Server.Close.{
  Unlisted, disabled-Unlisted, run_if_set, run_if_clear,
}
use net_server_stepby_step.Earlier.Buffered.{
  Conn, on_channel, take_down, receive, set_input, set_kernel,
}
use net_server_stepby_step.Earlier.Buffered.Server.{
  World, link, set_link, on_conn, release, channel_of, remove_connection, handle_close, after_read,
  handle_read, conn_events,
}

module _ (os : Os) where
  -- What closing leaves.
  pub record Ended (w : World os.Kernel) (p : ℕ) (c : Conn) (w' : World os.Kernel) : Type 0 where
    pub gone : w'.conns p ≡ none
    pub others : (q : ℕ) → q ≢ p → w'.conns q ≡ w.conns q
    pub unlisted : Unlisted os c.channel.fd w.poller w'.poller
    pub table : w'.table ≡ erase_name c.name w.table

module _ (os : Os) (laws : OsLaws os)
    (connection_callback message_callback : ℕ → World os.Kernel → Outcome (World os.Kernel))
    (quiet : (p : ℕ) (w : World os.Kernel) → connection_callback p w ≡ done w) where
  module _ (w : World os.Kernel) (p : ℕ) (c : Conn) (e : w.conns p ≡ some c)
      (owned : owns (erase_name c.name w.table) p ≡ false) where
    -- The world after the channel is down, and after the removal.
    abbrev downed : Channel × Epoller os.Kernel → World os.Kernel
    downed t =
        set_link w p
          (record { conn = record c { state = disconnected; channel = t.0 }; poller = t.1 })

    abbrev left : Channel × Epoller os.Kernel → World os.Kernel
    left t = record (downed t) {
      table = erase_name c.name w.table;
      conns = λ q. if q == p then none else (downed t).conns q;
    }

    removed :
        (t : Channel × Epoller os.Kernel)
        → (remove_connection os connection_callback message_callback p (downed t) >>= λ w₃.
            done (release p w₃))
          ≡ done (left t)
    unfolding remove_connection release
    removed t = rw (==-self p) (rw owned refl)

    handle_close_lem :
        handle_close os connection_callback message_callback p w
        ≡ (disabled_all_events os w.poller c.channel >>= λ t. done (left t))
    unfolding handle_close on_conn take_down on_channel
    handle_close_lem = simp e (go (disabled_all_events os w.poller c.channel))
      where
        go :
            (o : Registered os)
            → (((o >>= λ t. done (record {
              conn = record c { state = disconnected; channel = t.0 };
              poller = t.1;
            }))
                  >>= λ l. done (set_link w p l))
                >>= λ w₁. connection_callback p w₁ >>= λ w₂.
                    remove_connection os connection_callback message_callback p w₂ >>= λ w₃.
                    done (release p w₃))
              ≡ (o >>= λ t. done (left t))
        go (done t) = rw (quiet p (downed t)) (removed t)
        go (failed f) = refl

    close-Ended :
        (m : ℕ)
        → c.channel.polling ≡ true
        → os.interest w.poller.kernel c.channel.fd ≡ some m
        → Returns (handle_close os connection_callback message_callback p w) (Ended os w p c)
    close-Ended m on listed = rw handle_close_lem (
        Returns-bind (λ t. Unlisted os c.channel.fd w.poller t.1) (Ended os w p c)
          (disabled_all_events os w.poller c.channel) _
          (disabled-Unlisted os laws w.poller c.channel m on listed)
          λ t u. record {
            gone = ap (λ b. if b then none else (downed t).conns p) (==-self p);
            others = λ q n.
                ap (λ b. if b then none else (downed t).conns q) (ne→== q p n)
                ∙ ap
                    (λ b.
                      if b
                      then some (record c { state = disconnected; channel = t.0 })
                      else w.conns q)
                    (ne→== q p n);
            unlisted = u;
            table = refl;
          })

  module _ (w : World os.Kernel) (p : ℕ) (c : Conn) (e : w.conns p ≡ some c)
      (owned : owns (erase_name c.name w.table) p ≡ false) (on : c.channel.polling ≡ true) (m : ℕ)
      (listed : os.interest w.poller.kernel c.channel.fd ≡ some m) (v : IsValid c.input)
      (r : (os.readv w.poller.kernel c.channel.fd (writable_size c.input)).0 ≡ some []) where
    abbrev read_world : Buffer → World os.Kernel
    read_world b = set_link w p (
        set_input
          (set_kernel (link w c) (os.readv w.poller.kernel c.channel.fd (writable_size c.input)).1)
          b)

    closes :
        (w₁ : World os.Kernel)
        → after_read os connection_callback message_callback p (some 0) w₁
          ≡ handle_close os connection_callback message_callback p w₁
    unfolding after_read
    closes w₁ = refl

    handle_read_lem :
        (b : Buffer) × (handle_read os connection_callback message_callback p w
          ≡ handle_close os connection_callback message_callback p (read_world b))
    unfolding handle_read receive
    handle_read_lem =
        let (t, d, g) =
          Returns-done (Received c.input []) (read_fd c.input (some []))
            (read_fd-Received c.input [] v (omega (arith, v.in_bounds, v.small))) in
        let same : after_read os connection_callback message_callback p t.0 (read_world t.1)
            ≡ handle_close os connection_callback message_callback p (read_world t.1) =
          ap (λ n. after_read os connection_callback message_callback p n (read_world t.1)) g.0
          ∙ closes (read_world t.1) in
        (t.1, rw e (rw r (rw d same)))

    -- The read itself changes only the input buffer.
    before_read :
        (b : Buffer) (w' : World os.Kernel)
        → Ended os (read_world b) p (record c { input = b }) w'
        → Ended os w p c w'
    before_read b w' g =
        let same = laws.readv_interest w.poller.kernel c.channel.fd (writable_size c.input) in
        record {
          gone = g.gone;
          others = λ q n.
              g.others q n
              ∙ ap (λ b'. if b' then some (record c { input = b }) else w.conns q) (ne→== q p n);
          unlisted = (g.unlisted.0, λ j n. g.unlisted.1 j n ∙ same j);
          table = g.table;
        }

    -- When the peer of a connection of v1.5 closes its end, so that epoll returns EPOLLIN without
    -- EPOLLHUP and readv(2) gives no byte, the connection is closed without a fault: its object is
    -- gone, its entry is out of the map and its descriptor out of the interest list, and all others
    -- are as they were. (The user's callback returns and changes nothing, the map owns the object
    -- under its name alone, the channel is polled, and the input buffer is valid.)
    pub conn_events-Ended :
        has c.channel.revents epollin ≡ true
        → has c.channel.revents epollhup ≡ false
        → Returns (conn_events os connection_callback message_callback p w) (Ended os w p c)
    unfolding conn_events handle_events
    conn_events-Ended inn calm =
        let at_p = ap channel_of e in
        let (b, same) = handle_read_lem in
        let c₁ : Conn = record c { input = b } in
        let room = writable_size c.input in
        let (w', d, g) =
          Returns-done (Ended os (read_world b) p c₁)
            (handle_close os connection_callback message_callback p (read_world b))
            (close-Ended (read_world b) p c₁ (put_self w.conns p c₁) owned m on
              (laws.readv_interest w.poller.kernel c.channel.fd room c.channel.fd ∙ listed)) in
        rw (run_if_clear _ _ epollhup _ w c.channel at_p calm)
          (rw (run_if_set _ _ epollin _ w c.channel at_p inn) (rw (same ∙ d) (before_read b w' g)))
