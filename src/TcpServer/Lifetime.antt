-- ===== src/TcpServer/Lifetime.antt =====
-- The life of a connection object under `Channel::handleEvents`, which goes on reading the channel
-- of the object after a callback has closed the connection.
use net_server_stepby_step.Base.{
  ℕ, ◌≡◌, refl, ◌∙◌, ap, [], true, false, none, some, has, epollin, epollhup, epollout, Outcome,
  done, failed, use_after_free, Returns-done, arith,
}
use net_server_stepby_step.Os.{Os, OsLaws}
use net_server_stepby_step.Buffer.{IsValid, writable_size, read_fd}
use net_server_stepby_step.Buffer.Contents.{Received, read_fd-Received}
use net_server_stepby_step.Channel.Dispatch.{run_if, handle_events}
use net_server_stepby_step.Channel.Registration.{Synced}
use net_server_stepby_step.TcpConnection.{Conn, receive, handle_write, set_input, set_kernel}
use net_server_stepby_step.TcpServer.{
  World, set_link, link, on_conn, owns, erase_name, handle_close, handle_read, after_read,
  conn_channel, conn_callbacks, conn_events,
}
use net_server_stepby_step.TcpServer.Close.{Closed, handle_close-Closed, put_self}

module _ (os : Os) (laws : OsLaws os)
    (connection_callback message_callback : ℕ → World os.Kernel → Outcome (World os.Kernel)) where
  -- The next test of `revents_` on an object that is gone.
  run_if-gone :
      (p : ℕ) (w : World os.Kernel) (bit : ℕ) (f : World os.Kernel → Outcome (World os.Kernel))
      → w.conns p ≡ none
      → run_if
          (conn_channel p)
          (conn_callbacks os connection_callback message_callback p)
          bit
          (some f)
          w
        ≡ failed use_after_free
  unfolding run_if
  run_if-gone p w bit f e = rw e

  pub run_if-set :
      (p : ℕ) (w : World os.Kernel) (c : Conn) (bit : ℕ)
      (f : World os.Kernel → Outcome (World os.Kernel))
      → w.conns p ≡ some c
      → has c.channel.revents bit ≡ true
      → run_if
          (conn_channel p)
          (conn_callbacks os connection_callback message_callback p)
          bit
          (some f)
          w
        ≡ f w
  unfolding run_if
  run_if-set p w c bit f e h = rw e (rw h)

  pub run_if-clear :
      (p : ℕ) (w : World os.Kernel) (c : Conn) (bit : ℕ)
      (f : World os.Kernel → Outcome (World os.Kernel))
      → w.conns p ≡ some c
      → has c.channel.revents bit ≡ false
      → run_if
          (conn_channel p)
          (conn_callbacks os connection_callback message_callback p)
          bit
          (some f)
          w
        ≡ done w
  unfolding run_if
  run_if-clear p w c bit f e h = rw e (rw h)

  module _ (quiet : (p : ℕ) (w : World os.Kernel) → connection_callback p w ≡ done w)
      (w : World os.Kernel) (p : ℕ) (c : Conn) (e : w.conns p ≡ some c)
      (pollable : os.pollable c.channel.fd ≡ true) (synced : Synced os w.poller c.channel)
      (owned : owns (erase_name c.name w.table) p ≡ false) where
    closes :
        (w₁ : World os.Kernel)
        → after_read os connection_callback message_callback p (some 0) w₁
          ≡ handle_close os connection_callback message_callback p w₁
    unfolding after_read
    closes w₁ = refl

    -- `handleRead` at the end of the stream closes the connection.
    handle_read-gone :
        IsValid c.input
        → (os.readv w.poller.kernel c.channel.fd (writable_size c.input)).0 ≡ some []
        → (w' : World os.Kernel) × (handle_read os connection_callback message_callback p w
            ≡ done w')
          × (w'.conns p ≡ none)
    unfolding handle_read receive
    handle_read-gone v r =
        let k = (os.readv w.poller.kernel c.channel.fd (writable_size c.input)).1 in
        let (t, d, g) =
          Returns-done (Received c.input []) (read_fd c.input (some []))
            (read_fd-Received c.input [] v (omega (arith, v.in_bounds, v.small))) in
        let w₁ = set_link w p (set_input (set_kernel (link w c) k) t.1) in
        let c₁ = record c { input = t.1 } in
        let (w', h, closed) =
          Returns-done (Closed os w₁ p c₁)
            (handle_close os connection_callback message_callback p w₁)
            (handle_close-Closed os laws connection_callback message_callback quiet w₁ p c₁
              (put_self w.conns p c₁) pollable
              (laws.readv_interest w.poller.kernel c.channel.fd (writable_size c.input) c.channel.fd
                ∙ synced)
              owned) in
        let same : after_read os connection_callback message_callback p t.0 w₁
            ≡ handle_close os connection_callback message_callback p w₁ =
          ap (λ n. after_read os connection_callback message_callback p n w₁) g.0 ∙ closes w₁ in
        (w', rw e (rw r (rw d (same ∙ h))), closed.gone)

    -- When a peer closes its end, so that epoll returns EPOLLIN without EPOLLHUP and `readv` gives
    -- no byte, `handleRead` closes the connection and destroys its object, and `handleEvents` then
    -- reads `revents_` of the channel that went with it. (The callback of the user returns and
    -- changes nothing, and keeps no `shared_ptr`.)
    pub conn_events_use_after_free :
        IsValid c.input
        → has c.channel.revents epollhup ≡ false
        → has c.channel.revents epollin ≡ true
        → (os.readv w.poller.kernel c.channel.fd (writable_size c.input)).0 ≡ some []
        → conn_events os connection_callback message_callback p w ≡ failed use_after_free
    unfolding conn_events handle_events
    conn_events_use_after_free v hup inn r =
        let (w', d, g) = handle_read-gone v r in
        rw
          (run_if-clear p w c epollhup (handle_close os connection_callback message_callback p) e
            hup)
          (rw
            (run_if-set p w c epollin (handle_read os connection_callback message_callback p) e inn)
            (rw d (run_if-gone p w' epollout (on_conn p (handle_write os)) g)))
