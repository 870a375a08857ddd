-- ===== src/TcpServer/Events/Dispatch.antt =====
-- `Channel::handleEvents` of a connection of a consistent server, where no callback closes it.
use net_server_stepby_step.Base.{
  subst, ℕ, ◌<◌, ◌≡◌, refl, sym, List, Bool, true, false, Bool-cases, inl, inr, some, length, has,
  epollin, epollout, epollhup, Outcome, Returns, Returns-bind, Returns-mono, ◌>>=◌,
}
use net_server_stepby_step.Os.{Os, OsLaws}
use net_server_stepby_step.Channel.{set_return_events}
use net_server_stepby_step.Channel.Dispatch.{run_if, handle_events}
use net_server_stepby_step.TcpConnection.{Conn, handle_write, outgoing}
use net_server_stepby_step.TcpConnection.Drain.{Progress, outgoing_some}
use net_server_stepby_step.TcpServer.{
  World, link, set_link, on_conn, handle_read, handle_close, conn_channel, conn_callbacks,
  conn_events,
}
use net_server_stepby_step.TcpServer.Lifetime.{run_if-set, run_if-clear}
use net_server_stepby_step.TcpServer.Invariant.{Consistent}
use net_server_stepby_step.TcpServer.Invariant.Renewal.{Renewed-Consistent}
use net_server_stepby_step.TcpServer.Events.Keeping.{Keeps, Keeps-refl, Keeps-trans}
use net_server_stepby_step.TcpServer.Events.Handlers.{handle_write-Keeps}
use net_server_stepby_step.TcpServer.Events.Arrivals.{read_answer, Arrives, handle_read-Keeps}

module _ (os : Os) (reserved : ℕ → Bool) where
  -- The world in which `poll` has stored the events of a connection.
  abbrev pub returned : World os.Kernel → ℕ → Conn → ℕ → World os.Kernel
  returned w p c ev =
      set_link w p
        (record { conn = record c { channel = set_return_events c.channel ev }; poller = w.poller })

  -- It is consistent if the world was.
  pub returned-Consistent :
      (w : World os.Kernel) (p : ℕ) (c : Conn) (ev : ℕ)
      → Consistent os reserved w
      → w.conns p ≡ some c
      → Consistent os reserved (returned w p c ev)
  returned-Consistent w p c ev s e =
      let h = s.healthy p c e in
      Renewed-Consistent os reserved w p c s e
        (record { conn = record c { channel = set_return_events c.channel ev }; poller = w.poller })
        (record {
          watched = record {
            sound = record {
              pollable = h.watched.sound.pollable;
              synced = h.watched.sound.synced;
              mask = h.watched.sound.mask;
              valid = h.watched.sound.valid;
            };
            watching = h.watched.watching;
          };
          input = h.input;
          state = refl;
          name = refl;
          fd = refl;
          entries = λ j n. refl;
        })

module _ (os : Os) (laws : OsLaws os) (reserved : ℕ → Bool)
    (connection_callback message_callback : ℕ → World os.Kernel → Outcome (World os.Kernel))
    (answers : (p : ℕ) (w : World os.Kernel) (c : Conn)
      → Consistent os reserved w
      → w.conns p ≡ some c
      → Returns (message_callback p w) (Keeps os reserved w))
    (flows : (k : os.Kernel) (fd : ℕ) (xs : List ℕ) → 0 < length xs → Progress (os.write k fd xs).0)
    (p : ℕ) where
  -- One test of `revents_` whose callback keeps every connection.
  run_if-Keeps :
      (bit : ℕ) (f : World os.Kernel → Outcome (World os.Kernel)) (w : World os.Kernel) (c : Conn)
      → Consistent os reserved w
      → w.conns p ≡ some c
      → (has c.channel.revents bit ≡ true → Returns (f w) (Keeps os reserved w))
      → Returns
          (run_if
            (conn_channel p)
            (conn_callbacks os connection_callback message_callback p)
            bit
            (some f)
            w)
          (Keeps os reserved w)
  run_if-Keeps bit f w c s e h = elim (Bool-cases (has c.channel.revents bit)) [
    | inl on ↦
        subst (λ o. Returns o (Keeps os reserved w))
          (sym (run_if-set os laws connection_callback message_callback p w c bit f e on)) (h on)
    | inr off ↦
        subst (λ o. Returns o (Keeps os reserved w))
          (sym (run_if-clear os laws connection_callback message_callback p w c bit f e off))
          (Keeps-refl os reserved w s)
  ]

  writes-Keeps :
      (w : World os.Kernel) (c : Conn)
      → Consistent os reserved w
      → w.conns p ≡ some c
      → Returns (on_conn p (handle_write os) w) (Keeps os reserved w)
  writes-Keeps w c s e =
      handle_write-Keeps os laws reserved connection_callback message_callback w p c s e λ on.
        flows w.poller.kernel c.channel.fd (outgoing c.output)
          (outgoing_some os laws flows (link w c) (s.healthy p c e).watched on)

  -- `handleEvents` of a connection of a consistent server, on events without EPOLLHUP and, if they
  -- have EPOLLIN, when `readv` does not find the end of the stream.
  pub conn_events-Keeps :
      (w : World os.Kernel) (c : Conn)
      → Consistent os reserved w
      → w.conns p ≡ some c
      → has c.channel.revents epollhup ≡ false
      → (has c.channel.revents epollin ≡ true → Arrives c.input (read_answer os w c))
      → Returns (conn_events os connection_callback message_callback p w) (Keeps os reserved w)
  unfolding conn_events handle_events
  conn_events-Keeps w c s e calm arrives =
      let read = handle_read os connection_callback message_callback p in
      let write = on_conn p (handle_write os) in
      let cb = conn_callbacks os connection_callback message_callback p in
      subst
        (λ o.
          Returns
            (o >>= λ w₁. run_if (conn_channel p) cb epollin (some read) w₁ >>= λ w₂.
              run_if (conn_channel p) cb epollout (some write) w₂)
            (Keeps os reserved w))
        (sym (
          run_if-clear os laws connection_callback message_callback p w c epollhup
            (handle_close os connection_callback message_callback p) e calm))
        (Returns-bind (Keeps os reserved w) _ (run_if (conn_channel p) cb epollin (some read) w) _
          (run_if-Keeps epollin read w c s e λ inn.
            handle_read-Keeps os laws reserved connection_callback message_callback answers w p c s
              e _ refl (arrives inn))
          λ w₂ a. then_writes w₂ a)
    where
      then_writes :
          (w₂ : World os.Kernel)
          → Keeps os reserved w w₂
          → Returns
              (run_if
                (conn_channel p)
                (conn_callbacks os connection_callback message_callback p)
                epollout
                (some (on_conn p (handle_write os)))
                w₂)
              (Keeps os reserved w)
      then_writes w₂ a =
          let (d, f, r) = a.alive p c e in
          Returns-mono (Keeps os reserved w₂) _ _
            (run_if-Keeps epollout (on_conn p (handle_write os)) w₂ d a.consistent f
              λ out. writes-Keeps w₂ d a.consistent f)
            (λ w₃ b. Keeps-trans os reserved w w₂ w₃ a b)
