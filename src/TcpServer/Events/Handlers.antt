-- ===== src/TcpServer/Events/Handlers.antt =====
-- Each handler of a server, run where its event can come, returns and keeps the invariant.
use net_server_stepby_step.Base.{
  ℕ, zero, suc, ◌+◌, ◌≤◌, ◌≡◌, refl, ◌∙◌, sym, ap, List, Bool, true, false, Bool-cases, inl, inr,
  Option, none, some, length, Outcome, done, Returns, Returns-bind, Returns-mono, subst,
}
use net_server_stepby_step.Os.{Os, OsLaws}
use net_server_stepby_step.Buffer.{Buffer, IsValid, max_size, writable_size}
use net_server_stepby_step.Channel.{is_writing}
use net_server_stepby_step.TcpConnection.{
  Conn, Link, is_disconnecting, handle_write, send, outgoing, set_input, set_kernel,
}
use net_server_stepby_step.TcpConnection.Invariant.{Watched, Kept}
use net_server_stepby_step.TcpConnection.Send.{Sent, send-Sent}
use net_server_stepby_step.TcpConnection.Write.{Flushed, handle_write-Flushed}
use net_server_stepby_step.TcpConnection.Drain.{Progress}
use net_server_stepby_step.TcpServer.{World, link, set_link, on_conn, handle_close}
use net_server_stepby_step.TcpServer.Table.{owns-erase_name}
use net_server_stepby_step.TcpServer.Close.{Closed, handle_close-Closed, on_conn_lem}
use net_server_stepby_step.TcpServer.Events.Keeping.{Keeps, set_link-Keeps}
use net_server_stepby_step.TcpServer.Invariant.{Consistent}
use net_server_stepby_step.TcpServer.Invariant.Renewal.{Renewed, Renewed-Consistent, only_name}
use net_server_stepby_step.TcpServer.Invariant.Closing.{Closed-Consistent}

module _ (os : Os) (laws : OsLaws os) (reserved : ℕ → Bool)
    (connection_callback message_callback : ℕ → World os.Kernel → Outcome (World os.Kernel))
    (w : World os.Kernel) (p : ℕ) (c : Conn) (s : Consistent os reserved w)
    (e : w.conns p ≡ some c) where
  pub Kept-Renewed :
      (l : Link os.Kernel)
      → Watched os l
      → l.conn.state ≡ c.state
      → Kept os (link w c) l
      → Renewed os reserved w c l
  Kept-Renewed l v st k = record {
    watched = v;
    input = subst IsValid (sym k.input) (s.healthy p c e).input;
    state = st;
    name = k.name;
    fd = k.fd;
    entries = k.others;
  }

  -- A method of the connection that renews it, and keeps the events that epoll returned.
  pub on_conn-Keeps :
      (f : Link os.Kernel → Outcome (Link os.Kernel))
      → Returns
          (f (link w c))
          (λ l. Renewed os reserved w c l × (l.conn.channel.revents ≡ c.channel.revents))
      → Returns (on_conn p f w) (Keeps os reserved w)
  on_conn-Keeps f h =
      subst (λ o. Returns o (Keeps os reserved w))
        (sym (on_conn_lem os laws connection_callback message_callback w p c f e))
        (Returns-bind
          (λ l. Renewed os reserved w c l × (l.conn.channel.revents ≡ c.channel.revents))
          (Keeps os reserved w) (f (link w c)) _ h
          (λ l r.
            set_link-Keeps os reserved w p c l e (Renewed-Consistent os reserved w p c s e l r.0)
              r.1))

  pub send-Keeps :
      (message : List ℕ)
      → c.output.write_index + length message ≤ max_size
      → Returns (on_conn p (λ l. send os l message) w) (Keeps os reserved w)
  send-Keeps message k =
      on_conn-Keeps (λ l. send os l message)
        (Returns-mono (Sent os (link w c) message) _ _
          (send-Sent os laws (link w c) message (s.healthy p c e).watched k)
          (λ l t. (Kept-Renewed l t.watched t.state t.kept, t.kept.revents)))

  connected_lem : is_disconnecting c.state ≡ false
  connected_lem = ap is_disconnecting (s.healthy p c e).state

  pub handle_write-Keeps :
      (is_writing c.channel ≡ true
        → Progress (os.write w.poller.kernel c.channel.fd (outgoing c.output)).0)
      → Returns (on_conn p (handle_write os) w) (Keeps os reserved w)
  handle_write-Keeps progress = elim (Bool-cases (is_writing c.channel)) [
    | inl on ↦ on_conn-Keeps (handle_write os) (writes on _ refl (progress on))
    | inr off ↦ on_conn-Keeps (handle_write os) (
        unfold handle_write in
        rw off (
          Kept-Renewed (link w c) (s.healthy p c e).watched refl (record {
            name = refl;
            fd = refl;
            input = refl;
            revents = refl;
            others = λ j n. refl;
          }),
          refl,
        ))
  ]
    where
      writes :
          is_writing c.channel ≡ true
          → (o : Option ℕ) → (os.write w.poller.kernel c.channel.fd (outgoing c.output)).0 ≡ o
          → Progress o
          → Returns
              (handle_write os (link w c))
              (λ l. Renewed os reserved w c l × (l.conn.channel.revents ≡ c.channel.revents))
      writes on none h g = absurd g
      writes on (some zero) h g = absurd g
      writes on (some (suc n)) h g =
          Returns-mono (Flushed os (link w c) (suc n)) _ _
            (handle_write-Flushed os laws (link w c) n (s.healthy p c e).watched on connected_lem h)
            (λ l f. (Kept-Renewed l f.watched f.state f.kept, f.kept.revents))

  -- The connection after a read, whose bytes are now in the buffer `b`.
  abbrev kernel_read : os.Kernel
  kernel_read = (os.readv w.poller.kernel c.channel.fd (writable_size c.input)).1

  abbrev after : Buffer → Link os.Kernel
  after b = set_input (set_kernel (link w c) kernel_read) b

  read-Renewed : (b : Buffer) → IsValid b → Renewed os reserved w c (after b)
  read-Renewed b v =
      let h = s.healthy p c e in
      let same = laws.readv_interest w.poller.kernel c.channel.fd (writable_size c.input) in
      record {
        watched = record {
          sound = record {
            pollable = h.watched.sound.pollable;
            synced = same c.channel.fd ∙ h.watched.sound.synced;
            mask = h.watched.sound.mask;
            valid = h.watched.sound.valid;
          };
          watching = h.watched.watching;
        };
        input = v;
        state = refl;
        name = refl;
        fd = refl;
        entries = λ j n. same j;
      }

  abbrev pub read_world : Buffer → World os.Kernel
  read_world b = set_link w p (after b)

  pub read_world-Consistent : (b : Buffer) → IsValid b → Consistent os reserved (read_world b)
  read_world-Consistent b v = Renewed-Consistent os reserved w p c s e (after b) (read-Renewed b v)

  -- Reading keeps every connection.
  pub read_world-Keeps : (b : Buffer) → IsValid b → Keeps os reserved w (read_world b)
  read_world-Keeps b v =
      set_link-Keeps os reserved w p c (after b) e (read_world-Consistent b v) refl

  module _ (quiet : (p : ℕ) (w : World os.Kernel) → connection_callback p w ≡ done w) where
    pub handle_close-Consistent :
        Returns (handle_close os connection_callback message_callback p w) (Consistent os reserved)
    handle_close-Consistent =
        let h = s.healthy p c e in
        Returns-mono (Closed os w p c) _ _
          (handle_close-Closed os laws connection_callback message_callback quiet w p c e
            h.watched.sound.pollable h.watched.sound.synced
            (owns-erase_name c.name w.table p s.keyed (only_name os reserved w p c s e)))
          (λ w' o. Closed-Consistent os reserved w w' p c s e o)
