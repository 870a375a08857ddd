-- ===== src/TcpServer/Close.antt =====
-- Closing a connection: `TcpConnection::handleClose` with `TcpServer::removeConnection` and
-- `TcpConnection::connectionDestroy`, and what `Channel::handleEvents` does after it.
use net_server_stepby_step.Base.{
  subst, ℕ, ◌≡◌, ◌≢◌, refl, ◌∙◌, ap, true, false, Option, none, some, ==-self, ne→==, if◌then◌else◌,
  failed, Outcome, done, Returns, Returns-bind, ◌>>=◌,
}
use net_server_stepby_step.Os.{Os, OsLaws}
use net_server_stepby_step.Channel.{Channel, is_none_event, set_events, no_event}
use net_server_stepby_step.Channel.Update.{disabled_all_events, remove}
use net_server_stepby_step.Channel.Registration.{
  Synced, Frame, Frame-trans, Updated, update-Updated, Removed, remove-Removed,
}
use net_server_stepby_step.Epoller.{Epoller, put}
use net_server_stepby_step.TcpConnection.{
  Conn, Link, disconnected, is_connected, on_channel, take_down,
}
use net_server_stepby_step.TcpServer.{
  World, set_link, link, on_conn, release, owns, erase_name, connection_destroy, remove_connection,
  handle_close,
}

pub put_self : {A : Type 0} (m : ℕ → Option A) (p : ℕ) (a : A) → put m p a p ≡ some a
put_self m p a = ap (λ b. if b then some a else m p) (==-self p)

pub bind_done :
    {A B C : Type 0} (P : C → Type 0) (m : Outcome A) (f : A → B) (g : B → Outcome C)
    → Returns (m >>= λ a. g (f a)) P
    → Returns ((m >>= λ a. done (f a)) >>= g) P
bind_done P (done a) f g h = h
bind_done P (failed e) f g h = h

module _ (os : Os) where
  -- A connection that has been taken down: no event is watched for, and status and interest list
  -- are in step.
  record Down (c : Conn) (p : Epoller os.Kernel) (l : Link os.Kernel) : Type 0 where
    name : l.conn.name ≡ c.name
    state : l.conn.state ≡ disconnected
    fd : l.conn.channel.fd ≡ c.channel.fd
    quiet : is_none_event l.conn.channel ≡ true
    synced : Synced os l.poller l.conn.channel
    frame : Frame os c.channel.fd p l.poller

  -- What closing the connection at `p` leaves.
  pub record Closed (w : World os.Kernel) (p : ℕ) (c : Conn) (w' : World os.Kernel) : Type 0 where
    pub gone : w'.conns p ≡ none
    pub others : (q : ℕ) → q ≢ p → w'.conns q ≡ w.conns q
    pub unwatched : os.interest w'.poller.kernel c.channel.fd ≡ none
    pub frame : Frame os c.channel.fd w.poller w'.poller
    pub table : w'.table ≡ erase_name c.name w.table
    pub index : w'.next_conn_idx ≡ w.next_conn_idx
    pub ip_port : w'.ip_port ≡ w.ip_port

module _ (os : Os) (laws : OsLaws os) where
  take_down-Down :
      (c : Conn) (p : Epoller os.Kernel)
      → os.pollable c.channel.fd ≡ true
      → Synced os p c.channel
      → Returns (take_down os (record { conn = c; poller = p })) (Down os c p)
  unfolding take_down disabled_all_events
  take_down-Down c p u s =
      Returns-bind (Updated os p (set_events c.channel no_event)) _ _ _
        (update-Updated os laws p c.channel no_event u s)
        λ t g. record {
          name = refl;
          state = refl;
          fd = ap (λ (c : Channel). c.fd) g.channel;
          quiet = rw g.channel refl;
          synced = g.synced;
          frame = g.frame;
        }

  -- What the removal of a channel that is down leaves of the world, the local `shared_ptr` gone.
  forget-Closed :
      (w : World os.Kernel) (p : ℕ) (c : Conn) (l : Link os.Kernel)
      → owns (erase_name c.name w.table) p ≡ false
      → Down os c w.poller l
      → (w₁ : World os.Kernel) → w₁ ≡ record (set_link w p l) { table = erase_name c.name w.table }
      → Returns
          (on_channel os (remove os) (record { conn = l.conn; poller = l.poller }) >>= λ l'.
            done (release p (set_link w₁ p l')))
          (Closed os w p c)
  unfolding on_channel release
  forget-Closed w p c l o d w₁ e =
      Returns-bind
        (λ (l' : Link os.Kernel).
          (os.interest l'.poller.kernel l.conn.channel.fd ≡ none)
          × Frame os l.conn.channel.fd l.poller l'.poller)
        _ _ _
        (Returns-bind (Removed os l.poller l.conn.channel) _ (remove os l.poller l.conn.channel) _
          (remove-Removed os laws l.poller l.conn.channel d.quiet d.synced)
          (λ t r. (r.absent, r.frame)))
        λ l' h. rw e (
          rw o (record {
            gone = ap (λ b. if b then none else put (put w.conns p l.conn) p l'.conn p) (==-self p);
            others = λ q n.
                ap (λ b. if b then none else put (put w.conns p l.conn) p l'.conn q) (ne→== q p n)
                ∙ ap (λ b. if b then some l'.conn else put w.conns p l.conn q) (ne→== q p n)
                ∙ ap (λ b. if b then some l.conn else w.conns q) (ne→== q p n);
            unwatched = subst (λ fd. os.interest l'.poller.kernel fd ≡ none) d.fd h.0;
            frame =
                Frame-trans os c.channel.fd w.poller l.poller l'.poller d.frame
                  (subst (λ fd. Frame os fd l.poller l'.poller) d.fd h.1);
            table = refl;
            index = refl;
            ip_port = refl;
          }))

  module _
      (connection_callback message_callback : ℕ → World os.Kernel → Outcome (World os.Kernel)) where
    remove_down :
        (w : World os.Kernel) (p : ℕ) (c : Conn)
        → w.conns p ≡ some c
        → is_connected c.state ≡ false
        → remove_connection os connection_callback message_callback p w ≡ (
            on_channel os (remove os) (link w c) >>= λ l.
            done (set_link (record w { table = erase_name c.name w.table }) p l))
    unfolding remove_connection connection_destroy on_conn
    remove_down w p c e st = simp (e, st)

    pub on_conn_lem :
        (w : World os.Kernel) (p : ℕ) (c : Conn) (f : Link os.Kernel → Outcome (Link os.Kernel))
        → w.conns p ≡ some c
        → on_conn p f w ≡ (f (link w c) >>= λ l. done (set_link w p l))
    unfolding on_conn
    on_conn_lem w p c f e = simp e

    module _ (quiet : (p : ℕ) (w : World os.Kernel) → connection_callback p w ≡ done w)
        (w : World os.Kernel) (p : ℕ) (c : Conn) (e : w.conns p ≡ some c)
        (pollable : os.pollable c.channel.fd ≡ true) (synced : Synced os w.poller c.channel)
        (owned : owns (erase_name c.name w.table) p ≡ false) where
      -- Closing a connection returns: its object is gone, its entry is out of the map and out of
      -- epoll's interest list, and every other object, descriptor and stream is as it was. (The
      -- callback of the user returns and changes nothing, and the map owns the object under its
      -- name alone.)
      pub handle_close-Closed :
          Returns (handle_close os connection_callback message_callback p w) (Closed os w p c)
      unfolding handle_close
      handle_close-Closed = rw (on_conn_lem w p c (take_down os) e) (
          bind_done (Closed os w p c) (take_down os (link w c)) (λ l. set_link w p l) _
            (Returns-bind (Down os c w.poller) _ (take_down os (link w c)) _
              (take_down-Down c w.poller pollable synced) finish))
        where
          finish :
              (l : Link os.Kernel)
              → Down os c w.poller l
              → Returns
                  (connection_callback p (set_link w p l) >>= λ w₂.
                    remove_connection os connection_callback message_callback p w₂ >>= λ w₃.
                    done (release p w₃))
                  (Closed os w p c)
          finish l d = rw (quiet p (set_link w p l)) (
              rw
                (remove_down (set_link w p l) p l.conn (put_self w.conns p l.conn)
                  (ap is_connected d.state))
                (bind_done (Closed os w p c)
                  (on_channel os (remove os) (link (set_link w p l) l.conn))
                  (λ l'.
                    set_link (record (set_link w p l) { table = erase_name l.conn.name w.table }) p
                      l')
                  (λ w₃. done (release p w₃))
                  (forget-Closed w p c l owned d
                    (record (set_link w p l) { table = erase_name l.conn.name w.table })
                    (ap (λ n. record (set_link w p l) { table = erase_name n w.table }) d.name))))
