-- ===== src/Apps/Echo.antt =====
-- The echo server: the bytes that a connection reads go out on it, in order.
use net_server_stepby_step.Base.{
  ℕ, ◌+◌, ◌≤◌, ◌≡◌, ◌∙◌, sym, ap, List, [], ◌∷◌, ◌++◌, Bool, some, length, Returns, Returns-bind,
  Returns-mono, subst,
}
use net_server_stepby_step.Os.{Os, OsLaws}
use net_server_stepby_step.Buffer.{
  Buffer, IsValid, contents, retrieve_as_string, max_size, writable_size,
}
use net_server_stepby_step.Buffer.Bounds.{Appended}
use net_server_stepby_step.Buffer.Contents.{retrieve_as_string-Taken}
use net_server_stepby_step.TcpConnection.{Conn, Link, set_input, send}
use net_server_stepby_step.TcpConnection.Invariant.{Watched, pending}
use net_server_stepby_step.TcpConnection.Send.{Sent, send-Sent}
use net_server_stepby_step.TcpServer.{World, link, handle_read}
use net_server_stepby_step.TcpServer.Close.{put_self, on_conn_lem}
use net_server_stepby_step.TcpServer.Reading.{handle_read-Delivered}
use net_server_stepby_step.TcpServer.Invariant.{Consistent}
use net_server_stepby_step.TcpServer.Invariant.Renewal.{Renewed, Renewed-Consistent}
use net_server_stepby_step.TcpServer.Events.Handlers.{read_world, read_world-Consistent}
use net_server_stepby_step.Apps.{on_connection, echoes, echo_message}

module _ (os : Os) (reserved : ℕ → Bool) where
  -- What an echo leaves of the connection.
  record Returned (w : World os.Kernel) (c : Conn) (l : Link os.Kernel) : Type 0 where
    renewed : Renewed os reserved w c l
    empty : contents l.conn.input ≡ []
    sent : pending os l ≡ pending os (link w c) ++ contents c.input

  -- The server after the bytes `xs` came for the connection `c` at `p`.
  pub record Echoed (w : World os.Kernel) (p : ℕ) (c : Conn) (xs : List ℕ) (w' : World os.Kernel)
      : Type 0 where
    pub conn : Conn
    pub stored : w'.conns p ≡ some conn
    pub empty : contents conn.input ≡ []
    pub sent : pending os (link w' conn) ≡ pending os (link w c) ++ (contents c.input ++ xs)
    pub consistent : Consistent os reserved w'

module _ (os : Os) (laws : OsLaws os) (reserved : ℕ → Bool) where
  echoes-Returned :
      (w : World os.Kernel) (p : ℕ) (c : Conn)
      → Consistent os reserved w
      → w.conns p ≡ some c
      → c.output.write_index + length (contents c.input) ≤ max_size
      → Returns (echoes os (link w c)) (Returned os reserved w c)
  unfolding echoes
  echoes-Returned w p c s e k =
      let h = s.healthy p c e in
      Returns-bind
        (λ t.
          (t.0 ≡ contents c.input)
          × IsValid t.1
          × (contents t.1 ≡ [])
          × (t.1.write_index ≤ c.input.write_index))
        _ (retrieve_as_string c.input) _ (retrieve_as_string-Taken c.input h.input)
        λ t g.
          let l = set_input (link w c) t.1 in
          let watched : Watched os l = record {
            sound = record {
              pollable = h.watched.sound.pollable;
              synced = h.watched.sound.synced;
              mask = h.watched.sound.mask;
              valid = h.watched.sound.valid;
            };
            watching = h.watched.watching;
          } in
          Returns-mono (Sent os l t.0) _ (send os l t.0)
            (send-Sent os laws l t.0 watched
              (subst (λ m. c.output.write_index + length m ≤ max_size) (sym g.0) k))
            λ l' v. record {
              renewed = record {
                watched = v.watched;
                input = subst IsValid (sym v.kept.input) g.1;
                state = v.state;
                name = v.kept.name;
                fd = v.kept.fd;
                entries = v.kept.others;
              };
              empty = ap contents v.kept.input ∙ g.2;
              sent = v.sent ∙ ap (λ m. pending os (link w c) ++ m) g.0;
            }

  module _ (w : World os.Kernel) (p : ℕ) (c : Conn) (s : Consistent os reserved w)
      (e : w.conns p ≡ some c) where
    -- The message callback on the world after the read.
    echo_message-Echoed :
        (b : Buffer) (xs : List ℕ)
        → Appended c.input xs b
        → c.output.write_index + length (contents c.input ++ xs) ≤ max_size
        → Returns
            (echo_message os p
              (read_world os laws reserved (on_connection os) (echo_message os) w p c s e b))
            (Echoed os reserved w p c xs)
    unfolding echo_message
    echo_message-Echoed b xs a k =
        let w₁ = read_world os laws reserved (on_connection os) (echo_message os) w p c s e b in
        let c₁ = record c { input = b } in
        let s₁ =
          read_world-Consistent os laws reserved (on_connection os) (echo_message os) w p c s e b
            a.valid in
        let e₁ : w₁.conns p ≡ some c₁ = put_self w.conns p c₁ in
        subst (λ o. Returns o (Echoed os reserved w p c xs))
          (sym (on_conn_lem os laws (on_connection os) (echo_message os) w₁ p c₁ (echoes os) e₁))
          (Returns-bind (Returned os reserved w₁ c₁) _ (echoes os (link w₁ c₁)) _
            (echoes-Returned w₁ p c₁ s₁ e₁
              (subst (λ m. c.output.write_index + length m ≤ max_size) (sym a.same) k))
            λ l r. record {
              conn = l.conn;
              stored = put_self w₁.conns p l.conn;
              empty = r.empty;
              sent =
                  r.sent
                  ∙ ap (λ s. (s ++ contents c.output) ++ contents b)
                      (laws.readv_stream w.poller.kernel c.channel.fd (writable_size c.input)
                        c.channel.fd)
                  ∙ ap (λ m. pending os (link w c) ++ m) a.same;
              consistent = Renewed-Consistent os reserved w₁ p c₁ s₁ e₁ l r.renewed;
            })

    -- When the peer of a connection sends bytes, the echo server sends them back: `handleRead` with
    -- its callback returns; what the descriptor has accepted, with what waits in the output buffer
    -- behind it, has grown by what was in the input buffer and the new bytes, in order, the input
    -- buffer is empty, and the server is consistent. (The server was consistent, and there is room
    -- for the bytes in both buffers.)
    pub handle_read-Echoed :
        (x : ℕ) (xs : List ℕ)
        → (os.readv w.poller.kernel c.channel.fd (writable_size c.input)).0 ≡ some (x ∷ xs)
        → c.input.write_index + length (x ∷ xs) ≤ max_size
        → c.output.write_index + length (contents c.input ++ x ∷ xs) ≤ max_size
        → Returns
            (handle_read os (on_connection os) (echo_message os) p w)
            (Echoed os reserved w p c (x ∷ xs))
    handle_read-Echoed x xs r fits room =
        let (b, a, h) =
          handle_read-Delivered os (on_connection os) (echo_message os) w p c e x xs
            (s.healthy p c e).input fits r in
        subst (λ o. Returns o (Echoed os reserved w p c (x ∷ xs))) (sym h)
          (echo_message-Echoed b (x ∷ xs) a room)
