-- ===== src/TcpServer/Events/Arrivals.antt =====
-- `handleRead` of a consistent server: an error, the end of the stream, and bytes.
use net_server_stepby_step.Base.{
  ℕ, ◌+◌, ◌≤◌, ◌≡◌, refl, ◌∙◌, sym, ap, arith, List, [], ◌∷◌, Bool, Option, none, some, length,
  Outcome, done, Returns, Returns-done, Returns-mono, subst,
}
use net_server_stepby_step.Os.{Os, OsLaws}
use net_server_stepby_step.Buffer.{Buffer, IsValid, max_size, writable_size, read_fd}
use net_server_stepby_step.Buffer.Contents.{Received, read_fd-Received}
use net_server_stepby_step.TcpConnection.{Conn, receive}
use net_server_stepby_step.TcpServer.{World, handle_close, handle_read, after_read}
use net_server_stepby_step.TcpServer.Close.{put_self}
use net_server_stepby_step.TcpServer.Reading.{handle_read-Delivered}
use net_server_stepby_step.TcpServer.Invariant.{Consistent}
use net_server_stepby_step.TcpServer.Events.Keeping.{Keeps, Keeps-trans}
use net_server_stepby_step.TcpServer.Events.Handlers.{
  read_world, read_world-Consistent, read_world-Keeps, handle_close-Consistent,
}

-- What was read fits behind the bytes that wait.
abbrev pub Fits : Buffer → Option (List ℕ) → Type 0
Fits b none = Unit {0}
Fits b (some []) = Unit {0}
Fits b (some (x ∷ xs)) = b.write_index + length (x ∷ xs) ≤ max_size

-- What `readv` answers the next read of a connection.
abbrev pub read_answer : (os : Os) → World os.Kernel → Conn → Option (List ℕ)
read_answer os w c = (os.readv w.poller.kernel c.channel.fd (writable_size c.input)).0

module _ (os : Os) (laws : OsLaws os) (reserved : ℕ → Bool)
    (connection_callback message_callback : ℕ → World os.Kernel → Outcome (World os.Kernel))
    (w : World os.Kernel) (p : ℕ) (c : Conn) (s : Consistent os reserved w)
    (e : w.conns p ≡ some c) where
  -- An error of `readv` changes nothing but the kernel.
  handle_read-failed :
      read_answer os w c ≡ none
      → handle_read os connection_callback message_callback p w
        ≡ done (read_world os laws reserved connection_callback message_callback w p c s e c.input)
  unfolding handle_read receive read_fd after_read
  handle_read-failed r = rw e (rw r refl)

module _ (os : Os) (laws : OsLaws os) (reserved : ℕ → Bool)
    (connection_callback message_callback : ℕ → World os.Kernel → Outcome (World os.Kernel))
    (quiet : (p : ℕ) (w : World os.Kernel) → connection_callback p w ≡ done w)
    (answers : (p : ℕ) (w : World os.Kernel) (c : Conn)
      → Consistent os reserved w
      → w.conns p ≡ some c
      → Returns (message_callback p w) (Consistent os reserved))
    (w : World os.Kernel) (p : ℕ) (c : Conn) (s : Consistent os reserved w)
    (e : w.conns p ≡ some c) where
  -- The world after a read, with the bytes in the buffer `b`.
  abbrev after_read_world : Buffer → World os.Kernel
  after_read_world b = read_world os laws reserved connection_callback message_callback w p c s e b

  after_read_world-Consistent :
      (b : Buffer) → IsValid b → Consistent os reserved (after_read_world b)
  after_read_world-Consistent b v =
      read_world-Consistent os laws reserved connection_callback message_callback w p c s e b v

  -- The end of the stream closes the connection.
  handle_read-closes :
      read_answer os w c ≡ some []
      → (b : Buffer) × IsValid b
        × (handle_read os connection_callback message_callback p w
            ≡ handle_close os connection_callback message_callback p (after_read_world b))
  unfolding handle_read receive
  handle_read-closes r =
      let v = (s.healthy p c e).input in
      let (t, d, g) =
        Returns-done (Received c.input []) (read_fd c.input (some []))
          (read_fd-Received c.input [] v (omega (arith, v.in_bounds, v.small))) in
      let same : after_read os connection_callback message_callback p t.0 (after_read_world t.1)
          ≡ handle_close os connection_callback message_callback p (after_read_world t.1) =
        ap (λ n. after_read os connection_callback message_callback p n (after_read_world t.1)) g.0
        ∙ (unfold after_read in refl) in
      (t.1, g.1.valid, rw e (rw r (rw d same)))

  read_cases :
      (o : Option (List ℕ))
      → read_answer os w c ≡ o
      → Fits c.input o
      → Returns (handle_read os connection_callback message_callback p w) (Consistent os reserved)
  read_cases none r k =
      subst (λ o. Returns o (Consistent os reserved))
        (sym (handle_read-failed os laws reserved connection_callback message_callback w p c s e r))
        (after_read_world-Consistent c.input (s.healthy p c e).input)
  read_cases (some []) r k =
      let (b, v, h) = handle_read-closes r in
      subst (λ o. Returns o (Consistent os reserved)) (sym h)
        (handle_close-Consistent os laws reserved connection_callback message_callback
          (after_read_world b) p (record c { input = b }) (after_read_world-Consistent b v)
          (put_self w.conns p (record c { input = b })) quiet)
  read_cases (some (x ∷ xs)) r k =
      let (b, a, h) =
        handle_read-Delivered os connection_callback message_callback w p c e x xs
          (s.healthy p c e).input k r in
      subst (λ o. Returns o (Consistent os reserved)) (sym h)
        (answers p (after_read_world b) (record c { input = b })
          (after_read_world-Consistent b a.valid) (put_self w.conns p (record c { input = b })))

  -- `handleRead` of a connection of a consistent server returns and leaves the server consistent,
  -- whatever `readv` answers: an error, the end of the stream, at which the connection is closed, or
  -- bytes that fit into the input buffer. (The connection callback returns and changes nothing, and
  -- the message callback, on a live connection, returns and keeps the server consistent.)
  pub handle_read-Consistent :
      Fits c.input (read_answer os w c)
      → Returns (handle_read os connection_callback message_callback p w) (Consistent os reserved)
  handle_read-Consistent k = read_cases (read_answer os w c) refl k

-- Bytes that fit, or an error, but not the end of the stream.
abbrev pub Arrives : Buffer → Option (List ℕ) → Type 0
Arrives b none = Unit {0}
Arrives b (some []) = ⊥
Arrives b (some (x ∷ xs)) = b.write_index + length (x ∷ xs) ≤ max_size

module _ (os : Os) (laws : OsLaws os) (reserved : ℕ → Bool)
    (connection_callback message_callback : ℕ → World os.Kernel → Outcome (World os.Kernel))
    (answers : (p : ℕ) (w : World os.Kernel) (c : Conn)
      → Consistent os reserved w
      → w.conns p ≡ some c
      → Returns (message_callback p w) (Keeps os reserved w))
    (w : World os.Kernel) (p : ℕ) (c : Conn) (s : Consistent os reserved w)
    (e : w.conns p ≡ some c) where
  -- A read that does not close keeps every connection.
  pub handle_read-Keeps :
      (o : Option (List ℕ))
      → read_answer os w c ≡ o
      → Arrives c.input o
      → Returns (handle_read os connection_callback message_callback p w) (Keeps os reserved w)
  handle_read-Keeps none r k =
      subst (λ o. Returns o (Keeps os reserved w))
        (sym (handle_read-failed os laws reserved connection_callback message_callback w p c s e r))
        (read_world-Keeps os laws reserved connection_callback message_callback w p c s e c.input
          (s.healthy p c e).input)
  handle_read-Keeps (some []) r k = absurd k
  handle_read-Keeps (some (x ∷ xs)) r k =
      let (b, a, h) =
        handle_read-Delivered os connection_callback message_callback w p c e x xs
          (s.healthy p c e).input k r in
      let w₁ = read_world os laws reserved connection_callback message_callback w p c s e b in
      let first =
        read_world-Keeps os laws reserved connection_callback message_callback w p c s e b
          a.valid in
      subst (λ o. Returns o (Keeps os reserved w)) (sym h)
        (Returns-mono (Keeps os reserved w₁) (Keeps os reserved w) (message_callback p w₁)
          (answers p w₁ (record c { input = b }) first.consistent
            (put_self w.conns p (record c { input = b })))
          (λ w' second. Keeps-trans os reserved w w₁ w' first second))
