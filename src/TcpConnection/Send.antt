-- ===== src/TcpConnection/Send.antt =====
-- `TcpConnection::send`: the bytes go out in order, none lost and none twice, however many of them
-- each write takes.
use net_server_stepby_step.Base.{
  ℕ, ◌+◌, ◌-◌, ◌<◌, ◌≤◌, ◌≡◌, refl, ◌∙◌, sym, ap, subst, List, [], ◌++◌, Bool, true, not, ◌&&◌,
  Bool-cases, inl, inr, Option, none, some, ltb, ltb→lt, ltb→le, length, take, drop, length-append,
  length-drop, drop_all, ◌⊎◌, take-append-drop, append-nil, append_assoc, ◌==◌, ==→eq, Returns,
  Returns-bind, Returns-mono, arith,
}
use net_server_stepby_step.Os.{Os, OsLaws, Accepts}
use net_server_stepby_step.Buffer.{Buffer, IsValid, contents, readable_size, append, max_size}
use net_server_stepby_step.Buffer.Bounds.{Appended, append-Appended, length-contents}
use net_server_stepby_step.Channel.{is_writing}
use net_server_stepby_step.TcpConnection.{
  Conn, Link, set_output, write_directly, queue_rest, send_rest, send,
}
use net_server_stepby_step.TcpConnection.Invariant.{
  Sound, Watched, Kept, Kept-trans, Rewatched, enabled_writable-Rewatched, pending, has_output,
}

module _ (os : Os) where
  -- What `send` leaves: the message behind what was pending.
  pub record Sent (l : Link os.Kernel) (message : List ℕ) (l' : Link os.Kernel) : Type 0 where
    pub watched : Watched os l'
    pub sent : pending os l' ≡ pending os l ++ message
    pub state : l'.conn.state ≡ l.conn.state
    pub kept : Kept os l l'

module _ (os : Os) (laws : OsLaws os) where
  Appended-output :
      (b : Buffer) (xs : List ℕ) (c : Buffer)
      → 0 < length xs
      → Appended b xs c
      → has_output c ≡ true
  Appended-output b xs c h a =
      let n : 0 < readable_size c =
        omega (
          arith,
          sym (length-contents a.valid) ∙ ap length a.same,
          length-append (contents b) xs,
        ) in
      ground arith

  pub queue_rest-Sent :
      (l : Link os.Kernel) (rest : List ℕ)
      → Sound os l
      → 0 < length rest
      → l.conn.output.write_index + length rest ≤ max_size
      → Returns (queue_rest os l rest) (Sent os l rest)
  unfolding queue_rest
  queue_rest-Sent l rest s h k =
      Returns-bind (Appended l.conn.output rest) _ (append l.conn.output rest) _
        (append-Appended l.conn.output rest s.valid k)
        λ b a.
          let l' = set_output l b in
          let kept : Kept os l l' = record {
            name = refl;
            fd = refl;
            input = refl;
            revents = refl;
            others = λ j n. refl;
          } in
          let s' : Sound os l' = record {
            pollable = s.pollable;
            synced = s.synced;
            mask = s.mask;
            valid = a.valid;
          } in
          let more : pending os l' ≡ pending os l ++ rest =
            ap (λ t. os.stream l.poller.kernel l.conn.channel.fd ++ t) a.same
            ∙ sym (append_assoc (os.stream l.poller.kernel l.conn.channel.fd) _ rest) in
          let waiting = Appended-output l.conn.output rest b h a in
          elim (Bool-cases (is_writing l.conn.channel)) [
            | inl on ↦ rw on (record {
              watched = record { sound = s'; watching = on ∙ sym waiting };
              sent = more;
              state = refl;
              kept = kept;
            })
            | inr off ↦ rw off (
                Returns-mono (Rewatched os l' true) _ _ (enabled_writable-Rewatched os laws l' s')
                  λ l'' w. record {
                    watched = record {
                      sound = w.sound;
                      watching = w.writing ∙ sym (ap has_output w.output ∙ waiting);
                    };
                    sent = w.same ∙ more;
                    state = w.state;
                    kept = Kept-trans os l l' l'' kept w.kept;
                  })
          ]

  -- The direct write: what it took went out behind what had gone out.
  record Direct (l : Link os.Kernel) (message : List ℕ) (t : ℕ × Link os.Kernel) : Type 0 where
    le : t.0 ≤ length message
    conn : t.1.conn ≡ l.conn
    sound : Sound os t.1
    others : (j : ℕ) → os.interest t.1.poller.kernel j ≡ os.interest l.poller.kernel j
    went :
        os.stream t.1.poller.kernel l.conn.channel.fd
        ≡ os.stream l.poller.kernel l.conn.channel.fd ++ take t.0 message

  write_directly-Direct :
      (l : Link os.Kernel) (message : List ℕ)
      → Sound os l
      → Direct l message (write_directly os l message)
  unfolding write_directly
  write_directly-Direct l message s =
      let (r, k) = os.write l.poller.kernel l.conn.channel.fd message in
      record {
        le = le_taken r k (laws.write_accepts l.poller.kernel l.conn.channel.fd message);
        conn = refl;
        sound = record {
          pollable = s.pollable;
          synced =
              laws.write_interest l.poller.kernel l.conn.channel.fd message l.conn.channel.fd
              ∙ s.synced;
          mask = s.mask;
          valid = s.valid;
        };
        others = laws.write_interest l.poller.kernel l.conn.channel.fd message;
        went = went_taken r k (laws.write_accepts l.poller.kernel l.conn.channel.fd message);
      }
    where
      le_taken :
          (r : Option ℕ) (k : os.Kernel)
          → Accepts os l.poller.kernel l.conn.channel.fd message r k
          → elim r as (λ _. ℕ) [ some n ↦ n | none ↦ 0 ] ≤ length message
      le_taken none k a = omega arith
      le_taken (some n) k a = a.0

      went_taken :
          (r : Option ℕ) (k : os.Kernel)
          → Accepts os l.poller.kernel l.conn.channel.fd message r k
          → os.stream k l.conn.channel.fd
            ≡ os.stream l.poller.kernel l.conn.channel.fd
              ++ take (elim r as (λ _. ℕ) [ some n ↦ n | none ↦ 0 ]) message
      went_taken none k a = a ∙ sym (append-nil _)
      went_taken (some n) k a = a.1

  empty_contents :
      (l : Link os.Kernel)
      → not (is_writing l.conn.channel) && (readable_size l.conn.output == 0) ≡ true
      → IsValid l.conn.output
      → contents l.conn.output ≡ []
  empty_contents l idle v =
      ap (λ n. take n (drop l.conn.output.read_index l.conn.output.bytes)) zero_length
    where
      none_left : (a b : Bool) → a && b ≡ true → b ≡ true
      none_left a b h = ground arith

      zero_length : l.conn.output.write_index - l.conn.output.read_index ≡ 0
      zero_length = omega (arith, ==→eq (readable_size l.conn.output) 0 (none_left _ _ idle))

  nothing-Direct : (l : Link os.Kernel) (message : List ℕ) → Sound os l → Direct l message (0, l)
  nothing-Direct l message s = record {
    le = omega arith;
    conn = refl;
    sound = s;
    others = λ j. refl;
    went = sym (append-nil _);
  }

  -- What went out directly and what is queued behind it is the message, if nothing waited or
  -- nothing went out.
  in_order :
      (before waiting message : List ℕ) (n : ℕ)
      → (waiting ≡ []) ⊎ (n ≡ 0)
      → ((before ++ take n message) ++ waiting) ++ drop n message ≡ (before ++ waiting) ++ message
  in_order before waiting message n (inl e) = rw (
    e,
    append-nil (before ++ take n message),
    append-nil before,
    append_assoc before (take n message) (drop n message),
    take-append-drop n message,
  )
  in_order before waiting message n (inr e) = rw (e, append-nil before)

  module _ (l : Link os.Kernel) (message : List ℕ) (t : ℕ × Link os.Kernel) (d : Direct l message t)
      (w : Watched os l) where
    Direct-output : t.1.conn.output ≡ l.conn.output
    Direct-output = ap (λ (c : Conn). c.output) d.conn

    Kept-Direct : Kept os l t.1
    Kept-Direct = record {
      name = ap (λ (c : Conn). c.name) d.conn;
      fd = ap (λ (c : Conn). c.channel.fd) d.conn;
      input = ap (λ (c : Conn). c.input) d.conn;
      revents = ap (λ (c : Conn). c.channel.revents) d.conn;
      others = λ j n. d.others j;
    }

    pending-Direct :
        (contents l.conn.output ≡ []) ⊎ (t.0 ≡ 0)
        → pending os t.1 ++ drop t.0 message ≡ pending os l ++ message
    pending-Direct o =
        ap (λ s. (s ++ contents t.1.conn.output) ++ drop t.0 message)
          (ap (λ (c : Conn). os.stream t.1.poller.kernel c.channel.fd) d.conn ∙ d.went)
        ∙ ap
            (λ c.
              ((os.stream l.poller.kernel l.conn.channel.fd ++ take t.0 message) ++ contents c)
              ++ drop t.0 message)
            Direct-output
        ∙ in_order (os.stream l.poller.kernel l.conn.channel.fd) (contents l.conn.output) message
            t.0 o

    send_rest-Sent :
        (contents l.conn.output ≡ []) ⊎ (t.0 ≡ 0)
        → l.conn.output.write_index + length message ≤ max_size
        → Returns (send_rest os t message) (Sent os l message)
    unfolding send_rest
    send_rest-Sent o k = elim (Bool-cases (ltb t.0 (length message))) [
      | inl part ↦ rw part (
          Returns-mono (Sent os t.1 (drop t.0 message)) _ _
            (queue_rest-Sent t.1 (drop t.0 message) d.sound
              (omega (arith, length-drop t.0 message, ltb→lt _ _ part))
              (omega
                (arith, length-drop t.0 message, ap (λ (b : Buffer). b.write_index) Direct-output)))
            λ l' s. record {
              watched = s.watched;
              sent = s.sent ∙ pending-Direct o;
              state = s.state ∙ ap (λ (c : Conn). c.state) d.conn;
              kept = Kept-trans os l t.1 l' Kept-Direct s.kept;
            })
      | inr whole ↦ rw whole (record {
        watched = record {
          sound = d.sound;
          watching =
              subst (λ c. is_writing c.channel ≡ has_output c.output) (sym d.conn) w.watching;
        };
        sent =
            sym (append-nil _)
            ∙ ap (λ s. pending os t.1 ++ s) (sym (drop_all t.0 message (ltb→le _ _ whole)))
            ∙ pending-Direct o;
        state = ap (λ (c : Conn). c.state) d.conn;
        kept = Kept-Direct;
      })
    ]

  -- `send` returns, whatever `::write` answers: what the descriptor has accepted, with what waits
  -- in the output buffer behind it, has grown by the message at its end; the channel waits for
  -- EPOLLOUT exactly while bytes wait, its status agrees with the interest list, and the state of
  -- the connection is as it was.
  pub send-Sent :
      (l : Link os.Kernel) (message : List ℕ)
      → Watched os l
      → l.conn.output.write_index + length message ≤ max_size
      → Returns (send os l message) (Sent os l message)
  unfolding send
  send-Sent l message w k =
      elim (Bool-cases (not (is_writing l.conn.channel) && (readable_size l.conn.output == 0))) [
        | inl idle ↦ rw idle (
            send_rest-Sent l message _ (write_directly-Direct l message w.sound) w
              (inl (empty_contents l idle w.sound.valid)) k)
        | inr busy ↦
            rw busy
              (send_rest-Sent l message (0, l) (nothing-Direct l message w.sound) w (inr refl) k)
      ]
