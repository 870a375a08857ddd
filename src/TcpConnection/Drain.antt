-- ===== src/TcpConnection/Drain.antt =====
-- Repeated write events empty the output buffer of a connection, whatever each `::write` takes.
use net_server_stepby_step.Base.{
  ℕ, zero, suc, ◌<◌, ◌≤◌, ◌≡◌, refl, ◌∙◌, sym, ap, subst, arith, List, [], ◌∷◌, true, false,
  Bool-cases, inl, inr, Option, none, some, length, length-drop, Outcome, done, Returns,
  Returns-bind, Returns-mono, ◌>>=◌,
}
use net_server_stepby_step.Os.{Os, OsLaws}
use net_server_stepby_step.Buffer.{contents, readable_size}
use net_server_stepby_step.Buffer.Bounds.{length-contents}
use net_server_stepby_step.Channel.{is_writing}
use net_server_stepby_step.TcpConnection.{Link, is_disconnecting, outgoing, handle_write}
use net_server_stepby_step.TcpConnection.Invariant.{
  Watched, Kept, Kept-refl, Kept-trans, pending, has_output, outgoing-contents,
}
use net_server_stepby_step.TcpConnection.Write.{Flushed, handle_write-Flushed}

-- `::write` takes at least one byte.
abbrev pub Progress : Option ℕ → Type 0
Progress none = ⊥
Progress (some zero) = ⊥
Progress (some (suc n)) = Unit {0}

-- So many EPOLLOUT events, one after the other.
unfoldable pub write_events : (os : Os) → ℕ → Link os.Kernel → Outcome (Link os.Kernel)
write_events os zero l = done l
write_events os (suc n) l = do l' ← handle_write os l; write_events os n l'

module _ (os : Os) where
  -- Nothing waits any more, and all of it was accepted.
  pub record Drained (l l' : Link os.Kernel) : Type 0 where
    pub watched : Watched os l'
    pub empty : contents l'.conn.output ≡ []
    pub same : pending os l' ≡ pending os l
    pub state : l'.conn.state ≡ l.conn.state
    pub kept : Kept os l l'

-- A list without elements.
empty_lem : (xs : List ℕ) → length xs ≤ 0 → xs ≡ []
empty_lem [] h = refl
empty_lem (x ∷ xs) h = absurd (omega arith)

module _ (os : Os) (laws : OsLaws os)
    (flows : (k : os.Kernel) (fd : ℕ) (xs : List ℕ)
      → 0 < length xs
      → Progress (os.write k fd xs).0) where
  -- While EPOLLOUT is watched for there is something to write.
  pub outgoing_some :
      (l : Link os.Kernel)
      → Watched os l
      → is_writing l.conn.channel ≡ true
      → 0 < length (outgoing l.conn.output)
  outgoing_some l w on =
      let some_left : has_output l.conn.output ≡ true = sym w.watching ∙ on in
      let valid = w.sound.valid in
      let size : 0 < readable_size l.conn.output = ground arith in
      omega (arith, size, length-contents valid, ap length (outgoing-contents l.conn.output valid))

  -- A write event leaves fewer bytes.
  record Fewer (l l' : Link os.Kernel) : Type 0 where
    watched : Watched os l'
    fewer : length (contents l'.conn.output) < length (contents l.conn.output)
    same : pending os l' ≡ pending os l
    state : l'.conn.state ≡ l.conn.state
    kept : Kept os l l'

  handle_write-Fewer :
      (l : Link os.Kernel)
      → Watched os l
      → is_writing l.conn.channel ≡ true
      → is_disconnecting l.conn.state ≡ false
      → Returns (handle_write os l) (Fewer l)
  handle_write-Fewer l w on st =
      go _ refl
        (flows l.poller.kernel l.conn.channel.fd (outgoing l.conn.output) (outgoing_some l w on))
    where
      go :
          (o : Option ℕ)
          → (os.write l.poller.kernel l.conn.channel.fd (outgoing l.conn.output)).0 ≡ o
          → Progress o
          → Returns (handle_write os l) (Fewer l)
      go none e p = absurd p
      go (some zero) e p = absurd p
      go (some (suc n)) e p =
          Returns-mono (Flushed os l (suc n)) _ _ (handle_write-Flushed os laws l n w on st e)
            λ l' f. record {
              watched = f.watched;
              fewer = omega (
                arith,
                ap length f.rest,
                length-drop (suc n) (contents l.conn.output),
                outgoing_some l w on,
                ap length (outgoing-contents l.conn.output w.sound.valid),
              );
              same = f.same;
              state = f.state;
              kept = f.kept;
            }

  -- A connection that does not wait for EPOLLOUT has nothing to write.
  idle_empty :
      (l : Link os.Kernel)
      → Watched os l
      → is_writing l.conn.channel ≡ false
      → length (contents l.conn.output) ≤ 0
  idle_empty l w off =
      let none_left : has_output l.conn.output ≡ false = sym w.watching ∙ off in
      let size : readable_size l.conn.output ≡ 0 = ground arith in
      omega (arith, size, length-contents w.sound.valid)

  idle_lem : (l : Link os.Kernel) → is_writing l.conn.channel ≡ false → handle_write os l ≡ done l
  unfolding handle_write
  idle_lem l off = rw off refl

  -- As many write events as there are bytes waiting are enough: afterwards the output buffer is
  -- empty, all that waited has been accepted behind what had been, in order, and EPOLLOUT is not
  -- watched for. (Each `::write` takes some byte of what it is given, the connection waited for
  -- EPOLLOUT exactly while bytes waited, and it is not DISCONNECTING.)
  pub write_events-Drained :
      (n : ℕ) (l : Link os.Kernel)
      → Watched os l
      → is_disconnecting l.conn.state ≡ false
      → length (contents l.conn.output) ≤ n
      → Returns (write_events os n l) (Drained os l)
  unfolding write_events
  write_events-Drained zero l w st h = record {
    watched = w;
    empty = empty_lem (contents l.conn.output) h;
    same = refl;
    state = refl;
    kept = Kept-refl os l;
  }
  write_events-Drained (suc n) l w st h = elim (Bool-cases (is_writing l.conn.channel)) [
    | inl on ↦
        Returns-bind (Fewer l) (Drained os l) (handle_write os l) (write_events os n)
          (handle_write-Fewer l w on st)
          λ l' f.
            Returns-mono (Drained os l') _ _
              (write_events-Drained n l' f.watched (ap is_disconnecting f.state ∙ st)
                (omega (arith, f.fewer, h)))
              λ l'' d. record {
                watched = d.watched;
                empty = d.empty;
                same = d.same ∙ f.same;
                state = d.state ∙ f.state;
                kept = Kept-trans os l l' l'' f.kept d.kept;
              }
    | inr off ↦
        subst (λ o. Returns (o >>= write_events os n) (Drained os l)) (sym (idle_lem l off))
          (write_events-Drained n l w st (omega (arith, idle_empty l w off)))
  ]
