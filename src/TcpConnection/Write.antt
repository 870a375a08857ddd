-- ===== src/TcpConnection/Write.antt =====
-- `TcpConnection::handleWrite`: the output buffer drains in order, and an error of `::write` ends
-- the program.
use net_server_stepby_step.Base.{
  if◌then◌else◌, ◌↔◌, ℕ, zero, suc, ◌≡◌, refl, ◌∙◌, sym, ap, subst, ◌++◌, true, false, not,
  Bool-cases, inl, inr, Option, none, some, take, drop, take-append-drop, append_assoc, ◌==◌, done,
  failed, aborted, Returns, Returns-bind, Returns-mono,
}
use net_server_stepby_step.Os.{Os, OsLaws, Accepts}
use net_server_stepby_step.Buffer.{contents, readable_size, retrieve}
use net_server_stepby_step.Buffer.Contents.{retrieve-Retrieved}
use net_server_stepby_step.Channel.{is_writing}
use net_server_stepby_step.TcpConnection.{
  Conn, Link, set_output, set_kernel, is_disconnecting, outgoing, drained, shutdown, wrote,
  after_write, handle_write,
}
use net_server_stepby_step.TcpConnection.Invariant.{
  Sound, Watched, Kept, Kept-trans, Rewatched, disabled_writable-Rewatched, pending, has_output,
  outgoing-contents,
}

module _ (os : Os) where
  -- What a write event leaves: `n` bytes fewer wait, and none is lost.
  pub record Flushed (l : Link os.Kernel) (n : ℕ) (l' : Link os.Kernel) : Type 0 where
    pub watched : Watched os l'
    pub same : pending os l' ≡ pending os l
    pub rest : contents l'.conn.output ≡ drop n (contents l.conn.output)
    pub state : l'.conn.state ≡ l.conn.state
    pub kept : Kept os l l'

module _ (os : Os) (laws : OsLaws os) where
  drained-Watched :
      (l : Link os.Kernel)
      → Sound os l
      → readable_size l.conn.output == 0 ≡ true
      → is_disconnecting l.conn.state ≡ false
      → Returns (drained os l) (λ l'. Watched os l' × Rewatched os l false l')
  unfolding drained
  drained-Watched l s e st =
      Returns-bind (Rewatched os l false) _ _ _ (disabled_writable-Rewatched os laws l s) λ l' w.
        subst
          (λ b.
            Returns (if b then shutdown os l' else done l')
              (λ l'. Watched os l' × Rewatched os l false l'))
          (sym (ap is_disconnecting w.state ∙ st))
          (
            record {
              sound = w.sound;
              watching = w.writing ∙ sym (ap has_output w.output ∙ ap not e);
            },
            w,
          )

  -- The connection after the kernel took `n` bytes of the output buffer.
  record Took (l : Link os.Kernel) (n : ℕ) (l₁ : Link os.Kernel) : Type 0 where
    conn : l₁.conn ≡ l.conn
    sound : Sound os l₁
    others : (j : ℕ) → os.interest l₁.poller.kernel j ≡ os.interest l.poller.kernel j
    went :
        os.stream l₁.poller.kernel l.conn.channel.fd
        ≡ os.stream l.poller.kernel l.conn.channel.fd ++ take n (contents l.conn.output)

  set_kernel-Took :
      (l : Link os.Kernel) (n : ℕ)
      → Sound os l
      → (os.write l.poller.kernel l.conn.channel.fd (outgoing l.conn.output)).0 ≡ some n
      → Took l n
          (set_kernel l (os.write l.poller.kernel l.conn.channel.fd (outgoing l.conn.output)).1)
  set_kernel-Took l n s e =
      let fd = l.conn.channel.fd in
      let k = l.poller.kernel in
      let out = outgoing l.conn.output in
      let a =
        subst (λ r. Accepts os k fd out r (os.write k fd out).1) e (laws.write_accepts k fd out) in
      record {
        conn = refl;
        sound = record {
          pollable = s.pollable;
          synced = laws.write_interest k fd out fd ∙ s.synced;
          mask = s.mask;
          valid = s.valid;
        };
        others = laws.write_interest k fd out;
        went = a.1 ∙ ap (λ o. os.stream k fd ++ take n o) (outgoing-contents l.conn.output s.valid);
      }

  wrote-Flushed :
      (l l₁ : Link os.Kernel) (n : ℕ)
      → Took l n l₁
      → is_writing l.conn.channel ≡ true
      → is_disconnecting l.conn.state ≡ false
      → Returns (wrote os l₁ n) (Flushed os l n)
  unfolding wrote
  wrote-Flushed l l₁ n t on st =
      let r = retrieve-Retrieved l₁.conn.output n t.sound.valid in
      let l₂ = set_output l₁ (retrieve l₁.conn.output n) in
      let s₂ : Sound os l₂ = record {
        pollable = t.sound.pollable;
        synced = t.sound.synced;
        mask = t.sound.mask;
        valid = r.valid;
      } in
      let rest = r.same ∙ ap (λ (c : Conn). drop n (contents c.output)) t.conn in
      let same : pending os l₂ ≡ pending os l =
        ap (λ (c : Conn). os.stream l₁.poller.kernel c.channel.fd ++ contents l₂.conn.output) t.conn
        ∙ ap (λ s. s ++ contents l₂.conn.output) t.went
        ∙ ap
            (λ c.
              (os.stream l.poller.kernel l.conn.channel.fd ++ take n (contents l.conn.output)) ++ c)
            rest
        ∙ append_assoc (os.stream l.poller.kernel l.conn.channel.fd)
            (take n (contents l.conn.output)) (drop n (contents l.conn.output))
        ∙ ap (λ c. os.stream l.poller.kernel l.conn.channel.fd ++ c)
            (take-append-drop n (contents l.conn.output)) in
      let state = ap (λ (c : Conn). c.state) t.conn in
      let kept : Kept os l l₂ = record {
        name = ap (λ (c : Conn). c.name) t.conn;
        fd = ap (λ (c : Conn). c.channel.fd) t.conn;
        input = ap (λ (c : Conn). c.input) t.conn;
        revents = ap (λ (c : Conn). c.channel.revents) t.conn;
        others = λ j n. t.others j;
      } in
      elim (Bool-cases (readable_size l₂.conn.output == 0)) [
        | inl empty ↦ rw empty (
            Returns-mono _ (Flushed os l n) _
              (drained-Watched l₂ s₂ empty (ap is_disconnecting state ∙ st))
              λ l₃ w. record {
                watched = w.0;
                same = w.1.same ∙ same;
                rest = ap contents w.1.output ∙ rest;
                state = w.1.state ∙ state;
                kept = Kept-trans os l l₂ l₃ kept w.1.kept;
              })
        | inr more ↦ rw more (record {
          watched = record {
            sound = s₂;
            watching = ap (λ (c : Conn). is_writing c.channel) t.conn ∙ on ∙ sym (ap not more);
          };
          same = same;
          rest = rest;
          state = state;
          kept = kept;
        })
      ]

  -- When EPOLLOUT is watched for and `::write` takes `n > 0` bytes, `handleWrite` returns: the
  -- bytes accepted and the bytes waiting behind them are together what they were, the first `n` of
  -- the waiting ones have gone out, EPOLLOUT is still watched for exactly if bytes are left, and
  -- the state is as it was. (The connection is not DISCONNECTING.)
  pub handle_write-Flushed :
      (l : Link os.Kernel) (n : ℕ)
      → Watched os l
      → is_writing l.conn.channel ≡ true
      → is_disconnecting l.conn.state ≡ false
      → (os.write l.poller.kernel l.conn.channel.fd (outgoing l.conn.output)).0 ≡ some (suc n)
      → Returns (handle_write os l) (Flushed os l (suc n))
  unfolding handle_write
  handle_write-Flushed l n w on st e =
      rw on (
        rw (e, after_write) (wrote-Flushed l _ (suc n) (set_kernel-Took l (suc n) w.sound e) on st))

-- The answers of `::write` that are no progress.
abbrev pub Refused : Option ℕ → Type 0
Refused none = Unit {0}
Refused (some zero) = Unit {0}
Refused (some (suc n)) = ⊥

module _ (os : Os) (laws : OsLaws os) where
  Refused-aborts :
      (l : Link os.Kernel)
      → is_writing l.conn.channel ≡ true
      → Refused (os.write l.poller.kernel l.conn.channel.fd (outgoing l.conn.output)).0
      → handle_write os l ≡ failed aborted
  unfolding handle_write
  Refused-aborts l on r =
      rw on (go _ (os.write l.poller.kernel l.conn.channel.fd (outgoing l.conn.output)).0 r)
    where
      go : (l' : Link os.Kernel) (o : Option ℕ) → Refused o → after_write os l' o ≡ failed aborted
      go l' none r = unfold after_write in refl
      go l' (some zero) r = unfold after_write in refl
      go l' (some (suc n)) r = absurd r

  aborts-Refused :
      (l : Link os.Kernel) (o : Option ℕ)
      → Watched os l
      → is_disconnecting l.conn.state ≡ false
      → is_writing l.conn.channel ≡ true
      → (os.write l.poller.kernel l.conn.channel.fd (outgoing l.conn.output)).0 ≡ o
      → handle_write os l ≡ failed aborted
      → Refused o
  aborts-Refused l none w st on e h = tt
  aborts-Refused l (some zero) w st on e h = tt
  aborts-Refused l (some (suc n)) w st on e h =
      subst (λ o. Returns o (Flushed os l (suc n))) h (handle_write-Flushed os laws l n w on st e)

  -- `handleWrite` aborts the program exactly if EPOLLOUT is watched for and `::write` reports an
  -- error or takes no byte. (The connection is not DISCONNECTING.)
  pub handle_write_aborts :
      (l : Link os.Kernel)
      → Watched os l
      → is_disconnecting l.conn.state ≡ false
      → (handle_write os l ≡ failed aborted) ↔ (
          (is_writing l.conn.channel ≡ true)
          × Refused (os.write l.poller.kernel l.conn.channel.fd (outgoing l.conn.output)).0)
  handle_write_aborts l w st = (forward, λ r. Refused-aborts l r.0 r.1)
    where
      idle : is_writing l.conn.channel ≡ false → handle_write os l ≡ done l
      idle off = unfold handle_write in rw off

      forward :
          handle_write os l ≡ failed aborted
          → (is_writing l.conn.channel ≡ true)
            × Refused (os.write l.poller.kernel l.conn.channel.fd (outgoing l.conn.output)).0
      forward h = elim (Bool-cases (is_writing l.conn.channel)) [
        | inl on ↦ (on, aborts-Refused l _ w st on refl h)
        | inr off ↦ absurd (cc (idle off))
      ]
