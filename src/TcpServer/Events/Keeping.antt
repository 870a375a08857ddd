-- ===== src/TcpServer/Events/Keeping.antt =====
-- What a handler that closes no connection keeps: the invariant of the server, and every connection
-- object with the events that epoll returned for it.
use net_server_stepby_step.Base.{
  ℕ, ◌≡◌, refl, ◌∙◌, sym, ap, Bool, some, if◌then◌else◌, inl, inr, same_or_other, ne→==,
  some-injective,
}
use net_server_stepby_step.Os.{Os}
use net_server_stepby_step.TcpConnection.{Conn, Link}
use net_server_stepby_step.TcpServer.{World, set_link}
use net_server_stepby_step.TcpServer.Close.{put_self}
use net_server_stepby_step.TcpServer.Invariant.{Consistent}

-- An object at `q` with the events of `c`.
abbrev pub Holds : {K : Type 0} → World K → ℕ → Conn → Type 0
Holds w q c = (d : Conn) × (w.conns q ≡ some d) × (d.channel.revents ≡ c.channel.revents)

module _ (os : Os) (reserved : ℕ → Bool) where
  pub record Keeps (w w' : World os.Kernel) : Type 0 where
    pub consistent : Consistent os reserved w'
    pub alive : (q : ℕ) (c : Conn) → w.conns q ≡ some c → Holds w' q c

  pub Keeps-refl : (w : World os.Kernel) → Consistent os reserved w → Keeps w w
  Keeps-refl w s = record { consistent = s; alive = λ q c e. (c, e, refl) }

  pub Keeps-trans : (w₁ w₂ w₃ : World os.Kernel) → Keeps w₁ w₂ → Keeps w₂ w₃ → Keeps w₁ w₃
  Keeps-trans w₁ w₂ w₃ a b = record {
    consistent = b.consistent;
    alive = λ q c e.
        let (d, f, r) = a.alive q c e in let (d', f', r') = b.alive q d f in (d', f', r' ∙ r);
  }

  -- A change of one connection that keeps its events.
  pub set_link-Keeps :
      (w : World os.Kernel) (p : ℕ) (c : Conn) (l : Link os.Kernel)
      → w.conns p ≡ some c
      → Consistent os reserved (set_link w p l)
      → l.conn.channel.revents ≡ c.channel.revents
      → Keeps w (set_link w p l)
  set_link-Keeps w p c l e s r = record {
    consistent = s;
    alive = λ q d f. elim (same_or_other q p) [
      | inl here ↦ (
        l.conn,
        ap (set_link w p l).conns here ∙ put_self w.conns p l.conn,
        r
            ∙ ap (λ (c : Conn). c.channel.revents)
                (some-injective (sym e ∙ ap w.conns (sym here) ∙ f)),
      )
      | inr other ↦ (d, ap (λ b. if b then some l.conn else w.conns q) (ne→== q p other) ∙ f, refl)
    ];
  }
