-- ===== src/TcpServer/Invariant/Renewal.antt =====
-- A handler that changes one connection keeps the invariant of the server.
use net_server_stepby_step.Base.{
  same_or_other, some-injective, subst, ℕ, ◌≡◌, ◌≢◌, refl, ◌∙◌, sym, ap, arith, List, Bool, false,
  Bool-cases, inl, inr, none, some, ne→==, if◌then◌else◌,
}
use net_server_stepby_step.Os.{Os}
use net_server_stepby_step.Buffer.{IsValid}
use net_server_stepby_step.TcpConnection.{Conn, Link}
use net_server_stepby_step.TcpConnection.Invariant.{Watched}
use net_server_stepby_step.TcpServer.{World, set_link}
use net_server_stepby_step.TcpServer.Names.{same_name, same_name→eq}
use net_server_stepby_step.TcpServer.Table.{find_name}
use net_server_stepby_step.TcpServer.Close.{put_self}
use net_server_stepby_step.TcpServer.Invariant.{Healthy, Consistent, Changes-Consistent}

module _ (os : Os) (reserved : ℕ → Bool) where
  -- What a handler makes of a connection that stays.
  pub record Renewed (w : World os.Kernel) (c : Conn) (l : Link os.Kernel) : Type 0 where
    pub watched : Watched os l
    pub input : IsValid l.conn.input
    pub state : l.conn.state ≡ c.state
    pub name : l.conn.name ≡ c.name
    pub fd : l.conn.channel.fd ≡ c.channel.fd
    pub entries :
        (j : ℕ) → j ≢ c.channel.fd → os.interest l.poller.kernel j ≡ os.interest w.poller.kernel j

  module _ (w : World os.Kernel) (p : ℕ) (c : Conn) (s : Consistent os reserved w)
      (e : w.conns p ≡ some c) where
    -- Another object has another descriptor, and another name.
    pub other_fd : (q : ℕ) (d : Conn) → q ≢ p → w.conns q ≡ some d → d.channel.fd ≢ c.channel.fd
    other_fd q d n f h = n (s.apart q p d c f e h)

    pub other_name :
        (q : ℕ) (d : Conn) → q ≢ p → w.conns q ≡ some d → same_name c.name d.name ≡ false
    other_name q d n f = elim (Bool-cases (same_name c.name d.name)) [
      | inl same ↦ absurd (
          n (
            some-injective (
              sym (s.healthy q d f).found
              ∙ ap (λ n. find_name n w.table) (sym (same_name→eq c.name d.name same))
              ∙ (s.healthy p c e).found)))
      | inr other ↦ other
    ]

    pub own_fd : (d : Conn) → w.conns p ≡ some d → d.channel.fd ≡ c.channel.fd
    own_fd d f = ap (λ (c : Conn). c.channel.fd) (some-injective (sym f ∙ e))

    -- It stands in the map under its own name alone.
    pub only_name : (m : List ℕ) → find_name m w.table ≡ some p → m ≡ c.name
    only_name m f =
        let (d, g, n) = s.listed m p f in
        sym n ∙ ap (λ (c : Conn). c.name) (some-injective (sym g ∙ e))

    module _ (l : Link os.Kernel) (r : Renewed w c l) where
      renewed : (d : Conn) → (set_link w p l).conns p ≡ some d → l.conn ≡ d
      renewed d f = some-injective (sym (put_self w.conns p l.conn) ∙ f)

      Healthy-Renewed : Healthy os reserved (set_link w p l) p l.conn
      Healthy-Renewed =
          let h = s.healthy p c e in
          record {
            watched = r.watched;
            input = r.input;
            state = r.state ∙ h.state;
            not_reserved = ap reserved r.fd ∙ h.not_reserved;
            found = ap (λ n. find_name n w.table) r.name ∙ h.found;
            index = h.index;
            older = h.older;
            name = r.name ∙ h.name;
          }

      -- The map still lists the object.
      listed-Renewed :
          (n : List ℕ) (q : ℕ)
          → find_name n w.table ≡ some q
          → (d : Conn) × ((set_link w p l).conns q ≡ some d) × (d.name ≡ n)
      listed-Renewed n q f =
          let (d, g, m) = s.listed n q f in
          elim (same_or_other q p) [
            | inl here ↦ (
              l.conn,
              ap (set_link w p l).conns here ∙ put_self w.conns p l.conn,
              r.name
                  ∙ ap (λ (c : Conn). c.name) (some-injective (sym e ∙ ap w.conns (sym here) ∙ g))
                  ∙ m,
            )
            | inr other ↦
                (d, ap (λ b. if b then some l.conn else w.conns q) (ne→== q p other) ∙ g, m)
          ]

      pub Renewed-Consistent : Consistent os reserved (set_link w p l)
      Renewed-Consistent =
          Changes-Consistent os reserved w (set_link w p l) p c.channel.fd s (record {
            was = own_fd;
            alone = other_fd;
            others = λ q n. ap (λ b. if b then some l.conn else w.conns q) (ne→== q p n);
            entries = r.entries;
            here = λ d f.
                subst (λ d. Healthy os reserved (set_link w p l) p d) (renewed d f) Healthy-Renewed;
            same_fd = λ d f. ap (λ (c : Conn). c.channel.fd) (sym (renewed d f)) ∙ r.fd;
            gone = λ f.
                absurd (let no : some l.conn ≡ none = sym (put_self w.conns p l.conn) ∙ f in cc);
            found = λ q d n f. (s.healthy q d f).found;
            keyed = s.keyed;
            listed = listed-Renewed;
            index = omega arith;
            ip_port = refl;
          })
