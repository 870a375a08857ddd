-- ===== src/TcpServer/Invariant.antt =====
-- What holds of a whole server between two events, and how a step that works on one connection
-- keeps it: the objects that `tcpConnections_` owns, the map itself, and epoll's interest list.
pub mod Renewal
pub mod Closing
pub mod Opening
use net_server_stepby_step.Base.{
  subst, ℕ, ◌<◌, ◌≤◌, ◌≡◌, ◌≢◌, ◌∙◌, sym, ap, arith, List, Bool, false, Bool-cases, same_or_other,
  Option-cases, ◌⊎◌, inl, inr, none, some, ◌==◌, ==→eq, ==→ne,
}
use net_server_stepby_step.Os.{Os}
use net_server_stepby_step.Buffer.{IsValid}
use net_server_stepby_step.TcpConnection.{Conn, connected}
use net_server_stepby_step.TcpConnection.Invariant.{Watched}
use net_server_stepby_step.TcpServer.{World, link}
use net_server_stepby_step.TcpServer.Names.{connection_name}
use net_server_stepby_step.TcpServer.Table.{find_name, Keyed}

-- `reserved` says which descriptors belong to the server itself: the acceptor's, and the loop's.
module _ (os : Os) (reserved : ℕ → Bool) where
  -- No connection object has the descriptor.
  abbrev pub IsUnused : World os.Kernel → ℕ → Type 0
  IsUnused w fd = (q : ℕ) (c : Conn) → w.conns q ≡ some c → c.channel.fd ≢ fd

  -- A connection object of the server: connected, its buffers valid, its channel in step with epoll
  -- and waiting for EPOLLOUT exactly while bytes wait, found under its name, which the server made.
  pub record Healthy (w : World os.Kernel) (p : ℕ) (c : Conn) : Type 0 where
    pub watched : Watched os (link w c)
    pub input : IsValid c.input
    pub state : c.state ≡ connected
    pub not_reserved : reserved c.channel.fd ≡ false
    pub found : find_name c.name w.table ≡ some p
    pub index : ℕ
    pub older : index < w.next_conn_idx
    pub name : c.name ≡ connection_name w.ip_port index

  pub record Consistent (w : World os.Kernel) : Type 0 where
    pub healthy : (q : ℕ) (c : Conn) → w.conns q ≡ some c → Healthy w q c
    pub apart :
        (q r : ℕ) (c d : Conn)
        → w.conns q ≡ some c
        → w.conns r ≡ some d
        → c.channel.fd ≡ d.channel.fd
        → q ≡ r
    pub unwatched :
        (fd : ℕ) → reserved fd ≡ false → IsUnused w fd → os.interest w.poller.kernel fd ≡ none
    pub keyed : Keyed w.table
    pub listed :
        (n : List ℕ) (q : ℕ)
        → find_name n w.table ≡ some q
        → (c : Conn) × (w.conns q ≡ some c) × (c.name ≡ n)

  -- A step that works on the object at `p`, with descriptor `fd`, and on nothing else.
  pub record Changes (w : World os.Kernel) (p fd : ℕ) (w' : World os.Kernel) : Type 0 where
    pub was : (c : Conn) → w.conns p ≡ some c → c.channel.fd ≡ fd
    pub alone : (q : ℕ) (d : Conn) → q ≢ p → w.conns q ≡ some d → d.channel.fd ≢ fd
    pub others : (q : ℕ) → q ≢ p → w'.conns q ≡ w.conns q
    pub entries : (j : ℕ) → j ≢ fd → os.interest w'.poller.kernel j ≡ os.interest w.poller.kernel j
    pub here : (c : Conn) → w'.conns p ≡ some c → Healthy w' p c
    pub same_fd : (c : Conn) → w'.conns p ≡ some c → c.channel.fd ≡ fd
    pub gone : w'.conns p ≡ none → os.interest w'.poller.kernel fd ≡ none
    pub found : (q : ℕ) (d : Conn) → q ≢ p → w.conns q ≡ some d → find_name d.name w'.table ≡ some q
    pub keyed : Keyed w'.table
    pub listed :
        (n : List ℕ) (q : ℕ)
        → find_name n w'.table ≡ some q
        → (c : Conn) × (w'.conns q ≡ some c) × (c.name ≡ n)
    pub index : w.next_conn_idx ≤ w'.next_conn_idx
    pub ip_port : w'.ip_port ≡ w.ip_port

  module _ (w w' : World os.Kernel) (p fd : ℕ) (s : Consistent w) (g : Changes w p fd w') where
    -- What another object keeps.
    other-Healthy : (q : ℕ) (d : Conn) → q ≢ p → w.conns q ≡ some d → Healthy w' q d
    other-Healthy q d n e =
        let h = s.healthy q d e in
        let same = g.entries d.channel.fd (g.alone q d n e) in
        record {
          watched = record {
            sound = record {
              pollable = h.watched.sound.pollable;
              synced = same ∙ h.watched.sound.synced;
              mask = h.watched.sound.mask;
              valid = h.watched.sound.valid;
            };
            watching = h.watched.watching;
          };
          input = h.input;
          state = h.state;
          not_reserved = h.not_reserved;
          found = g.found q d n e;
          index = h.index;
          older = omega (arith, h.older, g.index);
          name = h.name ∙ ap (λ i. connection_name i h.index) (sym g.ip_port);
        }

    not_taken : (j : ℕ) → j ≢ fd → IsUnused w' j → IsUnused w j
    not_taken j n u q c e = elim (same_or_other q p) [
      | inl here ↦ λ f. n (sym f ∙ g.was c (subst (λ q. w.conns q ≡ some c) here e))
      | inr other ↦ u q c (g.others q other ∙ e)
    ]

    unwatched_fd : IsUnused w' fd → os.interest w'.poller.kernel fd ≡ none
    unwatched_fd u = elim (Option-cases (w'.conns p)) [
      | inl gone ↦ g.gone gone
      | inr (c, e) ↦ absurd (u p c e (g.same_fd c e))
    ]

    apart_lem :
        (q r : ℕ) (c d : Conn)
        → w'.conns q ≡ some c
        → w'.conns r ≡ some d
        → c.channel.fd ≡ d.channel.fd
        → q ≡ r
    apart_lem q r c d e f h = elim (same_or_other q p) [
      | inl q_here ↦ elim (same_or_other r p) [
        | inl r_here ↦ q_here ∙ sym r_here
        | inr r_other ↦ absurd (
            g.alone r d r_other (sym (g.others r r_other) ∙ f)
              (sym h ∙ g.same_fd c (subst (λ q. w'.conns q ≡ some c) q_here e)))
      ]
      | inr q_other ↦ elim (same_or_other r p) [
        | inl r_here ↦ absurd (
            g.alone q c q_other (sym (g.others q q_other) ∙ e)
              (h ∙ g.same_fd d (subst (λ r. w'.conns r ≡ some d) r_here f)))
        | inr r_other ↦
            s.apart q r c d (sym (g.others q q_other) ∙ e) (sym (g.others r r_other) ∙ f) h
      ]
    ]

    -- Such a step keeps the invariant of the server.
    pub Changes-Consistent : Consistent w'
    Changes-Consistent = record {
      healthy = λ q c e. elim (same_or_other q p) [
        | inl here ↦
            subst (λ q. Healthy w' q c) (sym here)
              (g.here c (subst (λ q. w'.conns q ≡ some c) here e))
        | inr other ↦ other-Healthy q c other (sym (g.others q other) ∙ e)
      ];
      apart = apart_lem;
      unwatched = λ j r u. elim (same_or_other j fd) [
        | inl here ↦
            subst (λ j. os.interest w'.poller.kernel j ≡ none) (sym here)
              (unwatched_fd (subst (λ j. IsUnused w' j) here u))
        | inr other ↦ g.entries j other ∙ s.unwatched j r (not_taken j other u)
      ];
      keyed = g.keyed;
      listed = g.listed;
    }
