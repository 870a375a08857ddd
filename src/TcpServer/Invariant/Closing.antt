-- ===== src/TcpServer/Invariant/Closing.antt =====
-- Closing a connection keeps the invariant of the server: the other objects keep their names and
-- their descriptors.
use net_server_stepby_step.Base.{
  same_or_other, some-injective, subst, ℕ, ◌≡◌, ◌∙◌, sym, ap, arith, List, Bool, true, Bool-cases,
  inl, inr, none, some,
}
use net_server_stepby_step.Os.{Os}
use net_server_stepby_step.TcpConnection.{Conn}
use net_server_stepby_step.TcpServer.{World, erase_name}
use net_server_stepby_step.TcpServer.Names.{same_name, same_name→eq, same_name_self}
use net_server_stepby_step.TcpServer.Table.{
  find_name, Keyed, find_name-erase_name, find_name-erase_name_other, erase_name-Keyed,
}
use net_server_stepby_step.TcpServer.Close.{Closed}
use net_server_stepby_step.TcpServer.Invariant.{Consistent, Changes-Consistent}
use net_server_stepby_step.TcpServer.Invariant.Renewal.{own_fd, other_fd, other_name}

module _ (os : Os) (reserved : ℕ → Bool) where
  module _ (w w' : World os.Kernel) (p : ℕ) (c : Conn) (s : Consistent os reserved w)
      (e : w.conns p ≡ some c) (o : Closed os w p c w') where
    -- What is left in the map is an object that is left.
    listed-Closed :
        (n : List ℕ) (q : ℕ)
        → find_name n w'.table ≡ some q
        → (d : Conn) × (w'.conns q ≡ some d) × (d.name ≡ n)
    listed-Closed n q f = elim (Bool-cases (same_name c.name n)) [
      | inl same ↦ absurd (
          let gone : find_name n w'.table ≡ none =
            ap (find_name n) o.table
            ∙ ap (λ m. find_name m (erase_name c.name w.table)) (sym (same_name→eq c.name n same))
            ∙ find_name-erase_name c.name w.table s.keyed in
          cc)
      | inr differs ↦
          let (d, g, m) = s.listed n q (
            sym (find_name-erase_name_other n c.name w.table differs)
            ∙ ap (find_name n) (sym o.table)
            ∙ f) in
          elim (same_or_other q p) [
            | inl here ↦ absurd (
                let same : same_name c.name n ≡ true =
                  ap (same_name c.name) (
                    sym m
                    ∙ ap (λ (c : Conn). c.name) (some-injective (sym g ∙ ap w.conns here ∙ e)))
                  ∙ same_name_self c.name in
                cc)
            | inr other ↦ (d, o.others q other ∙ g, m)
          ]
    ]

    pub Closed-Consistent : Consistent os reserved w'
    Closed-Consistent = Changes-Consistent os reserved w w' p c.channel.fd s (record {
      was = own_fd os reserved w p c s e;
      alone = other_fd os reserved w p c s e;
      others = o.others;
      entries = o.frame.others;
      here = λ d f. absurd (let no : none ≡ some d = sym o.gone ∙ f in cc);
      same_fd = λ d f. absurd (let no : none ≡ some d = sym o.gone ∙ f in cc);
      gone = λ _. o.unwatched;
      found = λ q d n f.
          ap (find_name d.name) o.table
          ∙ find_name-erase_name_other d.name c.name w.table
              (other_name os reserved w p c s e q d n f)
          ∙ (s.healthy q d f).found;
      keyed = subst Keyed (sym o.table) (erase_name-Keyed c.name w.table s.keyed);
      listed = listed-Closed;
      index = omega (arith, o.index);
      ip_port = o.ip_port;
    })
