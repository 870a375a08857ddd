-- ===== src/TcpServer/Invariant/Opening.antt =====
-- Opening a connection keeps the invariant of the server: its name is new, as its index is.
use net_server_stepby_step.Base.{
  some-injective, has, epollin, set_bit, epollout, subst, ℕ, ◌<◌, ◌≡◌, ◌≢◌, refl, ◌∙◌, sym, ap,
  arith, List, Bool, true, false, Bool-cases, inl, inr, none, some, ne→==,
}
use net_server_stepby_step.Os.{Os}
use net_server_stepby_step.Buffer.{IsValid, init, init_size}
use net_server_stepby_step.Buffer.Bounds.{init-IsValid}
use net_server_stepby_step.TcpConnection.{Conn}
use net_server_stepby_step.TcpConnection.Invariant.{Watched, has_output}
use net_server_stepby_step.TcpServer.{World, link}
use net_server_stepby_step.TcpServer.Names.{
  same_name, connection_name, connection_name-injective, same_name→eq,
}
use net_server_stepby_step.TcpServer.Table.{
  find_name, Keyed, find_name-insert_name_other, insert_name-Keyed,
}
use net_server_stepby_step.TcpServer.Open.{Opened}
use net_server_stepby_step.TcpServer.Invariant.{IsUnused, Healthy, Consistent, Changes-Consistent}

-- A new connection waits for EPOLLIN alone, with nothing to write.
opening_mask :
    (set_bit 0 epollin < 8) × (has (set_bit 0 epollin) epollout ≡ has_output (init init_size))
unfolding set_bit has init
opening_mask = (omega arith, refl)

module _ (os : Os) (reserved : ℕ → Bool) where
  module _ (w w' : World os.Kernel) (p sockfd : ℕ) (s : Consistent os reserved w)
      (pollable : os.pollable sockfd ≡ true) (outside : reserved sockfd ≡ false)
      (unused : IsUnused os reserved w sockfd) (absent : w.conns p ≡ none)
      (o : Opened os w p sockfd w') where
    abbrev new_name : List ℕ
    new_name = connection_name w.ip_port w.next_conn_idx

    fresh_name : (q : ℕ) (d : Conn) → w.conns q ≡ some d → same_name new_name d.name ≡ false
    fresh_name q d f =
        let h = s.healthy q d f in
        ap (same_name new_name) h.name
        ∙ connection_name-injective w.ip_port w.next_conn_idx h.index
        ∙ ne→== w.next_conn_idx h.index (λ e. omega (arith, e, h.older))

    not_here : (q : ℕ) (d : Conn) → w.conns q ≡ some d → q ≢ p
    not_here q d f here = let no : some d ≡ none = sym f ∙ ap w.conns here ∙ absent in cc

    Watched-Opened : Watched os (link w' o.conn)
    Watched-Opened = record {
      sound = record {
        pollable = ap os.pollable o.fd ∙ pollable;
        synced = o.synced;
        mask = subst (λ m. m < 8) (sym o.events) opening_mask.0;
        valid = subst IsValid (sym o.output) (init-IsValid init_size (omega arith) (omega arith));
      };
      watching = ap (λ m. has m epollout) o.events ∙ opening_mask.1 ∙ sym (ap has_output o.output);
    }

    Healthy-Opened : Healthy os reserved w' p o.conn
    Healthy-Opened = record {
      watched = Watched-Opened;
      input = subst IsValid (sym o.input) (init-IsValid init_size (omega arith) (omega arith));
      state = o.state;
      not_reserved = ap reserved o.fd ∙ outside;
      found = ap (λ n. find_name n w'.table) o.name ∙ o.found;
      index = w.next_conn_idx;
      older = omega (arith, o.index);
      name = o.name ∙ ap (λ i. connection_name i w.next_conn_idx) (sym o.ip_port);
    }

    listed-Opened :
        (n : List ℕ) (q : ℕ)
        → find_name n w'.table ≡ some q
        → (d : Conn) × (w'.conns q ≡ some d) × (d.name ≡ n)
    listed-Opened n q f = elim (Bool-cases (same_name new_name n)) [
      | inl same ↦
          let eq = same_name→eq new_name n same in
          let here : p ≡ q = some-injective (sym o.found ∙ ap (λ n. find_name n w'.table) eq ∙ f) in
          (o.conn, ap w'.conns (sym here) ∙ o.stored, o.name ∙ eq)
      | inr differs ↦
          let (d, g, m) = s.listed n q (
            sym (find_name-insert_name_other n new_name p w.table differs)
            ∙ ap (find_name n) (sym o.table)
            ∙ f) in
          (d, o.others q (not_here q d g) ∙ g, m)
    ]

    pub Opened-Consistent : Consistent os reserved w'
    Opened-Consistent = Changes-Consistent os reserved w w' p sockfd s (record {
      was = λ d f. absurd (not_here p d f refl);
      alone = λ q d n f. unused q d f;
      others = o.others;
      entries = o.frame.others;
      here = λ d f.
          subst (λ d. Healthy os reserved w' p d) (some-injective (sym o.stored ∙ f))
            Healthy-Opened;
      same_fd = λ d f. ap (λ (c : Conn). c.channel.fd) (some-injective (sym f ∙ o.stored)) ∙ o.fd;
      gone = λ f. absurd (let no : some o.conn ≡ none = sym o.stored ∙ f in cc);
      found = λ q d n f.
          ap (find_name d.name) o.table
          ∙ find_name-insert_name_other d.name new_name p w.table (fresh_name q d f)
          ∙ (s.healthy q d f).found;
      keyed = subst Keyed (sym o.table) (insert_name-Keyed new_name p w.table s.keyed);
      listed = listed-Opened;
      index = omega (arith, o.index);
      ip_port = o.ip_port;
    })
