-- ===== src/TcpServer/Events/Rounds/Accepting.antt =====
-- The acceptor's part of a round: a connection comes.
use net_server_stepby_step.Base.{
  ℕ, suc, ◌≡◌, refl, ◌∙◌, sym, ap, subst, Bool, Bool-cases, inl, inr, Option, some, none, has,
  epollin, Outcome, done, Returns, Returns-bind, Returns-done, same_or_other,
}
use net_server_stepby_step.Os.{Os, OsLaws}
use net_server_stepby_step.Acceptor.{SocketAnswers}
use net_server_stepby_step.Acceptor.Listen.{accept_lem}
use net_server_stepby_step.Channel.{Channel}
use net_server_stepby_step.Channel.Dispatch.{run_if, handle_events}
use net_server_stepby_step.TcpServer.{World, new_connection}
use net_server_stepby_step.TcpServer.Open.{Opened, new_connection-Opened}
use net_server_stepby_step.TcpServer.Invariant.{Consistent}
use net_server_stepby_step.TcpServer.Invariant.Opening.{Opened-Consistent}
use net_server_stepby_step.TcpServer.Events.Keeping.{Keeps, Keeps-refl}
use net_server_stepby_step.TcpServer.Events.Rounds.{
  of_acceptor, accept_connection, channel_events, Acceptable, Finds,
}

module _ (os : Os) (laws : OsLaws os) (reserved : ℕ → Bool)
    (connection_callback message_callback : ℕ → World os.Kernel → Outcome (World os.Kernel))
    (close : World os.Kernel → World os.Kernel)
    (quiet : (p : ℕ) (w : World os.Kernel) → connection_callback p w ≡ done w) (w : World os.Kernel)
    (s : Consistent os reserved w) where
  new_connection-Keeps :
      (sockfd peer : ℕ) (made : SocketAnswers) (p : ℕ)
      → Acceptable os connection_callback message_callback close reserved w sockfd made p
      → Returns
          (new_connection os connection_callback message_callback sockfd peer made p w)
          (Keeps os reserved w)
  new_connection-Keeps sockfd peer made p
        (pollable, outside, unused, absent, small, (socket, reused, e)) =
      let (w', d, o) =
        Returns-done (Opened os w p sockfd)
          (new_connection os connection_callback message_callback sockfd peer
            (some socket, some reused) p w)
          (new_connection-Opened os laws connection_callback message_callback quiet w sockfd peer
            socket reused p pollable (s.unwatched sockfd outside unused) small) in
      rw e (
        subst (λ o. Returns o (Keeps os reserved w)) (sym d)
          (record {
            consistent =
                Opened-Consistent os reserved w w' p sockfd s pollable outside unused absent o;
            alive = λ q c e. elim (same_or_other q p) [
              | inl here ↦ absurd (let no : some c ≡ none = sym e ∙ ap w.conns here ∙ absent in cc)
              | inr other ↦ (c, o.others q other ∙ e, refl)
            ];
          }))

  accept_connection-Keeps :
      (answer : Option ℕ) (n peer : ℕ) (made : SocketAnswers) (p : ℕ)
      → answer ≡ some (suc n)
      → Acceptable os connection_callback message_callback close reserved w (suc n) made p
      → Returns
          (accept_connection os connection_callback message_callback close answer peer made p w)
          (Keeps os reserved w)
  unfolding accept_connection
  accept_connection-Keeps answer n peer made p e enabled =
      let callback : Option (ℕ → ℕ → World os.Kernel → Outcome (World os.Kernel)) =
        some
          (λ fd peer w. new_connection os connection_callback message_callback fd peer made p w) in
      rw (accept_lem callback close answer peer w)
        (rw e (new_connection-Keeps (suc n) peer made p enabled))

  -- `handleEvents` of the acceptor's channel.
  pub acceptor_events-Keeps :
      (channel : Channel) (answer : Option ℕ) (peer : ℕ) (made : SocketAnswers) (p : ℕ)
      → Finds os connection_callback message_callback close reserved
          (of_acceptor channel answer peer made p)
          w
      → Returns
          (channel_events os connection_callback message_callback close
            (of_acceptor channel answer peer made p)
            w)
          (Keeps os reserved w)
  unfolding channel_events handle_events run_if
  acceptor_events-Keeps channel answer peer made p finds =
      elim (Bool-cases (has channel.revents epollin)) [
        | inl on ↦
            let (n, e, enabled) = finds on in
            rw on (
              Returns-bind (Keeps os reserved w) (Keeps os reserved w)
                (accept_connection os connection_callback message_callback close answer peer made p
                  w)
                (λ w'. done w') (accept_connection-Keeps answer n peer made p e enabled)
                (λ w' k. k))
        | inr off ↦ rw off (Keeps-refl os reserved w s)
      ]
