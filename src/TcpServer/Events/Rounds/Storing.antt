-- ===== src/TcpServer/Events/Rounds/Storing.antt =====
-- What `Epoller::poll` leaves in the channels of the connections.
use net_server_stepby_step.Base.{
  ℕ, ◌≡◌, List, [], ◌∷◌, Bool, false, if◌then◌else◌, some, has, epollhup, Returns, Returns-mono, ap,
  ◌∙◌, inl, inr, same_or_other, ne→==,
}
use net_server_stepby_step.Os.{Os}
use net_server_stepby_step.Channel.{set_return_events}
use net_server_stepby_step.TcpConnection.{Conn}
use net_server_stepby_step.TcpServer.{World}
use net_server_stepby_step.TcpServer.Close.{put_self}
use net_server_stepby_step.TcpServer.Invariant.{Consistent}
use net_server_stepby_step.TcpServer.Events.Dispatch.{returned, returned-Consistent}
use net_server_stepby_step.TcpServer.Events.Rounds.{
  Active, of_connection, of_acceptor, store_events, Calm, Ready, AllReady, Lives,
}

module _ (os : Os) (reserved : ℕ → Bool) where
  -- What `poll` leaves.
  pub record Stored (es : List Active) (w w' : World os.Kernel) : Type 0 where
    pub consistent : Consistent os reserved w'
    pub lives : Lives w w'
    pub stays : (q : ℕ) → Ready w q → Ready w' q
    pub ready : AllReady es w'

  -- One channel's events are stored.
  returned_others :
      (w : World os.Kernel) (p : ℕ) (c : Conn) (ev q : ℕ)
      → (q ≡ p → ⊥)
      → (returned os reserved w p c ev).conns q ≡ w.conns q
  returned_others w p c ev q n =
      ap
        (λ b. if b then some (record c { channel = set_return_events c.channel ev }) else w.conns q)
        (ne→== q p n)

  returned_self :
      (w : World os.Kernel) (p : ℕ) (c : Conn) (ev : ℕ)
      → (returned os reserved w p c ev).conns p
        ≡ some (record c { channel = set_return_events c.channel ev })
  returned_self w p c ev =
      put_self w.conns p (record c { channel = set_return_events c.channel ev })

  returned-Lives :
      (w : World os.Kernel) (p : ℕ) (c : Conn) (ev : ℕ) → Lives w (returned os reserved w p c ev)
  returned-Lives w p c ev q d e = elim (same_or_other q p) [
    | inl here ↦ (
      record c { channel = set_return_events c.channel ev },
      ap (returned os reserved w p c ev).conns here ∙ returned_self w p c ev,
    )
    | inr other ↦ (d, returned_others w p c ev q other ∙ e)
  ]

  returned-Ready :
      (w : World os.Kernel) (p : ℕ) (c : Conn) (ev q : ℕ)
      → has ev epollhup ≡ false
      → Ready w q
      → Ready (returned os reserved w p c ev) q
  returned-Ready w p c ev q calm (d, e, r) = elim (same_or_other q p) [
    | inl here ↦ (
      record c { channel = set_return_events c.channel ev },
      ap (returned os reserved w p c ev).conns here ∙ returned_self w p c ev,
      calm,
    )
    | inr other ↦ (d, returned_others w p c ev q other ∙ e, r)
  ]

  Calm-Lives : (es : List Active) (w w' : World os.Kernel) → Lives w w' → Calm es w → Calm es w'
  Calm-Lives [] w w' l c = tt
  Calm-Lives (of_acceptor channel answer peer made p ∷ es) w w' l k = Calm-Lives es w w' l k
  Calm-Lives (of_connection p ev ∷ es) w w' l ((c, e), calm, rest) =
      (l p c e, calm, Calm-Lives es w w' l rest)

  pub store_events-Stored :
      (es : List Active) (w : World os.Kernel)
      → Consistent os reserved w
      → Calm es w
      → Returns (store_events es w) (Stored es w)
  unfolding store_events
  store_events-Stored [] w s k = record {
    consistent = s;
    lives = λ q c e. (c, e);
    stays = λ q r. r;
    ready = tt;
  }
  store_events-Stored (of_acceptor channel answer peer made p ∷ es) w s k =
      Returns-mono (Stored es w) (Stored (of_acceptor channel answer peer made p ∷ es) w)
        (store_events es w) (store_events-Stored es w s k)
        (λ w' g. record {
          consistent = g.consistent;
          lives = g.lives;
          stays = g.stays;
          ready = g.ready;
        })
  store_events-Stored (of_connection p ev ∷ es) w s ((c, e), calm, rest) =
      let w₁ = returned os reserved w p c ev in
      let l = returned-Lives w p c ev in
      rw e (
        Returns-mono (Stored es w₁) (Stored (of_connection p ev ∷ es) w) (store_events es w₁)
          (store_events-Stored es w₁ (returned-Consistent os reserved w p c ev s e)
            (Calm-Lives es w w₁ l rest))
          (λ w' g. record {
            consistent = g.consistent;
            lives = λ q d f. let (d', f') = l q d f in g.lives q d' f';
            stays = λ q r. g.stays q (returned-Ready w p c ev q calm r);
            ready = (
              g.stays p (
                record c { channel = set_return_events c.channel ev },
                returned_self w p c ev,
                calm,
              ),
              g.ready,
            );
          }))
