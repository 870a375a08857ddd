-- ===== src/Earlier/Looping/Agreement.antt =====
-- The loop of v1.3 against that of v1.7, whatever the callbacks do, if they do the same.
use net_server_stepby_step.Base.{
  ◌≤◌, arith, subst, ℕ, ◌≡◌, refl, sym, List, [], ◌∷◌, ◌++◌, Bool, true, false, Bool-cases, inl,
  inr, Option, none, some, ◌==◌, if◌then◌else◌, length, ◌*◌, Outcome, done, failed, deref, ◌>>=◌,
}
use net_server_stepby_step.Channel as Now
use net_server_stepby_step.Epoller.{Epoller, collect, put}
use net_server_stepby_step.Epoller as NowEpoller
use net_server_stepby_step.EventLoop as NowLoop
use net_server_stepby_step.Earlier.Polling.{Channel, set_return_events}
use net_server_stepby_step.Earlier.Refinement.{forget}
use net_server_stepby_step.Earlier.ChannelMap.Agreement.{Related, Related-bind}
use net_server_stepby_step.Earlier.Looping.{Reactor, max_event_nums, poll, stored}

abbrev pub forget_option : Option Now.Channel → Option Channel
forget_option none = none
forget_option (some c) = some (forget c)

abbrev pub SameChannels : (ℕ → Option Channel) → (ℕ → Option Now.Channel) → Type 0
SameChannels m n = (p : ℕ) → m p ≡ forget_option (n p)

put-SameChannels :
    (m : ℕ → Option Channel) (n : ℕ → Option Now.Channel) (p : ℕ) (c : Now.Channel)
    → SameChannels m n
    → SameChannels (put m p (forget c)) (put n p c)
put-SameChannels m n p c s q = elim (Bool-cases (q == p)) [
  | inl here ↦ rw here refl
  | inr other ↦ rw other (s q)
]

-- A loop of v1.3 and one of v1.7 in one state; that of v1.7 has at least the room for events that
-- v1.3 has.
pub record Same {K : Type 0} (r : Reactor K) (s : NowLoop.Reactor K) : Type 0 where
  pub kernel : r.kernel ≡ s.poller.kernel
  pub channels : SameChannels r.channels s.channels
  pub active : r.active_channels ≡ s.active_channels
  pub looping : r.is_looping ≡ s.is_looping
  pub quitting : r.is_quitting ≡ s.is_quitting
  pub room : max_event_nums ≤ s.poller.capacity

-- A read of an object that is there in both, or in neither.
pub deref-forget :
    (o : Option Channel) (n : Option Now.Channel)
    → o ≡ forget_option n
    → Related (λ c d. c ≡ forget d) (deref o) (deref n)
deref-forget o n e = subst (λ o. Related (λ c d. c ≡ forget d) (deref o) (deref n)) (sym e) (go n)
  where
    go :
        (n : Option Now.Channel) → Related (λ c d. c ≡ forget d) (deref (forget_option n)) (deref n)
    go none = refl
    go (some d) = refl

-- What `poll` collects.
abbrev Collected : List ℕ × (ℕ → Option Channel) → List ℕ × (ℕ → Option Now.Channel) → Type 0
Collected t u = (t.0 ≡ u.0) × SameChannels t.1 u.1

poll-Collected :
    (es : List (ℕ × ℕ)) (active : List ℕ) (m : ℕ → Option Channel) (n : ℕ → Option Now.Channel)
    → SameChannels m n
    → Related Collected (poll m active es) (collect n active es)
unfolding poll collect
poll-Collected [] active m n s = (refl, s)
poll-Collected ((p, ev) ∷ es) active m n s =
    Related-bind (λ c d. c ≡ forget d) Collected (deref (m p)) (deref (n p)) _ _
      (deref-forget (m p) (n p) (s p))
      λ c d e.
        poll-Collected es (active ++ p ∷ []) (put m p (set_return_events c ev))
          (put n p (Now.set_return_events d ev))
          (subst
            (λ c.
              SameChannels (put m p (set_return_events c ev))
                (put n p (Now.set_return_events d ev)))
            (sym e) (put-SameChannels m n p (Now.set_return_events d ev) s))

-- The same with the poller of v1.7.
abbrev pub Polled :
    {K : Type 0}
    → Epoller K
    → List ℕ × (ℕ → Option Channel)
    → List ℕ × (ℕ → Option Now.Channel) × Epoller K
    → Type 0
Polled p t u =
    (t.0 ≡ u.0) × SameChannels t.1 u.1 × (u.2.kernel ≡ p.kernel) × (p.capacity ≤ u.2.capacity)

pub poll-Polled :
    {K : Type 0} (p : Epoller K) (answer : Option (List (ℕ × ℕ))) (m : ℕ → Option Channel)
    (n : ℕ → Option Now.Channel)
    → SameChannels m n
    → Related (Polled p) (poll m [] (stored answer)) (NowEpoller.poll p n [] answer)
unfolding poll NowEpoller.poll
poll-Polled p none m n s = (refl, s, refl, omega arith)
poll-Polled p (some []) m n s = (refl, s, refl, omega arith)
poll-Polled p (some (e ∷ es)) m n s = go _ _ (poll-Collected (e ∷ es) [] m n s)
  where
    grown :
        (b : Bool)
        → let q = if b then record p { capacity = p.capacity * 2 } else p in
          (q.kernel ≡ p.kernel) × (p.capacity ≤ q.capacity)
    grown true = (refl, omega arith)
    grown false = (refl, omega arith)

    go :
        (a : Outcome (List ℕ × (ℕ → Option Channel)))
        (b : Outcome (List ℕ × (ℕ → Option Now.Channel)))
        → Related Collected a b
        → Related (Polled p) a (
            b >>= λ t. done (
              t.0,
              t.1,
              if length (e ∷ es) == p.capacity then record p { capacity = p.capacity * 2 } else p,
            ))
    go (done t) (done u) h = let g = grown (length (e ∷ es) == p.capacity) in (h.0, h.1, g.0, g.1)
    go (done t) (failed f) h = absurd h
    go (failed f) (done u) h = absurd h
    go (failed f) (failed g) h = h
