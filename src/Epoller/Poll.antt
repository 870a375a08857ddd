-- ===== src/Epoller/Poll.antt =====
-- `Epoller::poll`: what a poll delivers.
use net_server_stepby_step.Base.{
  ℕ, ◌<◌, ◌*◌, ◌≡◌, ◌≢◌, refl, ◌∙◌, sym, ap, List, [], ◌∷◌, ◌++◌, Option, none, some, All, length,
  append_assoc, append-nil, ◌==◌, ==-self, ne→==, if◌then◌else◌, Returns, Returns-bind,
  Returns-mono, Bool, arith,
}
use net_server_stepby_step.Channel.{Channel, set_return_events}
use net_server_stepby_step.Epoller.{Epoller, Channels, put, collect, poll}

abbrev pub Event : Type 0
Event = ℕ × ℕ

abbrev pub pointers : List Event → List ℕ
pointers [] = []
pointers (e ∷ es) = e.0 ∷ pointers es

-- The channels that epoll points to are there.
abbrev pub Present : Channels → List Event → Type 0
Present store es = All (λ e. (c : Channel) × (store e.0 ≡ some c)) es

abbrev pub Unnamed : ℕ → List Event → Type 0
Unnamed q es = All (λ e. q ≢ e.0) es

-- epoll_wait(2) returns a descriptor once.
abbrev pub Once : List Event → Type 0
Once [] = Unit {0}
Once (e ∷ es) = Unnamed e.0 es × Once es

abbrev pub returned : ℕ → Option Channel → Option Channel
returned ev none = none
returned ev (some c) = some (set_return_events c ev)

-- Each event stands in its channel, and the other channels are as they were.
pub record Arrived (store : Channels) (es : List Event) (store' : Channels) : Type 0 where
  pub here : All (λ e. store' e.0 ≡ returned e.1 (store e.0)) es
  pub others : (q : ℕ) → Unnamed q es → store' q ≡ store q

abbrev Collected : Channels → List ℕ → List Event → List ℕ × Channels → Type 0
Collected store active es t = (t.0 ≡ active ++ pointers es) × Arrived store es t.1

put_other : (store : Channels) (p q : ℕ) (c : Channel) → q ≢ p → put store p c q ≡ store q
put_other store p q c n = ap (λ b. if b then some c else store q) (ne→== q p n)

put-Present :
    (store : Channels) (p : ℕ) (c : Channel) (es : List Event)
    → Unnamed p es
    → Present store es
    → Present (put store p c) es
put-Present store p c [] u h = tt
put-Present store p c (e ∷ es) u h =
    ((h.0.0, put_other store p e.0 c (λ n. u.0 (sym n)) ∙ h.0.1), put-Present store p c es u.1 h.1)

arrived_below :
    (store store' : Channels) (p : ℕ) (c : Channel) (es : List Event)
    → Unnamed p es
    → All (λ e. store' e.0 ≡ returned e.1 (put store p c e.0)) es
    → All (λ e. store' e.0 ≡ returned e.1 (store e.0)) es
arrived_below store store' p c [] u h = tt
arrived_below store store' p c (e ∷ es) u h = (
  h.0 ∙ ap (returned e.1) (put_other store p e.0 c (λ n. u.0 (sym n))),
  arrived_below store store' p c es u.1 h.1,
)

collect-Collected :
    (es : List Event) (store : Channels) (active : List ℕ)
    → Present store es
    → Once es
    → Returns (collect store active es) (Collected store active es)
unfolding collect
collect-Collected [] store active h o =
    (sym (append-nil active), record { here = tt; others = λ q u. refl })
collect-Collected ((p, ev) ∷ es) store active h o =
    let c = h.0.0 in
    let store₁ = put store p (set_return_events c ev) in
    rw h.0.1 (
      Returns-mono (Collected store₁ (active ++ p ∷ []) es) _ _
        (collect-Collected es store₁ (active ++ p ∷ []) (put-Present store p _ es o.0 h.1) o.1)
        λ t g. (
          g.0 ∙ append_assoc active (p ∷ []) (pointers es),
          record {
            here = (
              g.1.others p o.0
                  ∙ ap (λ b. if b then some (set_return_events c ev) else store p) (==-self p)
                  ∙ sym (ap (returned ev) h.0.1),
              arrived_below store t.1 p _ es o.0 g.1.here,
            );
            others = λ q u. g.1.others q u.1 ∙ put_other store p q _ u.0;
          },
        ))

-- What a poll leaves.
pub record Polled {K : Type 0} (p : Epoller K) (store : Channels) (active : List ℕ)
    (es : List Event) (t : List ℕ × Channels × Epoller K) : Type 0 where
  pub delivered : t.0 ≡ active ++ pointers es
  pub arrived : Arrived store es t.1
  pub kernel : t.2.kernel ≡ p.kernel
  pub capacity : t.2.capacity ≡ (if length es == p.capacity then p.capacity * 2 else p.capacity)

capacity_kept : (n : ℕ) → 0 < n → n ≡ (if 0 == n then n * 2 else n)
capacity_kept n h = ground arith

-- A poll that epoll_wait(2) answers with events returns: the channels of the events are added to
-- the active ones, in order, each with its event in it, the other channels are as they were, and
-- the room for events doubles exactly if it was filled. (The channels are there, each is named
-- once, and there is room.)
pub poll-Polled :
    {K : Type 0} (p : Epoller K) (store : Channels) (active : List ℕ) (es : List Event)
    → 0 < p.capacity
    → Present store es
    → Once es
    → Returns (poll p store active (some es)) (Polled p store active es)
unfolding poll
poll-Polled p store active [] room h o = record {
  delivered = sym (append-nil active);
  arrived = record { here = tt; others = λ q u. refl };
  kernel = refl;
  capacity = capacity_kept p.capacity room;
}
poll-Polled p store active (e ∷ es) room h o =
    Returns-bind (Collected store active (e ∷ es)) _ (collect store active (e ∷ es)) _
      (collect-Collected (e ∷ es) store active h o)
      λ t g. record {
        delivered = g.0;
        arrived = g.1;
        kernel = kernel_kept (length (e ∷ es) == p.capacity);
        capacity = doubled (length (e ∷ es) == p.capacity);
      }
  where
    kernel_kept :
        (full : Bool)
        → (if full then record p { capacity = p.capacity * 2 } else p).kernel ≡ p.kernel
    kernel_kept full = ground arith

    doubled :
        (full : Bool)
        → (if full then record p { capacity = p.capacity * 2 } else p).capacity
          ≡ (if full then p.capacity * 2 else p.capacity)
    doubled full = ground arith
