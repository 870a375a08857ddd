-- ===== src/Earlier/ChannelMap/Agreement.antt =====
-- The channels of v1.2 change nothing of what the server of v1.1 does with an event.
use net_server_stepby_step.Base.{
  same_or_other, some-injective, subst, ℕ, ◌≡◌, ◌≢◌, refl, ◌∙◌, sym, ap, true, false, inl, inr,
  Option, none, some, ◌==◌, ==-self, ne→==, if◌then◌else◌, Outcome, done, failed, ◌>>=◌,
}
use net_server_stepby_step.Earlier.Echo.{set_at}
use net_server_stepby_step.Earlier.EchoPoll.{EchoPoller, close_fd, poll_one, on_received}
use net_server_stepby_step.Earlier.EchoPoll
use net_server_stepby_step.Earlier.ChannelMap.{
  Callback, accepts, replies, Channel, new_channel, MapPoller, or_else, register_fd, drop_fd,
}

-- Two runs that end alike: both with a value, and the values are related, or both at one fault.
abbrev pub Related : {A B : Type 0} → (A → B → Type 0) → Outcome A → Outcome B → Type 0
Related R (done a) (done b) = R a b
Related R (done a) (failed e) = ⊥
Related R (failed e) (done b) = ⊥
Related R (failed e) (failed f) = e ≡ f

pub Related-bind :
    {A B C D : Type 0} (R : A → B → Type 0) (S : C → D → Type 0) (m : Outcome A) (n : Outcome B)
    (f : A → Outcome C) (g : B → Outcome D)
    → Related R m n
    → ((a : A) (b : B) → R a b → Related S (f a) (g b))
    → Related S (m >>= f) (n >>= g)
Related-bind R S (done a) (done b) f g h k = k a b h
Related-bind R S (done a) (failed e) f g h k = absurd h
Related-bind R S (failed e) (done b) f g h k = absurd h
Related-bind R S (failed e) (failed e') f g h k = h

pub set_at_same : {A : Type 0} (f : ℕ → A) (i : ℕ) (a : A) → set_at f i a i ≡ a
set_at_same f i a = ap (λ b. if b then a else f i) (==-self i)

pub set_at_other : {A : Type 0} (f : ℕ → A) (i j : ℕ) (a : A) → j ≢ i → set_at f i a j ≡ f j
set_at_other f i j a n = ap (λ b. if b then a else f j) (ne→== j i n)

module _ (server_sock : ℕ) where
  -- The callback that belongs to a descriptor.
  abbrev pub callback_of : ℕ → Callback
  callback_of j = if j == server_sock then accepts else replies j

  -- The listening socket is watched, each descriptor that is watched has a channel, and channels have
  -- the callbacks of their descriptors.
  pub record Registered (s : MapPoller) : Type 0 where
    pub server_watched : s.core.watched server_sock ≡ true
    pub channel : (j : ℕ) → s.core.watched j ≡ true → (c : Channel) × (s.channels_map j ≡ some c)
    pub callbacks :
        (j : ℕ) (c : Channel)
        → s.channels_map j ≡ some c
        → (c.read_callback ≡ some (callback_of j)) × (c.close_callback ≡ none)

  abbrev pub Agrees : MapPoller → EchoPoller → Type 0
  Agrees s t = (s.core ≡ t) × Registered s

  -- So after an event of `fd`, which leaves the other channels as they were.
  abbrev pub Steps : ℕ → MapPoller → MapPoller → EchoPoller → Type 0
  Steps fd s s' t =
      Agrees s' t
      × ((j : ℕ) (c : Channel) → j ≢ fd → s.channels_map j ≡ some c → s'.channels_map j ≡ some c)

  -- Registering the descriptor of a client.
  pub register_fd-Steps :
      (fd c : ℕ) (s : MapPoller)
      → Registered s
      → let s₀ = record s { core = record (s.core) { is_open = set_at s.core.is_open c true } } in
        Steps fd s (register_fd c (replies c) s₀) (EchoPoll.register_fd c s₀.core)
  unfolding register_fd new_channel EchoPoll.register_fd
  register_fd-Steps fd c s r = (
    (
      refl,
      record {
        server_watched = elim (same_or_other server_sock c) [
          | inl e ↦
              subst (λ c. set_at s.core.watched c true server_sock ≡ true) e
                (set_at_same s.core.watched server_sock true)
          | inr n ↦ set_at_other s.core.watched c server_sock true n ∙ r.server_watched
        ];
        channel = λ j w. elim (same_or_other j c) [
          | inl e ↦ (new, ap added e ∙ set_at_same s.channels_map c (some new))
          | inr n ↦
              let (d, h) = r.channel j (sym (set_at_other s.core.watched c j true n) ∙ w) in
              (d, set_at_other s.channels_map c j (some new) n ∙ h)
        ];
        callbacks = λ j d h. elim (same_or_other j c) [
          | inl e ↦
              subst (λ j. (d.read_callback ≡ some (callback_of j)) × (d.close_callback ≡ none))
                (sym e)
                (subst (λ d. (d.read_callback ≡ some (callback_of c)) × (d.close_callback ≡ none))
                  (some-injective
                    (sym (set_at_same s.channels_map c (some new)) ∙ ap added (sym e) ∙ h))
                  (here (s.channels_map c) refl))
          | inr n ↦ r.callbacks j d (sym (set_at_other s.channels_map c j (some new) n) ∙ h)
        ];
      },
    ),
    λ j d n h. elim (same_or_other j c) [
      | inl e ↦
          ap added e
          ∙ set_at_same s.channels_map c (some new)
          ∙ ap (λ o. some (or_else o made)) (ap s.channels_map (sym e) ∙ h)
      | inr n ↦ set_at_other s.channels_map c j (some new) n ∙ h
    ],
  )
    where
      made : Channel
      made = record (new_channel c) { read_callback = some (replies c) }

      new : Channel
      new = or_else (s.channels_map c) made

      added : ℕ → Option Channel
      added = set_at s.channels_map c (some new)

      client : s.channels_map c ≡ none → (c == server_sock) ≡ false
      client h = ne→== c server_sock λ e.
          let (d, g) = r.channel server_sock r.server_watched in
          let no : none ≡ some d = sym h ∙ ap s.channels_map e ∙ g in cc

      here :
          (o : Option Channel)
          → s.channels_map c ≡ o
          → ((or_else o made).read_callback ≡ some (callback_of c))
            × ((or_else o made).close_callback ≡ none)
      here none h = (ap (λ b. some (if b then accepts else replies c)) (sym (client h)), refl)
      here (some d) h = r.callbacks c d h

  -- Closing a descriptor other than the listening socket.
  pub drop_fd-Steps :
      (fd : ℕ) (s : MapPoller)
      → fd ≢ server_sock
      → Registered s
      → Steps fd s (drop_fd fd s) (close_fd fd s.core)
  drop_fd-Steps fd s client r = (
    (
      refl,
      record {
        server_watched =
            set_at_other s.core.watched fd server_sock false (λ e. client (sym e))
            ∙ r.server_watched;
        channel = λ j w. elim (same_or_other j fd) [
          | inl e ↦ absurd (
              let no : false ≡ true =
                sym (set_at_same s.core.watched fd false)
                ∙ ap (set_at s.core.watched fd false) (sym e)
                ∙ w in
              cc)
          | inr n ↦
              let (d, h) = r.channel j (sym (set_at_other s.core.watched fd j false n) ∙ w) in
              (d, set_at_other s.channels_map fd j none n ∙ h)
        ];
        callbacks = λ j d h. elim (same_or_other j fd) [
          | inl e ↦ absurd (
              let no : none ≡ some d =
                sym (set_at_same s.channels_map fd none)
                ∙ ap (set_at s.channels_map fd none) (sym e)
                ∙ h in
              cc)
          | inr n ↦ r.callbacks j d (sym (set_at_other s.channels_map fd j none n) ∙ h)
        ];
      },
    ),
    λ j d n h. set_at_other s.channels_map fd j none n ∙ h,
  )
