-- ===== src/Earlier/ChannelMap/Rounds.antt =====
-- A round of the loop of v1.2, which first collects the active channels and then runs them, against
-- the one loop of v1.1.
use net_server_stepby_step.Base.{
  ◌==◌, ==-self, if◌then◌else◌, subst, ℕ, ◌≡◌, ◌≢◌, refl, ◌∙◌, sym, ap, List, [], ◌∷◌, map, true,
  false, inl, inr, same_or_other, some-injective, none, some, All, has, epollin,
}
use net_server_stepby_step.Earlier.Echo.{Answers, set_at}
use net_server_stepby_step.Earlier.EchoPoll.{EchoPoller, poll_one}
use net_server_stepby_step.Earlier.EchoPoll
use net_server_stepby_step.Earlier.ChannelMap.{
  accepts, replies, register_fd, new_map_poller, Channel, new_channel, MapPoller, or_else,
  handle_events, poll, run_active, round,
}
use net_server_stepby_step.Earlier.ChannelMap.Agreement.{
  Related, Related-bind, set_at_same, set_at_other, Registered, Agrees, Steps, callback_of,
}
use net_server_stepby_step.Earlier.ChannelMap.Handling.{handle_events-Steps}

-- No descriptor has two events.
abbrev pub Distinct : List (ℕ × ℕ) → Type 0
Distinct [] = Unit {0}
Distinct ((fd, ev) ∷ es) = All (λ e. e.0 ≢ fd) es × Distinct es

-- Each event stands in the channel of its descriptor.
abbrev Pending : List (ℕ × ℕ) → MapPoller → Type 0
Pending [] s = Unit {0}
Pending ((fd, ev) ∷ es) s =
    ((c : Channel) × (s.channels_map fd ≡ some c) × (c.revents ≡ ev)) × Pending es s

-- The events with the answers of the system calls about their descriptors.
abbrev pub with_answers : (ℕ → Answers) → List (ℕ × ℕ) → List ((ℕ × ℕ) × Answers)
with_answers answers es = map (λ e. (e, answers e.0)) es

module _ (server_sock : ℕ) where
  Pending-kept :
      (es : List (ℕ × ℕ)) (fd : ℕ) (s s' : MapPoller)
      → All (λ e. e.0 ≢ fd) es
      → ((j : ℕ) (c : Channel) → j ≢ fd → s.channels_map j ≡ some c → s'.channels_map j ≡ some c)
      → Pending es s
      → Pending es s'
  Pending-kept [] fd s s' n k p = tt
  Pending-kept ((j, ev) ∷ es) fd s s' n k ((c, e, v), p) =
      ((c, k j c n.0 e, v), Pending-kept es fd s s' n.1 k p)

  -- What `poll` leaves, on events that are watched for.
  record Collected (es : List (ℕ × ℕ)) (s : MapPoller) (t : List ℕ × MapPoller) : Type 0 where
    active : t.0 ≡ map (λ e. e.0) es
    core : t.1.core ≡ s.core
    registered : Registered server_sock t.1
    pending : Pending es t.1
    others : (j : ℕ) → All (λ e. e.0 ≢ j) es → t.1.channels_map j ≡ s.channels_map j

  -- The channel of an event gets its events, and nothing else changes.
  set_revents-Registered :
      (fd ev : ℕ) (s : MapPoller) (c : Channel)
      → s.channels_map fd ≡ some c
      → Registered server_sock s
      → Registered server_sock
          (record s { channels_map = set_at s.channels_map fd (some (record c { revents = ev })) })
  set_revents-Registered fd ev s c e r = record {
    server_watched = r.server_watched;
    channel = λ j w. elim (same_or_other j fd) [
      | inl here ↦ (
        new,
        ap (set_at s.channels_map fd (some new)) here ∙ set_at_same s.channels_map fd (some new),
      )
      | inr n ↦ let (d, h) = r.channel j w in (d, set_at_other s.channels_map fd j (some new) n ∙ h)
    ];
    callbacks = λ j d h. elim (same_or_other j fd) [
      | inl here ↦
          subst
            (λ d. (d.read_callback ≡ some (callback_of server_sock j)) × (d.close_callback ≡ none))
            (some-injective (
              sym (set_at_same s.channels_map fd (some new))
              ∙ ap (set_at s.channels_map fd (some new)) (sym here)
              ∙ h))
            (r.callbacks j c (ap s.channels_map here ∙ e))
      | inr n ↦ r.callbacks j d (sym (set_at_other s.channels_map fd j (some new) n) ∙ h)
    ];
  }
    where
      new : Channel
      new = record c { revents = ev }

  poll-Collected :
      (es : List (ℕ × ℕ)) (s : MapPoller)
      → Registered server_sock s
      → Distinct es
      → All (λ e. s.core.watched e.0 ≡ true) es
      → Collected es s (poll es s)
  unfolding poll
  poll-Collected [] s r d w = record {
    active = refl;
    core = refl;
    registered = r;
    pending = tt;
    others = λ j n. refl;
  }
  poll-Collected ((fd, ev) ∷ es) s r d w =
      let (c, e) = r.channel fd w.0 in
      let new : Channel = record c { revents = ev } in
      let old = or_else (s.channels_map fd) (new_channel 0) in
      let same : record old { revents = ev } ≡ new =
        ap (λ o. record (or_else o (new_channel 0)) { revents = ev }) e in
      let s₁ = record s { channels_map = set_at s.channels_map fd (some new) } in
      let g = poll-Collected es s₁ (set_revents-Registered fd ev s c e r) d.1 w.1 in
      subst
        (λ c.
          let t = poll es (record s { channels_map = set_at s.channels_map fd (some c) }) in
          Collected ((fd, ev) ∷ es) s (fd ∷ t.0, t.1))
        (sym same)
        (record {
          active = ap (λ l. fd ∷ l) g.active;
          core = g.core;
          registered = g.registered;
          pending =
              ((new, g.others fd d.0 ∙ set_at_same s.channels_map fd (some new), refl), g.pending);
          others = λ j n.
              g.others j n.1 ∙ set_at_other s.channels_map fd j (some new) (λ e. n.0 (sym e));
        })

  module _ (answers : ℕ → Answers) where
    run_active-Agrees :
        (es : List (ℕ × ℕ)) (s : MapPoller)
        → Registered server_sock s
        → Pending es s
        → Distinct es
        → All (λ e. e.0 ≡ server_sock → has e.1 epollin ≡ true) es
        → Related
            (Agrees server_sock)
            (run_active answers (map (λ e. e.0) es) s)
            (EchoPoll.poll server_sock (with_answers answers es) s.core)
    unfolding run_active EchoPoll.poll
    run_active-Agrees [] s r p d h = (refl, r)
    run_active-Agrees ((fd, ev) ∷ es) s r ((c, e, v), p) d h =
        Related-bind (Steps server_sock fd s) (Agrees server_sock) (handle_events fd (answers fd) s)
          (poll_one server_sock (fd, ev) (answers fd) s.core)
          (run_active answers (map (λ e. e.0) es))
          (EchoPoll.poll server_sock (with_answers answers es))
          (handle_events-Steps server_sock fd ev (answers fd) s c r e v h.0)
          λ s₁ t g.
            subst
              (λ t.
                Related (Agrees server_sock) (run_active answers (map (λ e. e.0) es) s₁)
                  (EchoPoll.poll server_sock (with_answers answers es) t))
              g.0.0 (run_active-Agrees es s₁ g.0.1 (Pending-kept es fd s s₁ d.0 g.1 p) d.1 h.1)

    -- A round of the loop of v1.2 does to descriptors and bytes what `poll` of v1.1 does on the same
    -- events and answers, or ends at the same assertion, and leaves each watched descriptor with a
    -- channel that has the callback of its kind. (So it was before, no descriptor has two events,
    -- each is watched, and an event of the listening socket has EPOLLIN.)
    pub round-Agrees :
        (es : List (ℕ × ℕ)) (s : MapPoller)
        → Registered server_sock s
        → Distinct es
        → All (λ e. s.core.watched e.0 ≡ true) es
        → All (λ e. e.0 ≡ server_sock → has e.1 epollin ≡ true) es
        → Related
            (Agrees server_sock)
            (round answers es s)
            (EchoPoll.poll server_sock (with_answers answers es) s.core)
    unfolding round
    round-Agrees es s r d w h =
        let g = poll-Collected es s r d w in
        let t = poll es s in
        subst
          (λ l.
            Related (Agrees server_sock) (run_active answers l t.1)
              (EchoPoll.poll server_sock (with_answers answers es) s.core))
          (sym g.active)
          (subst
            (λ k.
              Related (Agrees server_sock) (run_active answers (map (λ e. e.0) es) t.1)
                (EchoPoll.poll server_sock (with_answers answers es) k))
            g.core (run_active-Agrees es t.1 g.registered g.pending d h))

  -- What the constructor leaves.
  pub new_map_poller-Registered : Registered server_sock (new_map_poller server_sock)
  unfolding new_map_poller register_fd EchoPoll.register_fd new_channel
  new_map_poller-Registered = record {
    server_watched = set_at_same (λ _. false) server_sock true;
    channel = λ j w. elim (same_or_other j server_sock) [
      | inl here ↦ (
        own,
        ap (set_at (λ _. none) server_sock (some own)) here
            ∙ set_at_same (λ _. none) server_sock (some own),
      )
      | inr n ↦
          absurd
            (let no : false ≡ true = sym (set_at_other (λ _. false) server_sock j true n) ∙ w in cc)
    ];
    callbacks = λ j c e. elim (same_or_other j server_sock) [
      | inl here ↦
          subst
            (λ c. (c.read_callback ≡ some (callback_of server_sock j)) × (c.close_callback ≡ none))
            (some-injective (
              sym (set_at_same (λ _. none) server_sock (some own))
              ∙ ap (set_at (λ _. none) server_sock (some own)) (sym here)
              ∙ e))
            (
              ap (λ b. some (if b then accepts else replies j))
                  (sym (==-self j) ∙ ap (λ k. j == k) here),
              refl,
            )
      | inr n ↦ absurd (
          let no : none ≡ some c = sym (set_at_other (λ _. none) server_sock j (some own) n) ∙ e in
          cc)
    ];
  }
    where
      own : Channel
      own = record {
        fd = server_sock;
        revents = 0;
        read_callback = some accepts;
        close_callback = none;
      }
