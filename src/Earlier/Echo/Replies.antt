-- ===== src/Earlier/Echo/Replies.antt =====
-- What the echo server of v1.0 sends, and whom it closes.
use net_server_stepby_step.Base.{
  ℕ, zero, suc, ◌≡◌, ◌≢◌, refl, ◌∙◌, sym, ap, List, [], ◌∷◌, ◌++◌, append-nil, append_assoc, Bool,
  true, false, not, ◌&&◌, Bool-cases, inl, inr, Option, Option-cases, none, some, take, All, ◌==◌,
  ==→eq, ==→ne, if◌then◌else◌, has, epollin, Outcome, done, failed, assert_failed, ◌>>=◌,
}
use net_server_stepby_step.Earlier.Echo.{
  Server, Answers, set_at, addfd, set_non_blocking, after_recv, after_accept, handle_event,
  handle_events,
}

-- The bytes that are sent for one event, and those that a descriptor is sent for a list of events.
abbrev pub reply : Option (List ℕ) → ℕ → List ℕ
reply none taken = []
reply (some xs) taken = take taken xs

abbrev pub answers_to : ℕ → ℕ → ℕ × ℕ → Bool
answers_to server_sock fd (f, ev) = not (f == server_sock) && (has ev epollin && (fd == f))

abbrev pub echoed : ℕ → ℕ → List ((ℕ × ℕ) × Answers) → List ℕ
echoed server_sock fd [] = []
echoed server_sock fd ((e, a) ∷ es) =
    (if answers_to server_sock fd e then reply a.received a.taken else [])
    ++ echoed server_sock fd es

-- The run ends with such a value, or at an assertion.
abbrev pub Safely : {S : Type 0} → Outcome S → (S → Type 0) → Type 0
Safely (done s) P = P s
Safely (failed e) P = e ≡ assert_failed

pub Safely-bind :
    {S : Type 0} (P Q : S → Type 0) (m : Outcome S) (f : S → Outcome S)
    → Safely m P
    → ((s : S) → P s → Safely (f s) Q)
    → Safely (m >>= f) Q
Safely-bind P Q (done s) f h k = k s h
Safely-bind P Q (failed e) f h k = h

pub Safely-mono :
    {S : Type 0} (P Q : S → Type 0) (m : Outcome S)
    → Safely m P
    → ((s : S) → P s → Q s)
    → Safely m Q
Safely-mono P Q (done s) h k = k s h
Safely-mono P Q (failed e) h k = h

abbrev pub is_some : Option ℕ → Bool
is_some none = false
is_some (some n) = true

-- A client is heard of only once a connection has been accepted: epoll watches no other.
abbrev pub Expected : ℕ → List ((ℕ × ℕ) × Answers) → Option ℕ → Type 0
Expected server_sock es o = All (λ x. x.0.0 ≢ server_sock → is_some o ≡ true) es

-- `connect_sock` stays set, and these bytes have been added to those sent.
abbrev Added : (ℕ → List ℕ) → Server → Server → Type 0
Added bytes s s' =
    (is_some s.connect_sock ≡ true → is_some s'.connect_sock ≡ true)
    × ((j : ℕ) → s'.sent j ≡ s.sent j ++ bytes j)

pub nothing_added : (xs ys : List ℕ) (b : Bool) → ys ≡ [] → xs ≡ xs ++ (if b then ys else [])
nothing_added xs ys true e = rw e (sym (append-nil xs))
nothing_added xs ys false e = sym (append-nil xs)

pub take_nil : (n : ℕ) → take {A = ℕ} n [] ≡ []
take_nil zero = refl
take_nil (suc n) = refl

pub set_at_append :
    (f : ℕ → List ℕ) (i j : ℕ) (xs : List ℕ)
    → set_at f i (f i ++ xs) j ≡ f j ++ (if j == i then xs else [])
set_at_append f i j xs = elim (Bool-cases (j == i)) [
  | inl same ↦ rw same (ap (λ i. f i ++ xs) (sym (==→eq j i same)))
  | inr other ↦ rw other (sym (append-nil (f j)))
]

after_recv_lem :
    (fd : ℕ) (r : Option (List ℕ)) (taken : ℕ) (s : Server)
    → is_some s.connect_sock ≡ true
    → Safely (after_recv fd r taken s) (Added (λ j. if j == fd then reply r taken else []) s)
unfolding after_recv
after_recv_lem fd none taken s h = elim (Option-cases s.connect_sock) [
  | inl unset ↦ absurd (clash s.connect_sock unset h)
  | inr c ↦ simp c.1 (λ k. k, λ j. nothing_added (s.sent j) [] (j == fd) refl)
]
  where
    clash : (o : Option ℕ) → o ≡ none → is_some o ≡ true → ⊥
    clash none e k = cc
    clash (some n) e k = cc
after_recv_lem fd (some []) taken s h =
    (λ k. k, λ j. nothing_added (s.sent j) (take taken []) (j == fd) (take_nil taken))
after_recv_lem fd (some (x ∷ xs)) taken s h =
    (λ k. k, λ j. set_at_append s.sent fd j (take taken (x ∷ xs)))

handle_event_lem :
    (server_sock fd ev : ℕ) (a : Answers) (s : Server)
    → (fd ≢ server_sock → is_some s.connect_sock ≡ true)
    → Safely
        (handle_event server_sock (fd, ev) a s)
        (Added (λ j. if answers_to server_sock j (fd, ev) then reply a.received a.taken else []) s)
unfolding handle_event
handle_event_lem server_sock fd ev a s h = elim (Bool-cases (fd == server_sock)) [
  | inl own ↦ rw own (go a.accepted)
  | inr client ↦ rw client (elim (Bool-cases (has ev epollin)) [
    | inl readable ↦
        rw readable (after_recv_lem fd a.received a.taken s (h (==→ne fd server_sock client)))
    | inr other ↦ rw other (λ k. k, λ j. sym (append-nil (s.sent j)))
  ])
]
  where
    go : (o : Option ℕ) → Safely (after_accept o s) (Added (λ j. []) s)
    go none = unfold after_accept in refl
    go (some c) =
        unfold after_accept addfd set_non_blocking in (λ k. refl, λ j. sym (append-nil (s.sent j)))

Expected-mono :
    (server_sock : ℕ) (es : List ((ℕ × ℕ) × Answers)) (o o' : Option ℕ)
    → (is_some o ≡ true → is_some o' ≡ true)
    → Expected server_sock es o
    → Expected server_sock es o'
Expected-mono server_sock [] o o' f h = tt
Expected-mono server_sock (x ∷ es) o o' f h =
    (λ n. f (h.0 n), Expected-mono server_sock es o o' f h.1)

-- Whatever the events of a round and the answers to them, the server of v1.0 handles them all, or
-- ends at the assertion on accept4: it never uses `connect_sock` before it is set, and each
-- descriptor is sent, in order, what send took of the bytes received from it, and nothing else.
-- (Events of clients come only once a connection has been accepted.)
pub handle_events-echoed :
    (server_sock : ℕ) (es : List ((ℕ × ℕ) × Answers)) (s : Server)
    → Expected server_sock es s.connect_sock
    → Safely
        (handle_events server_sock es s)
        (λ s'. (j : ℕ) → s'.sent j ≡ s.sent j ++ echoed server_sock j es)
unfolding handle_events
handle_events-echoed server_sock [] s h = λ j. sym (append-nil (s.sent j))
handle_events-echoed server_sock (((fd, ev), a) ∷ es) s h =
    Safely-bind
      (Added (λ j. if answers_to server_sock j (fd, ev) then reply a.received a.taken else []) s) _
      (handle_event server_sock (fd, ev) a s) _ (handle_event_lem server_sock fd ev a s h.0)
      λ s₁ g.
        Safely-mono _ _ (handle_events server_sock es s₁)
          (handle_events-echoed server_sock es s₁ (Expected-mono server_sock es _ _ g.0 h.1))
          λ s₂ k j.
            k j
            ∙ ap (λ t. t ++ echoed server_sock j es) (g.1 j)
            ∙ append_assoc (s.sent j) _ (echoed server_sock j es)
