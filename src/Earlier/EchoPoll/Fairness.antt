-- ===== src/Earlier/EchoPoll/Fairness.antt =====
-- What the echo server of v1.1 sends, and that only a client's own events close it.
use net_server_stepby_step.Base.{
  ℕ, zero, suc, ◌≡◌, ◌≢◌, refl, ◌∙◌, ap, sym, List, [], ◌∷◌, ◌++◌, append-nil, append_assoc, Bool,
  true, false, Bool-cases, inl, inr, Option, none, some, take, All, ◌==◌, ne→==, if◌then◌else◌, has,
  epollin, done, arith, lt→ltb, ◌>>=◌,
}
use net_server_stepby_step.Acceptor.{sockets_accept}
use net_server_stepby_step.Earlier.Echo.{Answers, set_at}
use net_server_stepby_step.Earlier.Echo.Replies.{
  reply, answers_to, echoed, Safely, Safely-bind, Safely-mono, nothing_added, take_nil,
  set_at_append,
}
use net_server_stepby_step.Earlier.EchoPoll.{EchoPoller, register_fd, on_received, poll_one, poll}

-- These bytes have been added to those sent, and a descriptor other than that of the event is as
-- open as it was, or open.
abbrev Polled : (ℕ → List ℕ) → ℕ → EchoPoller → EchoPoller → Type 0
Polled bytes fd s s' =
    ((j : ℕ) → s'.sent j ≡ s.sent j ++ bytes j)
    × ((j : ℕ) → j ≢ fd → s.is_open j ≡ true → s'.is_open j ≡ true)

on_received_lem :
    (fd : ℕ) (r : Option (List ℕ)) (taken : ℕ) (s : EchoPoller)
    → Polled (λ j. if j == fd then reply r taken else []) fd s (on_received fd r taken s)
unfolding on_received
on_received_lem fd none taken s = (
  λ j. nothing_added (s.sent j) [] (j == fd) refl,
  λ j n o. ap (λ b. if b then false else s.is_open j) (ne→== j fd n) ∙ o,
)
on_received_lem fd (some []) taken s = (
  λ j. nothing_added (s.sent j) (take taken []) (j == fd) (take_nil taken),
  λ j n o. ap (λ b. if b then false else s.is_open j) (ne→== j fd n) ∙ o,
)
on_received_lem fd (some (x ∷ xs)) taken s =
    (λ j. set_at_append s.sent fd j (take taken (x ∷ xs)), λ j n o. o)

still_open : (b o : Bool) → o ≡ true → (if b then true else o) ≡ true
still_open b o h = ground arith

poll_one_lem :
    (server_sock fd ev : ℕ) (a : Answers) (s : EchoPoller)
    → Safely (poll_one server_sock (fd, ev) a s) (
        Polled
          (λ j. if answers_to server_sock j (fd, ev) then reply a.received a.taken else [])
          fd
          s)
unfolding poll_one
poll_one_lem server_sock fd ev a s = elim (Bool-cases (fd == server_sock)) [
  | inl own ↦ rw own (go a.accepted)
  | inr client ↦ rw client (elim (Bool-cases (has ev epollin)) [
    | inl readable ↦ rw readable (on_received_lem fd a.received a.taken s)
    | inr other ↦ rw other (λ j. sym (append-nil (s.sent j)), λ j n o. o)
  ])
]
  where
    go :
        (o : Option ℕ)
        → Safely
            (sockets_accept o >>= λ c.
              done (register_fd c (record s { is_open = set_at s.is_open c true })))
            (Polled (λ j. []) fd s)
    go none = refl
    go (some zero) = refl
    go (some (suc c)) =
        let positive = lt→ltb 0 (suc c) (omega arith) in
        simp positive
          (λ j. sym (append-nil (s.sent j)), λ j n o. still_open (j == suc c) (s.is_open j) o)

-- Whatever the events of a round and the answers to them, the server of v1.1 handles them all, or
-- ends at the assertion on accept4: each descriptor is sent, in order, what send took of the bytes
-- received from it, and nothing else, and a descriptor that is open and has no event stays open.
pub poll-echoed :
    (server_sock : ℕ) (es : List ((ℕ × ℕ) × Answers)) (s : EchoPoller)
    → Safely (poll server_sock es s) (λ s'.
      ((j : ℕ) → s'.sent j ≡ s.sent j ++ echoed server_sock j es)
      × ((j : ℕ) → All (λ e. j ≢ e.0.0) es → s.is_open j ≡ true → s'.is_open j ≡ true))
unfolding poll
poll-echoed server_sock [] s = (λ j. sym (append-nil (s.sent j)), λ j n o. o)
poll-echoed server_sock (((fd, ev), a) ∷ es) s =
    Safely-bind
      (Polled (λ j. if answers_to server_sock j (fd, ev) then reply a.received a.taken else []) fd
        s)
      _ (poll_one server_sock (fd, ev) a s) _ (poll_one_lem server_sock fd ev a s)
      λ s₁ g. Safely-mono _ _ (poll server_sock es s₁) (poll-echoed server_sock es s₁) λ s₂ k. (
        λ j.
            k.0 j
            ∙ ap (λ t. t ++ echoed server_sock j es) (g.0 j)
            ∙ append_assoc (s.sent j) _ (echoed server_sock j es),
        λ j n o. k.1 j n.1 (g.1 j n.0 o),
      )
