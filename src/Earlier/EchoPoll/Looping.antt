-- ===== src/Earlier/EchoPoll/Looping.antt =====
-- The loop of v1.1 over the echo server.
use net_server_stepby_step.Base.{
  ℕ, ◌≡◌, ◌≢◌, refl, ◌∙◌, ap, sym, List, [], ◌∷◌, ◌++◌, append-nil, append_assoc, true, All,
  if◌then◌else◌,
}
use net_server_stepby_step.Earlier.Echo.{Answers}
use net_server_stepby_step.Earlier.Echo.Replies.{
  echoed, reply, answers_to, Safely, Safely-bind, Safely-mono,
}
use net_server_stepby_step.Earlier.Echo.Serving.{flat}
use net_server_stepby_step.Earlier.EchoPoll.{EchoPoller, poll, loop}
use net_server_stepby_step.Earlier.EchoPoll.Fairness.{poll-echoed}

echoed-append :
    (server_sock j : ℕ) (es fs : List ((ℕ × ℕ) × Answers))
    → echoed server_sock j (es ++ fs) ≡ echoed server_sock j es ++ echoed server_sock j fs
echoed-append server_sock j [] fs = refl
echoed-append server_sock j ((e, a) ∷ es) fs =
    let bytes = if answers_to server_sock j e then reply a.received a.taken else [] in
    ap (λ t. bytes ++ t) (echoed-append server_sock j es fs)
    ∙ sym (append_assoc bytes (echoed server_sock j es) (echoed server_sock j fs))

All-append : {A : Type 0} (P : A → Type 0) (xs ys : List A) → All P (xs ++ ys) → All P xs × All P ys
All-append P [] ys h = (tt, h)
All-append P (x ∷ xs) ys h = let t = All-append P xs ys h.1 in ((h.0, t.0), t.1)

-- For any number of rounds of its loop, and whatever the events and the answers to them, the server
-- of v1.1 handles them all, or ends at the assertion on accept4: each descriptor is sent, in order,
-- what send took of the bytes received from it in all rounds, and nothing else, and a descriptor
-- that is open and has no event in any of them stays open.
pub loop-echoed :
    (server_sock : ℕ) (rounds : List (List ((ℕ × ℕ) × Answers))) (s : EchoPoller)
    → Safely (loop server_sock rounds s) (λ s'.
      ((j : ℕ) → s'.sent j ≡ s.sent j ++ echoed server_sock j (flat rounds))
      × ((j : ℕ) → All (λ e. j ≢ e.0.0) (flat rounds) → s.is_open j ≡ true → s'.is_open j ≡ true))
unfolding loop
loop-echoed server_sock [] s = (λ j. sym (append-nil (s.sent j)), λ j n o. o)
loop-echoed server_sock (es ∷ rounds) s =
    Safely-bind _ _ (poll server_sock es s) _ (poll-echoed server_sock es s) λ s₁ g.
      Safely-mono _ _ (loop server_sock rounds s₁) (loop-echoed server_sock rounds s₁) λ s₂ k. (
        λ j.
            k.0 j
            ∙ ap (λ t. t ++ echoed server_sock j (flat rounds)) (g.0 j)
            ∙ append_assoc (s.sent j) (echoed server_sock j es) (echoed server_sock j (flat rounds))
            ∙ ap (λ t. s.sent j ++ t) (sym (echoed-append server_sock j es (flat rounds))),
        λ j n o. let t = All-append (λ e. j ≢ e.0.0) es (flat rounds) n in k.1 j t.1 (g.1 j t.0 o),
      )
