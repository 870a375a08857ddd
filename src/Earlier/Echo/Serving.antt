-- ===== src/Earlier/Echo/Serving.antt =====
-- The whole program of v1.0, from its first system call on.
use net_server_stepby_step.Base.{
  ℕ, ◌≡◌, refl, ◌∙◌, sym, ap, subst, List, [], ◌∷◌, ◌++◌, true, Option, none, some, ==-self, ◌>>=◌,
  bind_assoc, bind_cong,
}
use net_server_stepby_step.Earlier.Echo.{
  Server, Answers, addfd, set_non_blocking, after_accept, handle_event, handle_events, new_server,
  serve, main,
}
use net_server_stepby_step.Earlier.Echo.Replies.{
  Safely, Safely-bind, Safely-mono, is_some, Expected, echoed, handle_events-echoed,
}

-- The events of all rounds.
abbrev pub flat : List (List ((ℕ × ℕ) × Answers)) → List ((ℕ × ℕ) × Answers)
flat [] = []
flat (es ∷ rounds) = es ++ flat rounds

-- The first event of all is one of the listening socket.
abbrev pub StartsAt : ℕ → List ((ℕ × ℕ) × Answers) → Type 0
StartsAt server_sock [] = Unit {0}
StartsAt server_sock (x ∷ es) = x.0.0 ≡ server_sock

handle_events-append :
    (server_sock : ℕ) (es fs : List ((ℕ × ℕ) × Answers)) (s : Server)
    → handle_events server_sock (es ++ fs) s
      ≡ (handle_events server_sock es s >>= handle_events server_sock fs)
unfolding handle_events
handle_events-append server_sock [] fs s = refl
handle_events-append server_sock ((e, a) ∷ es) fs s =
    let m = handle_event server_sock e a s in
    bind_cong m _ _ (λ s₁. handle_events-append server_sock es fs s₁)
    ∙ sym (bind_assoc m (handle_events server_sock es) (handle_events server_sock fs))

-- The rounds are one list of events.
serve_lem :
    (server_sock : ℕ) (rounds : List (List ((ℕ × ℕ) × Answers))) (s : Server)
    → serve server_sock rounds s ≡ handle_events server_sock (flat rounds) s
unfolding serve handle_events
serve_lem server_sock [] s = refl
serve_lem server_sock (es ∷ rounds) s =
    bind_cong (handle_events server_sock es s) _ _ (λ s₁. serve_lem server_sock rounds s₁)
    ∙ sym (handle_events-append server_sock es (flat rounds) s)

-- Once `connect_sock` is set, any event may come.
is_some-Expected :
    (server_sock : ℕ) (es : List ((ℕ × ℕ) × Answers)) (o : Option ℕ)
    → is_some o ≡ true
    → Expected server_sock es o
is_some-Expected server_sock [] o h = tt
is_some-Expected server_sock (x ∷ es) o h = (λ n. h, is_some-Expected server_sock es o h)

-- The first connection.
first_lem :
    (server_sock ev : ℕ) (a : Answers) (s : Server)
    → Safely
        (handle_event server_sock (server_sock, ev) a s)
        (λ s'. (is_some s'.connect_sock ≡ true) × ((j : ℕ) → s'.sent j ≡ s.sent j))
unfolding handle_event
first_lem server_sock ev a s = let own = ==-self server_sock in rw own (go a.accepted)
  where
    go :
        (o : Option ℕ)
        → Safely
            (after_accept o s)
            (λ s'. (is_some s'.connect_sock ≡ true) × ((j : ℕ) → s'.sent j ≡ s.sent j))
    go none = unfold after_accept in refl
    go (some c) = unfold after_accept addfd set_non_blocking in (refl, λ j. refl)

-- No bytes wait to be sent before the loop, and the first connection sends none.
first_event-echoed :
    (server_sock ev : ℕ) (a : Answers) (es : List ((ℕ × ℕ) × Answers))
    → Safely
        (handle_events server_sock (((server_sock, ev), a) ∷ es) (new_server server_sock))
        (λ s. (j : ℕ) → s.sent j ≡ echoed server_sock j (((server_sock, ev), a) ∷ es))
unfolding handle_events new_server addfd set_non_blocking
first_event-echoed server_sock ev a es =
    let s₀ = new_server server_sock in
    let own = ==-self server_sock in
    Safely-bind (λ s'. (is_some s'.connect_sock ≡ true) × ((j : ℕ) → s'.sent j ≡ s₀.sent j)) _
      (handle_event server_sock (server_sock, ev) a s₀) _ (first_lem server_sock ev a s₀)
      λ s₁ g.
        Safely-mono _ _ (handle_events server_sock es s₁)
          (handle_events-echoed server_sock es s₁
            (is_some-Expected server_sock es s₁.connect_sock g.0))
          λ s₂ k j. rw own (k j ∙ ap (λ t. t ++ echoed server_sock j es) (g.1 j))

all_events-echoed :
    (server_sock : ℕ) (es : List ((ℕ × ℕ) × Answers))
    → StartsAt server_sock es
    → Safely
        (handle_events server_sock es (new_server server_sock))
        (λ s. (j : ℕ) → s.sent j ≡ echoed server_sock j es)
unfolding handle_events new_server addfd
all_events-echoed server_sock [] h = λ j. refl
all_events-echoed server_sock (((fd, ev), a) ∷ es) h =
    subst
      (λ fd.
        Safely (handle_events server_sock (((fd, ev), a) ∷ es) (new_server server_sock))
          (λ s. (j : ℕ) → s.sent j ≡ echoed server_sock j (((fd, ev), a) ∷ es)))
      (sym h) (first_event-echoed server_sock ev a es)

-- Once v1.0 has its socket, whatever the system calls answer and whatever events come, for any
-- number of rounds of its loop, the program handles them all, or ends at an assertion on a call of
-- the set-up or on accept4: it never uses `connect_sock` before it is set, and each descriptor is sent, in order,
-- what send took of the bytes received from it in all rounds, and nothing else. (The first event of
-- all is one of the listening socket.)
pub main-echoed :
    (server_sock : ℕ) (bound listening epoll : Option ℕ) (rounds : List (List ((ℕ × ℕ) × Answers)))
    → StartsAt server_sock (flat rounds)
    → Safely
        (main (some server_sock) bound listening epoll rounds)
        (λ s. (j : ℕ) → s.sent j ≡ echoed server_sock j (flat rounds))
unfolding main
main-echoed server_sock none listening epoll rounds h = refl
main-echoed server_sock (some b) none epoll rounds h = refl
main-echoed server_sock (some b) (some l) none rounds h = refl
main-echoed server_sock (some b) (some l) (some e) rounds h =
    subst (λ o. Safely o (λ s. (j : ℕ) → s.sent j ≡ echoed server_sock j (flat rounds)))
      (sym (serve_lem server_sock rounds (new_server server_sock)))
      (all_events-echoed server_sock (flat rounds) h)
