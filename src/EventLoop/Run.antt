-- ===== src/EventLoop/Run.antt =====
-- `EventLoop::loop` against a relation of its rounds.
use mathlib.Core.Option.{some-injective}
use net_server_stepby_step.Base.{
  ◌↔◌, ℕ, zero, suc, ◌<◌, ◌≡◌, refl, subst, ◌∙◌, sym, ap, List, true, false, Bool-cases, inl, inr,
  Option, none, some, Outcome, Fault, Outcome-cases, done-injective, done, failed, arith,
}
use net_server_stepby_step.Channel.Dispatch.{Callbacks}
use net_server_stepby_step.EventLoop.{Reactor, go_on, end_loop, set_looping, round, run_while, loop}

module _ {K : Type 0} (wait : ℕ → K → Option (List (ℕ × ℕ)) × K)
    (callbacks : ℕ → Callbacks (Reactor K)) where
  -- So many whole rounds, none of them begun after `quit` was called, and then `quit` was.
  pub data Rounds : ℕ → Reactor K → Reactor K → Type 0 where
    stopped : {r : Reactor K} → r.is_quitting ≡ true → Rounds 0 r r
    another :
        {n : ℕ} {r r₁ r' : Reactor K}
        → r.is_quitting ≡ false
        → round wait callbacks r ≡ done r₁
        → Rounds n r₁ r'
        → Rounds (suc n) r r'

  run_while_stop :
      (fuel : ℕ) (r : Reactor K)
      → r.is_quitting ≡ true
      → run_while wait callbacks (suc fuel) r ≡ some (done r)
  unfolding run_while
  run_while_stop fuel r q = simp q

  run_while_step :
      (fuel : ℕ) (r : Reactor K) (o : Outcome (Reactor K))
      → r.is_quitting ≡ false
      → round wait callbacks r ≡ o
      → run_while wait callbacks (suc fuel) r ≡ go_on (run_while wait callbacks fuel) o
  unfolding run_while
  run_while_step fuel r o q e = simp (q, e)

  run_while-Rounds :
      {n : ℕ} {r r' : Reactor K}
      → Rounds n r r'
      → (fuel : ℕ) → n < fuel
      → run_while wait callbacks fuel r ≡ some (done r')
  run_while-Rounds (stopped q) zero h = absurd (omega arith)
  run_while-Rounds (stopped q) (suc fuel) h = run_while_stop fuel _ q
  run_while-Rounds (another q e rest) zero h = absurd (omega arith)
  run_while-Rounds (another q e rest) (suc fuel) h =
      run_while_step fuel _ _ q e ∙ run_while-Rounds rest fuel (omega arith)

  abbrev pub Ends : ℕ → Reactor K → Reactor K → Type 0
  Ends fuel r r' = (n : ℕ) × (n < fuel) × Rounds n r r'

  Rounds-run_while :
      (fuel : ℕ) (r r' : Reactor K)
      → run_while wait callbacks fuel r ≡ some (done r')
      → Ends fuel r r'
  Rounds-run_while zero r r' h = absurd (unfold run_while in cc)
  Rounds-run_while (suc fuel) r r' h = elim (Bool-cases r.is_quitting) [
    | inl q ↦ (
      0,
      omega arith,
      subst (λ s. Rounds 0 r s)
          (done-injective (some-injective _ _ (sym (run_while_stop fuel r q) ∙ h))) (stopped q),
    )
    | inr q ↦ elim (Outcome-cases (round wait callbacks r)) [
      | inl value ↦
          let (n, lt, rest) =
            Rounds-run_while fuel value.0 r'
              (sym (run_while_step fuel r (done value.0) q value.1) ∙ h) in
          (suc n, omega arith, another q value.1 rest)
      | inr fault ↦
          absurd (no_value fault.0 (sym (run_while_step fuel r (failed fault.0) q fault.1) ∙ h))
    ]
  ]
    where
      no_value : (f : Fault) → some (failed f) ≡ some (done r') → ⊥
      no_value f k = cc

  end_loop_done :
      (o : Option (Outcome (Reactor K))) (r' : Reactor K)
      → end_loop o ≡ some (done r')
      → (s : Reactor K) × (o ≡ some (done s)) × (r' ≡ set_looping s false)
  end_loop_done none r' h = cc
  end_loop_done (some (failed e)) r' h = cc
  end_loop_done (some (done s)) r' h = (s, refl, sym (done-injective (some-injective _ _ h)))

  -- A loop that is begun while none runs returns exactly if a sequence of whole rounds leads to a
  -- state in which `quit` has been called, and returns that state, with the loop marked as ended:
  -- a round that is under way when `quit` is called handles all of its active channels. One test
  -- of the condition more than there are rounds is enough.
  pub loop-Rounds :
      (fuel : ℕ) (r r' : Reactor K)
      → r.is_looping ≡ false
      → (loop wait callbacks fuel r ≡ some (done r'))
        ↔ ((s : Reactor K) × Ends fuel (set_looping r true) s × (r' ≡ set_looping s false))
  loop-Rounds fuel r r' idle = (
    λ h.
        let (s, e, same) = end_loop_done _ r' (sym begun ∙ h) in
        (s, Rounds-run_while fuel (set_looping r true) s e, same),
    λ (s, (n, lt, rounds), same).
        begun ∙ ap end_loop (run_while-Rounds rounds fuel lt) ∙ ap (λ r. some (done r)) (sym same),
  )
    where
      begun :
          loop wait callbacks fuel r ≡ end_loop (run_while wait callbacks fuel (set_looping r true))
      begun = unfold loop in simp idle
