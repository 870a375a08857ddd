-- ===== src/TcpServer/Table.antt =====
-- `tcpConnections_`, the map from names to connections: what insertion and erasure do to lookup.
use net_server_stepby_step.Base.{
  subst, ℕ, ◌≡◌, refl, ◌∙◌, sym, ap, List, [], ◌∷◌, true, false, Bool-cases, inl, inr, Option, none,
  some, ◌==◌, ==→eq, if◌then◌else◌,
}
use net_server_stepby_step.TcpServer.{insert_name, erase_name, owns}
use net_server_stepby_step.TcpServer.Names.{same_name, same_name_self, same_name→eq}

-- The object that the map has under a name.
abbrev pub find_name : List ℕ → List (List ℕ × ℕ) → Option ℕ
find_name n [] = none
find_name n ((m, q) ∷ t) = if same_name m n then some q else find_name n t

-- No name stands in the map twice.
abbrev pub Keyed : List (List ℕ × ℕ) → Type 0
Keyed [] = Unit {0}
Keyed ((m, q) ∷ t) = (find_name m t ≡ none) × Keyed t

same_name_swap : (m n : List ℕ) → same_name m n ≡ false → same_name n m ≡ false
same_name_swap m n h = elim (Bool-cases (same_name n m)) [
  | inl e ↦ absurd (
      let same : same_name m n ≡ true =
        ap (λ k. same_name k n) (sym (same_name→eq n m e)) ∙ same_name_self n in
      cc)
  | inr e ↦ e
]

pub find_name-insert_name :
    (n : List ℕ) (p : ℕ) (t : List (List ℕ × ℕ)) → find_name n (insert_name n p t) ≡ some p
unfolding insert_name
find_name-insert_name n p [] = ap (λ b. if b then some p else none) (same_name_self n)
find_name-insert_name n p ((m, q) ∷ t) = elim (Bool-cases (same_name m n)) [
  | inl here ↦ rw here (ap (λ b. if b then some p else find_name n t) (same_name_self n))
  | inr there ↦ rw there (
      ap (λ b. if b then some q else find_name n (insert_name n p t)) there
      ∙ find_name-insert_name n p t)
]

pub find_name-insert_name_other :
    (m n : List ℕ) (p : ℕ) (t : List (List ℕ × ℕ))
    → same_name n m ≡ false
    → find_name m (insert_name n p t) ≡ find_name m t
unfolding insert_name
find_name-insert_name_other m n p [] h = rw h refl
find_name-insert_name_other m n p ((k, q) ∷ t) h = elim (Bool-cases (same_name k n)) [
  | inl here ↦ rw here (
      ap (λ b. if b then some p else find_name m t) h
      ∙ sym (
          ap (λ b. if b then some q else find_name m t)
            (ap (λ k. same_name k m) (same_name→eq k n here) ∙ h)))
  | inr there ↦
      rw there
        (ap (λ o. if same_name k m then some q else o) (find_name-insert_name_other m n p t h))
]

pub find_name-erase_name :
    (n : List ℕ) (t : List (List ℕ × ℕ)) → Keyed t → find_name n (erase_name n t) ≡ none
unfolding erase_name
find_name-erase_name n [] k = refl
find_name-erase_name n ((m, q) ∷ t) k = elim (Bool-cases (same_name m n)) [
  | inl here ↦ rw here (subst (λ m. find_name m t ≡ none) (same_name→eq m n here) k.0)
  | inr there ↦ rw there (
      ap (λ b. if b then some q else find_name n (erase_name n t)) there
      ∙ find_name-erase_name n t k.1)
]

pub find_name-erase_name_other :
    (m n : List ℕ) (t : List (List ℕ × ℕ))
    → same_name n m ≡ false
    → find_name m (erase_name n t) ≡ find_name m t
unfolding erase_name
find_name-erase_name_other m n [] h = refl
find_name-erase_name_other m n ((k, q) ∷ t) h = elim (Bool-cases (same_name k n)) [
  | inl here ↦ rw here (
      sym (
        ap (λ b. if b then some q else find_name m t)
          (ap (λ k. same_name k m) (same_name→eq k n here) ∙ h)))
  | inr there ↦
      rw there (ap (λ o. if same_name k m then some q else o) (find_name-erase_name_other m n t h))
]

pub insert_name-Keyed :
    (n : List ℕ) (p : ℕ) (t : List (List ℕ × ℕ)) → Keyed t → Keyed (insert_name n p t)
unfolding insert_name
insert_name-Keyed n p [] k = (refl, tt)
insert_name-Keyed n p ((m, q) ∷ t) k = elim (Bool-cases (same_name m n)) [
  | inl here ↦ rw here (subst (λ m. find_name m t ≡ none) (same_name→eq m n here) k.0, k.1)
  | inr there ↦ rw there (
    find_name-insert_name_other m n p t (same_name_swap m n there) ∙ k.0,
    insert_name-Keyed n p t k.1,
  )
]

pub erase_name-Keyed : (n : List ℕ) (t : List (List ℕ × ℕ)) → Keyed t → Keyed (erase_name n t)
unfolding erase_name
erase_name-Keyed n [] k = tt
erase_name-Keyed n ((m, q) ∷ t) k = elim (Bool-cases (same_name m n)) [
  | inl here ↦ rw here k.1
  | inr there ↦
      rw there (
        find_name-erase_name_other m n t (same_name_swap m n there) ∙ k.0,
        erase_name-Keyed n t k.1,
      )
]

-- An object that the map owns is under a name.
pub owns-find_name :
    (t : List (List ℕ × ℕ)) (p : ℕ)
    → Keyed t
    → owns t p ≡ true
    → (n : List ℕ) × (find_name n t ≡ some p)
unfolding owns
owns-find_name [] p k h = absurd cc
owns-find_name ((m, q) ∷ t) p k h = elim (Bool-cases (q == p)) [
  | inl here ↦ (
    m,
    ap (λ b. if b then some q else find_name m t) (same_name_self m) ∙ ap some (==→eq q p here),
  )
  | inr there ↦
      let (n, e) =
        owns-find_name t p k.1 (sym (ap (λ b. if b then true else owns t p) there) ∙ h) in
      elim (Bool-cases (same_name m n)) [
        | inl same ↦ absurd (
            let gone : find_name n t ≡ none =
              subst (λ m. find_name m t ≡ none) (same_name→eq m n same) k.0 in
            cc)
        | inr other ↦ (n, ap (λ b. if b then some q else find_name n t) other ∙ e)
      ]
]

-- An object that stands under one name alone goes out of the map with it.
pub owns-erase_name :
    (n : List ℕ) (t : List (List ℕ × ℕ)) (p : ℕ)
    → Keyed t
    → ((m : List ℕ) → find_name m t ≡ some p → m ≡ n)
    → owns (erase_name n t) p ≡ false
owns-erase_name n t p k only = elim (Bool-cases (owns (erase_name n t) p)) [
  | inl kept ↦
      let (m, e) = owns-find_name (erase_name n t) p (erase_name-Keyed n t k) kept in
      elim (Bool-cases (same_name n m)) [
        | inl same ↦ absurd (
            let gone : find_name m (erase_name n t) ≡ none =
              subst (λ m. find_name m (erase_name n t) ≡ none) (same_name→eq n m same)
                (find_name-erase_name n t k) in
            cc)
        | inr other ↦
            let eq = only m (sym (find_name-erase_name_other m n t other) ∙ e) in
            absurd (
              let same : same_name n m ≡ true = ap (λ k. same_name n k) eq ∙ same_name_self n in cc)
      ]
  | inr gone ↦ gone
]
