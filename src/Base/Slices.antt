-- ===== src/Base/Slices.antt =====
-- Ranges of a byte array: reading one, and overwriting one in place (`std::copy` into an array).
use Prim.Native.Nat.{ℕ, zero, suc, ◌+◌, ◌≤◌}
use mathlib.Core.Path.{◌≡◌, refl, ap, ◌∙◌}
use mathlib.Core.List.{List, [], ◌∷◌, ◌++◌}
use native.Mathlib.Omega.{arith}
use net_server_stepby_step.Base.Lists.{length, take, drop, length-take, length-drop}

module _ {ℓ} {A : Type ℓ} where
  -- The `n` elements from index `i` on.
  abbrev pub slice : ℕ → ℕ → List A → List A
  slice i n d = take n (drop i d)

  -- `d` with `xs` written over its elements from the first on, and from index `i` on.
  abbrev pub overwrite : List A → List A → List A
  overwrite d [] = d
  overwrite [] (x ∷ xs) = []
  overwrite (a ∷ d) (x ∷ xs) = x ∷ overwrite d xs

  abbrev pub splice : List A → ℕ → List A → List A
  splice d zero xs = overwrite d xs
  splice [] (suc i) xs = []
  splice (a ∷ d) (suc i) xs = a ∷ splice d i xs

  pub length-slice : (i n : ℕ) (d : List A) → i + n ≤ length d → length (slice i n d) ≡ n
  length-slice i n d h = omega (arith, length-take n (drop i d), length-drop i d)

  pub length-overwrite : (d xs : List A) → length (overwrite d xs) ≡ length d
  length-overwrite d [] = refl
  length-overwrite [] (x ∷ xs) = refl
  length-overwrite (a ∷ d) (x ∷ xs) = ap suc (length-overwrite d xs)

  pub length-splice : (d : List A) (i : ℕ) (xs : List A) → length (splice d i xs) ≡ length d
  length-splice d zero xs = length-overwrite d xs
  length-splice [] (suc i) xs = refl
  length-splice (a ∷ d) (suc i) xs = ap suc (length-splice d i xs)

  take-overwrite : (d xs : List A) → length xs ≤ length d → take (length xs) (overwrite d xs) ≡ xs
  take-overwrite d [] h = refl
  take-overwrite [] (x ∷ xs) h = absurd (omega arith)
  take-overwrite (a ∷ d) (x ∷ xs) h = ap (λ t. x ∷ t) (take-overwrite d xs (omega arith))

  take-splice :
      (n m : ℕ) (d xs : List A)
      → m ≡ n + length xs
      → n + length xs ≤ length d
      → take m (splice d n xs) ≡ take n d ++ xs
  take-splice zero m d xs e h =
      let e' : m ≡ length xs = omega arith in rw e' (take-overwrite d xs (omega arith))
  take-splice (suc n) m [] xs e h = absurd (omega arith)
  take-splice (suc n) zero (a ∷ d) xs e h = absurd (omega arith)
  take-splice (suc n) (suc m) (a ∷ d) xs e h =
      ap (λ t. a ∷ t) (take-splice n m d xs (omega arith) (omega arith))

  -- A range that is read from where `xs` was written is `xs`.
  pub slice-splice_self :
      (i : ℕ) (d xs : List A) → i + length xs ≤ length d → slice i (length xs) (splice d i xs) ≡ xs
  slice-splice_self zero d xs h = take-overwrite d xs (omega arith)
  slice-splice_self (suc i) [] xs h = absurd (omega arith)
  slice-splice_self (suc i) (a ∷ d) xs h = slice-splice_self i d xs (omega arith)

  -- Writing `xs` just past a range extends the range by `xs`.
  pub slice-splice_end :
      (i n m w : ℕ) (d xs : List A)
      → w ≡ i + n
      → m ≡ n + length xs
      → w + length xs ≤ length d
      → slice i m (splice d w xs) ≡ slice i n d ++ xs
  slice-splice_end zero n m w d xs e f h =
      let e' : w ≡ n = omega arith in rw e' (take-splice n m d xs f (omega arith))
  slice-splice_end (suc i) n m zero d xs e f h = absurd (omega arith)
  slice-splice_end (suc i) n m (suc w) [] xs e f h = absurd (omega arith)
  slice-splice_end (suc i) n m (suc w) (a ∷ d) xs e f h =
      slice-splice_end i n m w d xs (omega arith) f (omega arith)

  take-append_le : (n : ℕ) (d e : List A) → n ≤ length d → take n (d ++ e) ≡ take n d
  take-append_le zero d e h = refl
  take-append_le (suc n) [] e h = absurd (omega arith)
  take-append_le (suc n) (a ∷ d) e h = ap (λ t. a ∷ t) (take-append_le n d e (omega arith))

  -- A longer array has the same ranges.
  pub slice-append : (i n : ℕ) (d e : List A) → i + n ≤ length d → slice i n (d ++ e) ≡ slice i n d
  slice-append zero n d e h = take-append_le n d e (omega arith)
  slice-append (suc i) n [] e h = absurd (omega arith)
  slice-append (suc i) n (a ∷ d) e h = slice-append i n d e (omega arith)

  drop-take : (k n m : ℕ) (d : List A) → n ≡ k + m → drop k (take n d) ≡ take m (drop k d)
  drop-take zero n m d e = let e' : n ≡ m = omega arith in rw e'
  drop-take (suc k) zero m d e = absurd (omega arith)
  drop-take (suc k) (suc n) zero [] e = refl
  drop-take (suc k) (suc n) (suc m) [] e = refl
  drop-take (suc k) (suc n) m (a ∷ d) e = drop-take k n m d (omega arith)

  drop-drop : (i k j : ℕ) (d : List A) → j ≡ i + k → drop k (drop i d) ≡ drop j d
  drop-drop zero k j d e = let e' : j ≡ k = omega arith in rw e'
  drop-drop (suc i) k zero d e = absurd (omega arith)
  drop-drop (suc i) zero (suc j) [] e = refl
  drop-drop (suc i) (suc k) (suc j) [] e = refl
  drop-drop (suc i) k (suc j) (a ∷ d) e = drop-drop i k j d (omega arith)

  -- Dropping the head of a range starts it later.
  pub drop-slice :
      (i n k j m : ℕ) (d : List A) → j ≡ i + k → n ≡ k + m → drop k (slice i n d) ≡ slice j m d
  drop-slice i n k j m d e f = drop-take k n m (drop i d) f ∙ ap (take m) (drop-drop i k j d e)

  -- The head of a range is a shorter range.
  pub take-slice : (i n k : ℕ) (d : List A) → k ≤ n → take k (slice i n d) ≡ slice i k d
  take-slice i n k d h = take-take k n (drop i d) h
    where
      take-take : (k n : ℕ) (d : List A) → k ≤ n → take k (take n d) ≡ take k d
      take-take zero n d h = refl
      take-take (suc k) zero d h = absurd (omega arith)
      take-take (suc k) (suc n) [] h = refl
      take-take (suc k) (suc n) (a ∷ d) h = ap (λ t. a ∷ t) (take-take k n d (omega arith))
