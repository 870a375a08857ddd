-- ===== src/TcpServer/Names.antt =====
-- The names of connections: `ipPort_ + "-" + std::to_string(nextConnIdx_)`. No two indices give one
-- name.
use net_server_stepby_step.Base.{
  Outcome, done, failed, overflow, ℕ, zero, suc, ◌+◌, ◌*◌, ◌-◌, ◌/◌, ◌%◌, ◌<◌, ◌≡◌, refl, ◌∙◌, sym,
  ap, List, [], ◌∷◌, ◌++◌, Bool, true, false, ◌&&◌, Bool-cases, inl, inr, ◌==◌, ==→eq, ==→ne, subst,
  ==-self, ltb, ltb→le, if◌then◌else◌, arith,
}

-- Characters are their codes.
unfoldable pub same_name : List ℕ → List ℕ → Bool
same_name [] [] = true
same_name [] (y ∷ ys) = false
same_name (x ∷ xs) [] = false
same_name (x ∷ xs) (y ∷ ys) = x == y && same_name xs ys

-- The decimal digits, most significant first; a number below `2 ^ 32` has at most ten, and `n + 1`
-- rounds are enough for `n`.
unfoldable pub digits : ℕ → ℕ → List ℕ
digits zero n = []
digits (suc fuel) n =
    let more = digits fuel (n / 10) ++ (48 + n % 10) ∷ [] in
    if ltb n 10 then (48 + n) ∷ [] else more

-- `std::to_string`.
unfoldable pub to_string : ℕ → List ℕ
unfolding digits
to_string n = digits (n + 1) n

unfoldable pub connection_name : List ℕ → ℕ → List ℕ
unfolding to_string
connection_name ip_port idx = ip_port ++ (45 ∷ to_string idx)

-- Reading the digits back.
value : ℕ → List ℕ → ℕ
value acc [] = acc
value acc (c ∷ cs) = value (acc * 10 + (c - 48)) cs

value-snoc :
    (acc : ℕ) (cs : List ℕ) (c : ℕ) → value acc (cs ++ c ∷ []) ≡ value acc cs * 10 + (c - 48)
unfolding value
value-snoc acc [] c = refl
value-snoc acc (d ∷ cs) c = value-snoc (acc * 10 + (d - 48)) cs c

value-digits : (fuel n : ℕ) → n < fuel → value 0 (digits fuel n) ≡ n
unfolding digits
value-digits zero n h = absurd (omega arith)
value-digits (suc fuel) n h = elim (Bool-cases (ltb n 10)) [
  | inl one ↦ rw one (unfold value in omega arith)
  | inr more ↦
      let big = ltb→le _ _ more in
      rw more (
        omega (
          arith,
          value-snoc 0 (digits fuel (n / 10)) (48 + n % 10),
          value-digits fuel (n / 10) (omega arith),
        ))
]

value-to_string : (n : ℕ) → value 0 (to_string n) ≡ n
unfolding to_string
value-to_string n = value-digits (n + 1) n (omega arith)

append_cancel : (xs ys zs : List ℕ) → xs ++ ys ≡ xs ++ zs → ys ≡ zs
append_cancel [] ys zs h = h
append_cancel (x ∷ xs) ys zs h = append_cancel xs ys zs (tail_eq h)
  where
    tail_eq : {a b : ℕ} {l m : List ℕ} → a ∷ l ≡ b ∷ m → l ≡ m
    tail_eq e = cc

names_differ :
    (ip_port : List ℕ) (i j : ℕ) → connection_name ip_port i ≡ connection_name ip_port j → i ≡ j
unfolding connection_name
names_differ ip_port i j h = sym (value-to_string i) ∙ ap (value 0) digits_eq ∙ value-to_string j
  where
    tail_eq : {a b : ℕ} {l m : List ℕ} → a ∷ l ≡ b ∷ m → l ≡ m
    tail_eq e = cc

    digits_eq : to_string i ≡ to_string j
    digits_eq = tail_eq (append_cancel ip_port (45 ∷ to_string i) (45 ∷ to_string j) h)

pub same_name_self : (n : List ℕ) → same_name n n ≡ true
unfolding same_name
same_name_self [] = refl
same_name_self (x ∷ n) = rw (==-self x, same_name_self n)

pub same_name→eq : (m n : List ℕ) → same_name m n ≡ true → m ≡ n
unfolding same_name
same_name→eq [] [] h = refl
same_name→eq [] (y ∷ n) h = cc
same_name→eq (x ∷ m) [] h = cc
same_name→eq (x ∷ m) (y ∷ n) h = ground (arith, same_name→eq m n)

-- The names that a server gives to two connections are equal exactly if the indices are: a new
-- connection never takes the place of another in `tcpConnections_`.
pub connection_name-injective :
    (ip_port : List ℕ) (i j : ℕ)
    → same_name (connection_name ip_port i) (connection_name ip_port j) ≡ (i == j)
connection_name-injective ip_port i j = elim (Bool-cases (i == j)) [
  | inl same ↦ rw same (
      subst (λ k. same_name (connection_name ip_port i) (connection_name ip_port k) ≡ true)
        (==→eq i j same) (same_name_self (connection_name ip_port i)))
  | inr other ↦
      elim (Bool-cases (same_name (connection_name ip_port i) (connection_name ip_port j))) [
        | inl h ↦ absurd (==→ne i j other (names_differ ip_port i j (same_name→eq _ _ h)))
        | inr h ↦ h ∙ sym other
      ]
]

-- `++` on an `int`, whose overflow is undefined.
abbrev pub int_max : ℕ
int_max = 2147483647

unfoldable pub next_index : ℕ → Outcome ℕ
next_index n = if ltb n int_max then done (n + 1) else failed overflow
