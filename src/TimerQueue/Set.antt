-- ===== src/TimerQueue/Set.antt =====
-- `std::set<Entry>`: the operations keep the order, and what they hold.
use net_server_stepby_step.Base.{
  ◌≡◌, refl, List, [], ◌∷◌, ◌++◌, true, false, Bool-cases, inl, inr, All, ap, ◌||◌, arith,
}
use net_server_stepby_step.TimerQueue.{Entry, entry_lt, insert_entry, erase_entry, before, from}

abbrev pub Sorted : List Entry → Type 0
Sorted [] = Unit {0}
Sorted (e ∷ l) = All (λ f. entry_lt e f ≡ true) l × Sorted l

pub entry_lt_trans :
    (e f g : Entry) → entry_lt e f ≡ true → entry_lt f g ≡ true → entry_lt e g ≡ true
entry_lt_trans (a, b) (c, d) (x, y) h k = ground arith

-- Neither way round, the entries are one.
pub entry_lt_total :
    (e f : Entry) → entry_lt e f ≡ false → entry_lt f e ≡ false → (e.0 ≡ f.0) × (e.1 ≡ f.1)
entry_lt_total (a, b) (c, d) h k = (ground arith, ground arith)

pub All-mono {ℓ κ} :
    {A : Type ℓ} (P Q : A → Type κ) (l : List A) → ((a : A) → P a → Q a) → All P l → All Q l
All-mono P Q [] f h = tt
All-mono P Q (a ∷ l) f h = (f a h.0, All-mono P Q l f h.1)

pub insert_entry-All {ℓ} :
    (P : Entry → Type ℓ) (e : Entry) (l : List Entry) → P e → All P l → All P (insert_entry e l)
unfolding insert_entry
insert_entry-All P e [] p h = (p, tt)
insert_entry-All P e (f ∷ l) p h = elim (Bool-cases (entry_lt e f)) [
  | inl here ↦ rw here (p, h)
  | inr there ↦ elim (Bool-cases (entry_lt f e)) [
    | inl later ↦ rw (there, later) (h.0, insert_entry-All P e l p h.1)
    | inr same ↦ rw (there, same) h
  ]
]

pub insert_entry-Sorted : (e : Entry) (l : List Entry) → Sorted l → Sorted (insert_entry e l)
unfolding insert_entry
insert_entry-Sorted e [] s = (tt, tt)
insert_entry-Sorted e (f ∷ l) s = elim (Bool-cases (entry_lt e f)) [
  | inl here ↦ rw here ((here, All-mono _ _ l (λ g h. entry_lt_trans e f g here h) s.0), s)
  | inr there ↦ elim (Bool-cases (entry_lt f e)) [
    | inl later ↦
        rw (there, later)
          (insert_entry-All (λ g. entry_lt f g ≡ true) e l later s.0, insert_entry-Sorted e l s.1)
    | inr same ↦ rw (there, same) s
  ]
]

pub erase_entry-All {ℓ} :
    (P : Entry → Type ℓ) (e : Entry) (l : List Entry) → All P l → All P (erase_entry e l)
unfolding erase_entry
erase_entry-All P e [] h = tt
erase_entry-All P e (f ∷ l) h = elim (Bool-cases (entry_lt e f || entry_lt f e)) [
  | inl other ↦ rw other (h.0, erase_entry-All P e l h.1)
  | inr same ↦ rw same h.1
]

pub erase_entry-Sorted : (e : Entry) (l : List Entry) → Sorted l → Sorted (erase_entry e l)
unfolding erase_entry
erase_entry-Sorted e [] s = tt
erase_entry-Sorted e (f ∷ l) s = elim (Bool-cases (entry_lt e f || entry_lt f e)) [
  | inl other ↦
      rw other (erase_entry-All (λ g. entry_lt f g ≡ true) e l s.0, erase_entry-Sorted e l s.1)
  | inr same ↦ rw same s.1
]

-- The split at `lower_bound`.
pub before-append-from : (e : Entry) (l : List Entry) → before e l ++ from e l ≡ l
unfolding before from
before-append-from e [] = refl
before-append-from e (f ∷ l) = elim (Bool-cases (entry_lt f e)) [
  | inl low ↦ rw (low) (ap (λ t. f ∷ t) (before-append-from e l))
  | inr high ↦ rw (high)
]

pub from-Sorted : (e : Entry) (l : List Entry) → Sorted l → Sorted (from e l)
unfolding from
from-Sorted e [] s = tt
from-Sorted e (f ∷ l) s = elim (Bool-cases (entry_lt f e)) [
  | inl low ↦ rw low (from-Sorted e l s.1)
  | inr high ↦ rw high s
]

pub before_lt : (e : Entry) (l : List Entry) → All (λ f. entry_lt f e ≡ true) (before e l)
unfolding before
before_lt e [] = tt
before_lt e (f ∷ l) = elim (Bool-cases (entry_lt f e)) [
  | inl low ↦ rw low (low, before_lt e l)
  | inr high ↦ rw high tt
]
