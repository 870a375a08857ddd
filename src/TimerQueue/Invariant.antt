-- ===== src/TimerQueue/Invariant.antt =====
-- The invariant of the queue of timers, with the expired timers that a round still has to handle.
use mathlib.Core.Option.{some-injective}
use net_server_stepby_step.Base.{
  subst, ℕ, ◌<◌, ◌≡◌, ◌≢◌, Bool-cases, inl, inr, ◌||◌, ◌∙◌, sym, ap, List, [], ◌∷◌, true, false,
  Option, none, some, All, ==-self, ne→==, if◌then◌else◌, arith,
}
use net_server_stepby_step.Epoller.{put}
use net_server_stepby_step.TimerQueue.{
  Timer, TimerQueue, Entry, insert_entry, erase_entry, uintptr_max, delete, entry_lt,
}
use net_server_stepby_step.TimerQueue.Set.{Sorted, insert_entry-All, erase_entry-All}

-- The entry's timer is there, expires when the entry says, and is not canceled.
abbrev pub Live : (ℕ → Option Timer) → Entry → Type 0
Live heap e =
    (t : Timer) × (heap e.1 ≡ some t)
    × (t.timing ≡ e.0)
    × (t.canceled ≡ false)
    × (e.1 < uintptr_max)

abbrev pub Apart : ℕ → List Entry → Type 0
Apart p l = All (λ f. f.1 ≢ p) l

abbrev pub Distinct : List Entry → Type 0
Distinct [] = Unit {0}
Distinct (e ∷ l) = Apart e.1 l × Distinct l

-- `due` are the entries that `getExpired` took out and the loop has yet to handle.
pub record IsSound (due : List Entry) (q : TimerQueue) : Type 0 where
  pub sorted : Sorted q.timers
  pub live : All (Live q.heap) q.timers
  pub distinct : Distinct q.timers
  pub live_due : All (Live q.heap) due
  pub distinct_due : Distinct due
  pub apart : All (λ e. Apart e.1 q.timers) due

-- A write to the heap at an address leaves the timers at other addresses.
pub put-Live :
    (heap : ℕ → Option Timer) (p : ℕ) (t : Timer) (l : List Entry)
    → Apart p l
    → All (Live heap) l
    → All (Live (put heap p t)) l
put-Live heap p t [] a h = tt
put-Live heap p t (e ∷ l) a h = (
  (h.0.0, ap (λ b. if b then some t else heap e.1) (ne→== e.1 p a.0) ∙ h.0.1, h.0.2, h.0.3, h.0.4),
  put-Live heap p t l a.1 h.1,
)

pub delete-Live :
    (heap : ℕ → Option Timer) (p : ℕ) (l : List Entry)
    → Apart p l
    → All (Live heap) l
    → All (Live (delete heap p)) l
delete-Live heap p [] a h = tt
delete-Live heap p (e ∷ l) a h = (
  (h.0.0, ap (λ b. if b then none else heap e.1) (ne→== e.1 p a.0) ∙ h.0.1, h.0.2, h.0.3, h.0.4),
  delete-Live heap p l a.1 h.1,
)

pub put_self : (heap : ℕ → Option Timer) (p : ℕ) (t : Timer) → put heap p t p ≡ some t
put_self heap p t = ap (λ b. if b then some t else heap p) (==-self p)

Apart-sym : (p q : ℕ) → p ≢ q → q ≢ p
Apart-sym p q n e = n (sym e)

-- An entry at an address of its own goes in.
pub insert_entry-Distinct :
    (e : Entry) (l : List Entry) → Apart e.1 l → Distinct l → Distinct (insert_entry e l)
unfolding insert_entry
insert_entry-Distinct e [] a d = (tt, tt)
insert_entry-Distinct e (f ∷ l) a d = elim (Bool-cases (entry_lt e f)) [
  | inl here ↦ rw here (a, d)
  | inr there ↦ elim (Bool-cases (entry_lt f e)) [
    | inl later ↦
        rw (there, later)
          (
            insert_entry-All (λ g. g.1 ≢ f.1) e l (Apart-sym f.1 e.1 a.0) d.0,
            insert_entry-Distinct e l a.1 d.1,
          )
    | inr same ↦ rw (there, same) d
  ]
]

pub erase_entry-Distinct : (e : Entry) (l : List Entry) → Distinct l → Distinct (erase_entry e l)
unfolding erase_entry
erase_entry-Distinct e [] d = tt
erase_entry-Distinct e (f ∷ l) d = elim (Bool-cases (entry_lt e f || entry_lt f e)) [
  | inl other ↦ rw other (erase_entry-All (λ g. g.1 ≢ f.1) e l d.0, erase_entry-Distinct e l d.1)
  | inr same ↦ rw same d.1
]

-- Live entries of one timer agree on its expiry.
Live-timing :
    (heap : ℕ → Option Timer) (w p : ℕ) (t : Timer) (f : Entry)
    → heap p ≡ some t
    → t.timing ≡ w
    → Live heap f
    → f.1 ≡ p
    → f.0 ≡ w
Live-timing heap w p t f h e live n =
    sym live.2 ∙ ap (λ (t : Timer). t.timing) (some-injective _ _ (sym live.1 ∙ ap heap n ∙ h)) ∙ e

not_other :
    (w p v q : ℕ)
    → entry_lt (w, p) (v, q) || entry_lt (v, q) (w, p) ≡ true
    → (q ≡ p → v ≡ w)
    → q ≢ p
not_other w p v q h k n = let e : v ≡ w = k n in ground arith

not_same : (w p v q : ℕ) → entry_lt (w, p) (v, q) || entry_lt (v, q) (w, p) ≡ false → q ≡ p
not_same w p v q h = ground arith

-- The entry of a live timer is erased: none at its address is left.
pub erase_entry-Apart :
    (heap : ℕ → Option Timer) (w p : ℕ) (t : Timer) (l : List Entry)
    → heap p ≡ some t
    → t.timing ≡ w
    → All (Live heap) l
    → Distinct l
    → Apart p (erase_entry (w, p) l)
unfolding erase_entry
erase_entry-Apart heap w p t [] h e a d = tt
erase_entry-Apart heap w p t (f ∷ l) h e a d =
    elim (Bool-cases (entry_lt (w, p) f || entry_lt f (w, p))) [
      | inl other ↦ rw other (
        not_other w p f.0 f.1 other (λ n. Live-timing heap w p t f h e a.0 n),
        erase_entry-Apart heap w p t l h e a.1 d.1,
      )
      | inr same ↦ rw same (subst (λ q. Apart q l) (not_same w p f.0 f.1 same) d.0)
    ]
