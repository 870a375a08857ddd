-- ===== src/Thread/Steps.antt =====
-- The steps of a thread and of its owner, and what holds in each state that they reach.
use net_server_stepby_step.Base.{
  ℕ, ◌+◌, ◌≡◌, refl, ◌∙◌, sym, ap, subst, inl, inr, Bool, true, false, not, if◌then◌else◌, Returns,
  Bool-cases, done, done-injective, failed, undefined,
}
use net_server_stepby_step.Thread.{
  Thread, Phase, entering, asleep, running, finished, new_thread, build, wake, start, join,
  run_step,
}

-- While the object lives. The owner has it once its constructor has returned.
pub data Step : Thread → Thread → Type 0 where
  builds : {t : Thread} → Step t (build t)
  starts : {t t' : Thread} → t.built ≡ true → start t ≡ done t' → Step t t'
  proceeds : {t t' : Thread} → run_step t ≡ done t' → Step t t'
  wakes : {t : Thread} → Step t (record t { phase = wake t.phase })
  joins : {t t' : Thread} → t.phase ≡ finished → join t ≡ done t' → Step t t'

pub data Reaches (has_func : Bool) : Thread → Type 0 where
  created : Reaches has_func (new_thread has_func)
  then_step : {t t' : Thread} → Reaches has_func t → Step t t' → Reaches has_func t'

-- By phase: whether it was started, may have been joined, how often the function has run, and
-- whether the gate is built.
abbrev pub PhaseFits : Phase → Bool → Bool → Bool → Bool → ℕ → Type 0
PhaseFits entering s j f k n = (j ≡ false) × (n ≡ 0) × (k ≡ false → s ≡ false)
PhaseFits asleep s j f k n = (s ≡ false) × (j ≡ false) × (n ≡ 0) × (k ≡ true)
PhaseFits running s j f k n = (s ≡ true) × (j ≡ false) × (f ≡ true) × (n ≡ 0) × (k ≡ true)
PhaseFits finished s j f k n = (s ≡ true) × (n ≡ (if f then 1 else 0)) × (k ≡ true)

pub record Gated (has_func : Bool) (t : Thread) : Type 0 where
  pub func : t.has_func ≡ has_func
  pub fits : PhaseFits t.phase t.started t.joined t.has_func t.built t.runs
  pub joinable : t.is_joinable ≡ not t.joined
  pub alive : t.alive ≡ true

abbrev pub thread : Bool → Bool → Bool → Bool → Bool → Bool → Phase → ℕ → Thread
thread s j f h k v p n = record {
  started = s;
  joined = j;
  has_func = f;
  is_joinable = h;
  built = k;
  alive = v;
  phase = p;
  runs = n;
}

pub impossible : {A : Type 0} → true ≡ false → A
impossible e = absurd cc

pub run_step-Gated :
    (b s j f h k v : Bool) (p : Phase) (n : ℕ)
    → Gated b (thread s j f h k v p n)
    → k ≡ true
    → Returns (run_step (thread s j f h k v p n)) (Gated b)
unfolding run_step
run_step-Gated b s j f h k false p n g e = impossible (sym g.alive)
run_step-Gated b s j f h false true p n g e = impossible (sym e)
run_step-Gated b true j true h true true entering n g e = record {
  func = g.func;
  joinable = g.joinable;
  alive = g.alive;
  fits = (refl, g.fits.0, refl, g.fits.1, refl);
}
run_step-Gated b true j false h true true entering n g e = record {
  func = g.func;
  joinable = g.joinable;
  alive = g.alive;
  fits = (refl, g.fits.1, refl);
}
run_step-Gated b false j f h true true entering n g e = record {
  func = g.func;
  joinable = g.joinable;
  alive = g.alive;
  fits = (refl, g.fits.0, g.fits.1, refl);
}
run_step-Gated b s j f h true true asleep n g e = g
run_step-Gated b s j true h true true running n g e = record {
  func = g.func;
  joinable = g.joinable;
  alive = g.alive;
  fits = (g.fits.0, ap (λ n. n + 1) g.fits.3, refl);
}
run_step-Gated b s j false h true true running n g e = impossible (sym g.fits.2)
run_step-Gated b s j f h true true finished n g e = g

pub run_step_early :
    (b s j f h k v : Bool) (p : Phase) (n : ℕ)
    → Gated b (thread s j f h k v p n)
    → k ≡ false
    → run_step (thread s j f h k v p n) ≡ failed undefined
unfolding run_step
run_step_early b s j f h k false p n g e = impossible (sym g.alive)
run_step_early b s j f h true true p n g e = impossible e
run_step_early b s j f h false true entering n g e = refl
run_step_early b s j f h false true asleep n g e = impossible (sym g.fits.3)
run_step_early b s j f h false true running n g e = impossible (sym g.fits.4)
run_step_early b s j f h false true finished n g e = impossible (sym g.fits.2)

build-Gated :
    (b s j f h k v : Bool) (p : Phase) (n : ℕ)
    → Gated b (thread s j f h k v p n)
    → Gated b (build (thread s j f h k v p n))
unfolding build
build-Gated b s j f h k v entering n g = record {
  func = g.func;
  joinable = g.joinable;
  alive = g.alive;
  fits = (g.fits.0, g.fits.1, λ e. impossible e);
}
build-Gated b s j f h k v asleep n g = record {
  func = g.func;
  joinable = g.joinable;
  alive = g.alive;
  fits = (g.fits.0, g.fits.1, g.fits.2, refl);
}
build-Gated b s j f h k v running n g = record {
  func = g.func;
  joinable = g.joinable;
  alive = g.alive;
  fits = (g.fits.0, g.fits.1, g.fits.2, g.fits.3, refl);
}
build-Gated b s j f h k v finished n g = record {
  func = g.func;
  joinable = g.joinable;
  alive = g.alive;
  fits = (g.fits.0, g.fits.1, refl);
}

wake-Gated :
    (b s j f h k v : Bool) (p : Phase) (n : ℕ)
    → Gated b (thread s j f h k v p n)
    → Gated b (thread s j f h k v (wake p) n)
wake-Gated b s j f h k v entering n g = g
wake-Gated b s j f h k v asleep n g = record {
  func = g.func;
  joinable = g.joinable;
  alive = g.alive;
  fits = (g.fits.1, g.fits.2, λ e. g.fits.0);
}
wake-Gated b s j f h k v running n g = g
wake-Gated b s j f h k v finished n g = g

start-Gated :
    (b s j f h k v : Bool) (p : Phase) (n : ℕ) (t' : Thread)
    → Gated b (thread s j f h k v p n)
    → k ≡ true
    → start (thread s j f h k v p n) ≡ done t'
    → Gated b t'
unfolding start
start-Gated b true j f h k v p n t' g u e = cc
start-Gated b false j f h k v p n t' g u e = subst (λ t. Gated b t) (done-injective e) (go p g)
  where
    go :
        (p : Phase)
        → Gated b (thread false j f h k v p n)
        → Gated b (thread true j f h k v (wake p) n)
    go entering g = record {
      func = g.func;
      joinable = g.joinable;
      alive = g.alive;
      fits = (g.fits.0, g.fits.1, λ e. impossible (sym u ∙ e));
    }
    go asleep g = record {
      func = g.func;
      joinable = g.joinable;
      alive = g.alive;
      fits = (g.fits.1, g.fits.2, λ e. impossible (sym u ∙ e));
    }
    go running g = impossible (sym g.fits.0)
    go finished g = impossible (sym g.fits.0)

join-Gated :
    (b s j f h k v : Bool) (p : Phase) (n : ℕ) (t' : Thread)
    → Gated b (thread s j f h k v p n)
    → p ≡ finished
    → join (thread s j f h k v p n) ≡ done t'
    → Gated b t'
unfolding join
join-Gated b false j f h k v p n t' g q e = cc
join-Gated b true true f h k v p n t' g q e = cc
join-Gated b true false f h k v finished n t' g q e =
    subst (λ t. Gated b t) (done-injective e)
      (record { func = g.func; fits = g.fits; joinable = refl; alive = g.alive })
join-Gated b true false f h k v entering n t' g q e = cc
join-Gated b true false f h k v asleep n t' g q e = cc
join-Gated b true false f h k v running n t' g q e = cc

pub reached-Gated : {b : Bool} {t : Thread} → Reaches b t → Gated b t
reached-Gated created =
    unfold new_thread in
    record { func = refl; fits = (refl, refl, λ e. refl); joinable = refl; alive = refl }
reached-Gated (then_step r builds) = build-Gated _ _ _ _ _ _ _ _ _ (reached-Gated r)
reached-Gated (then_step r (starts u e)) = start-Gated _ _ _ _ _ _ _ _ _ _ (reached-Gated r) u e
reached-Gated {b = b} (then_step {t = t} r (proceeds e)) = elim (Bool-cases t.built) [
  | inl u ↦
      subst (λ o. Returns o (Gated b)) e (run_step-Gated _ _ _ _ _ _ _ _ _ (reached-Gated r) u)
  | inr u ↦ let no = sym e ∙ run_step_early _ _ _ _ _ _ _ _ _ (reached-Gated r) u in absurd cc
]
reached-Gated (then_step r wakes) = wake-Gated _ _ _ _ _ _ _ _ _ (reached-Gated r)
reached-Gated (then_step r (joins q e)) = join-Gated _ _ _ _ _ _ _ _ _ _ (reached-Gated r) q e
