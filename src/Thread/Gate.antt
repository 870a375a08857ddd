-- ===== src/Thread/Gate.antt =====
-- The gate of `Thread::run`, over all interleavings of the owner's calls and the thread's steps.
use net_server_stepby_step.Base.{
  ℕ, ◌+◌, ◌≡◌, ◌≢◌, refl, ◌∙◌, sym, ap, Bool, true, false, if◌then◌else◌, Fault, Returns, done,
  failed, terminated, undefined, use_after_free, ◌>>=◌,
}
use net_server_stepby_step.Thread.{
  Thread, Phase, entering, asleep, running, finished, destroy_thread, run_step,
}
use net_server_stepby_step.Thread.Steps.{
  Reaches, Gated, thread, impossible, run_step-Gated, run_step_early, reached-Gated,
}

-- In each state that a new thread reaches, while its object lives, by its own steps and the owner's
-- calls, in any order: its function has run once if it is there and the thread has finished, and not
-- at all before; it runs only after `start`; no thread sleeps that has been started; the owner has
-- joined it only if it has finished, and it is joinable exactly while it has not been joined. The
-- thread's next step leads to such a state if `cv_` and `mutex_` have been constructed by then; if
-- not, it locks a mutex that is not there, which is undefined.
pub Reaches-Gated :
    {b : Bool} {t : Thread}
    → Reaches b t
    → Gated b t
      × (t.built ≡ true → Returns (run_step t) (Gated b))
      × (t.built ≡ false → run_step t ≡ failed undefined)
Reaches-Gated r = (
  reached-Gated r,
  λ u. run_step-Gated _ _ _ _ _ _ _ _ _ (reached-Gated r) u,
  λ u. run_step_early _ _ _ _ _ _ _ _ _ (reached-Gated r) u,
)

Gated-run_step :
    (b s j f h k v : Bool) (p : Phase) (n : ℕ)
    → Gated b (thread s j f h k v p n)
    → s ≡ true
    → Returns
        (run_step (thread s j f h k v p n) >>= run_step)
        (λ t. (t.phase ≡ finished) × (t.runs ≡ (if b then 1 else 0)))
unfolding run_step
Gated-run_step b s j f h k false p n g e = impossible (sym g.alive)
Gated-run_step b false j f h k true p n g e = impossible (sym e)
Gated-run_step b true j true h true true entering n g e =
    (refl, ap (λ n. n + 1) g.fits.1 ∙ ap (λ b. if b then 1 else 0) g.func)
Gated-run_step b true j false h true true entering n g e =
    (refl, g.fits.1 ∙ ap (λ b. if b then 1 else 0) g.func)
Gated-run_step b true j f h false true entering n g e = impossible (g.fits.2 refl)
Gated-run_step b true j f h k true asleep n g e = impossible g.fits.0
Gated-run_step b true j true h k true running n g e =
    (refl, ap (λ n. n + 1) g.fits.3 ∙ ap (λ b. if b then 1 else 0) g.func)
Gated-run_step b true j false h k true running n g e = impossible (sym g.fits.2)
Gated-run_step b true j f h k true finished n g e =
    (refl, g.fits.1 ∙ ap (λ b. if b then 1 else 0) g.func)

-- A thread that has been started, and has not stepped before `cv_` and `mutex_` were constructed,
-- never waits again: at most two steps of its own finish it, while its object lives, and its
-- function, if there is one, has then run once.
pub started_finishes :
    {b : Bool} {t : Thread}
    → Reaches b t
    → t.started ≡ true
    → Returns
        (run_step t >>= run_step)
        (λ t'. (t'.phase ≡ finished) × (t'.runs ≡ (if b then 1 else 0)))
started_finishes r = Gated-run_step _ _ _ _ _ _ _ _ _ (reached-Gated r)

-- How the destructor fails for a thread that was not started.
abbrev pub stuck : Phase → Fault
stuck asleep = undefined
stuck entering = terminated
stuck running = terminated
stuck finished = terminated

abbrev pub left_behind : Thread → Thread
left_behind t = record t { is_joinable = false; alive = false }

Gated-destroy_thread :
    (b s j f h k v : Bool) (p : Phase) (n : ℕ)
    → let t = thread s j f h k v p n in
      Gated b t
      → (destroy_thread t ≡ (if s then done (left_behind t) else failed (stuck p)))
        × (s ≡ true → p ≢ finished → run_step (left_behind t) ≡ failed use_after_free)
unfolding destroy_thread run_step
Gated-destroy_thread b true j f h k v asleep n g = impossible g.fits.0
Gated-destroy_thread b true true f true k v p n g = impossible g.joinable
Gated-destroy_thread b true true f false k v entering n g = impossible g.fits.0
Gated-destroy_thread b true true f false k v running n g = impossible g.fits.1
Gated-destroy_thread b true true f false k v finished n g = (refl, λ e m. absurd (m refl))
Gated-destroy_thread b true false f h k v entering n g = (refl, λ e m. refl)
Gated-destroy_thread b true false f h k v running n g = (refl, λ e m. refl)
Gated-destroy_thread b true false f h k v finished n g = (refl, λ e m. absurd (m refl))
Gated-destroy_thread b false true f h k v entering n g = impossible g.fits.0
Gated-destroy_thread b false true f h k v asleep n g = impossible g.fits.1
Gated-destroy_thread b false false f false k v p n g = impossible (sym g.joinable)
Gated-destroy_thread b false false f true k v entering n g = (refl, λ e m. impossible (sym e))
Gated-destroy_thread b false false f true k v asleep n g = (refl, λ e m. impossible (sym e))
Gated-destroy_thread b false j f h k v running n g = impossible (sym g.fits.0)
Gated-destroy_thread b false j f h k v finished n g = impossible (sym g.fits.0)

-- The destructor of a thread that was started returns, joined or not, with the thread detached; but
-- unless the thread has finished, its next step uses the object that is gone. The destructor of a
-- thread that was not started destroys `cv_` while the thread waits on it, which is undefined, or, if
-- the thread does not wait yet, ends the program.
pub destroy_thread_lem :
    {b : Bool} {t : Thread}
    → Reaches b t
    → (destroy_thread t ≡ (if t.started then done (left_behind t) else failed (stuck t.phase)))
      × (t.started ≡ true → t.phase ≢ finished → run_step (left_behind t) ≡ failed use_after_free)
destroy_thread_lem r = Gated-destroy_thread _ _ _ _ _ _ _ _ _ (reached-Gated r)
