-- ===== src/TimerQueue/Life.antt =====
-- The constructor and the destructor of `TimerQueue`, with the channel of the timerfd.
use net_server_stepby_step.Base.{
  subst, ℕ, ◌≡◌, ◌∙◌, sym, refl, ap, List, [], ◌∷◌, true, Option, none, some, All, ltb, ==-self,
  ne→==, if◌then◌else◌, Outcome, done, failed, aborted, assert, deref, ◌>>=◌, ◌>>◌, Returns,
  Returns-bind, Returns-mono,
}
use net_server_stepby_step.Os.{Os, OsLaws}
use net_server_stepby_step.Epoller.{Epoller}
use net_server_stepby_step.Channel.{Channel, new_channel, set_events, no_event}
use net_server_stepby_step.Channel.Update.{enabled_readable, disabled_all_events, remove}
use net_server_stepby_step.Channel.Registration.{
  Synced, Frame, Frame-trans, Updated, update-Updated, Removed, remove-Removed,
}
use net_server_stepby_step.TimerQueue.{Timer, TimerQueue, Entry, delete}
use net_server_stepby_step.TimerQueue.Invariant.{Live, Apart, Distinct, IsSound, delete-Live}

-- The queue with its channel, whose descriptor is `timerfd_`.
pub record Host : Type 0 where
  pub queue : TimerQueue
  pub channel : Channel

-- `createTimerfd`, on the answer of timerfd_create(2).
unfoldable pub create_timerfd : Option ℕ → Outcome ℕ
create_timerfd none = failed aborted
create_timerfd (some fd) = done fd

module _ (os : Os) where
  unfoldable pub new_timer_queue : Epoller os.Kernel → Option ℕ → Outcome (Host × Epoller os.Kernel)
  unfolding create_timerfd new_channel
  new_timer_queue p created = do
    fd ← create_timerfd created
    assert (ltb 0 fd)
    t ← enabled_readable os p (new_channel fd)
    let queue : TimerQueue = record { timers = []; heap = λ _. none; armed = none; last_id = 0 }
    done (record { queue = queue; channel = t.0 }, t.1)

-- The loop of the destructor.
unfoldable pub delete_timers : List Entry → (ℕ → Option Timer) → Outcome (ℕ → Option Timer)
delete_timers [] heap = done heap
delete_timers (e ∷ l) heap = do t ← deref (heap e.1); delete_timers l (delete heap e.1)

module _ (os : Os) where
  unfoldable pub destroy_timer_queue :
      Host → Epoller os.Kernel → Outcome ((ℕ → Option Timer) × Epoller os.Kernel)
  unfolding delete_timers
  destroy_timer_queue h p = do
    t ← disabled_all_events os p h.channel
    u ← remove os t.1 t.0
    heap ← delete_timers h.queue.timers h.queue.heap
    done (heap, u.1)

-- The timers of these entries are gone, and others are as they were.
abbrev pub Freed : List Entry → (ℕ → Option Timer) → (ℕ → Option Timer) → Type 0
Freed l heap heap' = All (λ e. heap' e.1 ≡ none) l × ((p : ℕ) → Apart p l → heap' p ≡ heap p)

delete_timers-Freed :
    (l : List Entry) (heap : ℕ → Option Timer)
    → All (Live heap) l
    → Distinct l
    → Returns (delete_timers l heap) (Freed l heap)
unfolding delete_timers
delete_timers-Freed [] heap v d = (tt, λ p a. refl)
delete_timers-Freed (e ∷ l) heap v d = simp v.0.1 (
    Returns-mono (Freed l (delete heap e.1)) _ _
      (delete_timers-Freed l (delete heap e.1) (delete-Live heap e.1 l d.0 v.1) d.1)
      λ heap' f. (
        (f.1 e.1 d.0 ∙ ap (λ b. if b then none else heap e.1) (==-self e.1), f.0),
        λ p a. f.1 p a.1 ∙ ap (λ b. if b then none else heap p) (ne→== p e.1 (λ n. a.0 (sym n))),
      ))

module _ (os : Os) (laws : OsLaws os) where
  -- What the destructor leaves.
  pub record Ended (h : Host) (p : Epoller os.Kernel) (r : (ℕ → Option Timer) × Epoller os.Kernel)
      : Type 0 where
    pub freed : Freed h.queue.timers h.queue.heap r.0
    pub unwatched : os.interest r.1.kernel h.channel.fd ≡ none
    pub frame : Frame os h.channel.fd p r.1

  -- Destroying a sound queue whose channel agrees with the interest list returns: every timer that
  -- waits is deleted, once, and no other, and the timerfd has left the interest list, with other
  -- descriptors as they were. (Epoll can poll the timerfd.)
  pub destroy_timer_queue-Ended :
      (h : Host) (p : Epoller os.Kernel)
      → IsSound [] h.queue
      → os.pollable h.channel.fd ≡ true
      → Synced os p h.channel
      → Returns (destroy_timer_queue os h p) (Ended h p)
  unfolding destroy_timer_queue disabled_all_events
  destroy_timer_queue-Ended h p s u synced =
      Returns-bind (Updated os p (set_events h.channel no_event)) _ _ _
        (update-Updated os laws p h.channel no_event u synced)
        λ t g.
          let fd_eq : t.0.fd ≡ h.channel.fd = ap (λ (c : Channel). c.fd) g.channel in
          Returns-bind (Removed os t.1 t.0) _ (remove os t.1 t.0) _
            (remove-Removed os laws t.1 t.0 (rw g.channel refl) g.synced)
            λ v r.
              Returns-bind (Freed h.queue.timers h.queue.heap) _
                (delete_timers h.queue.timers h.queue.heap) _
                (delete_timers-Freed h.queue.timers h.queue.heap s.live s.distinct)
                λ heap f. record {
                  freed = f;
                  unwatched = subst (λ fd. os.interest v.1.kernel fd ≡ none) fd_eq r.absent;
                  frame =
                      Frame-trans os h.channel.fd p t.1 v.1 g.frame
                        (subst (λ fd. Frame os fd t.1 v.1) fd_eq r.frame);
                }
