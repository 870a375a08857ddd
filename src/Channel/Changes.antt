-- ===== src/Channel/Changes.antt =====
-- Any sequence of the changes of a channel that its owners make.
use net_server_stepby_step.Base.{
  subst, ◌==◌, ℕ, ◌≡◌, refl, ◌∙◌, sym, ap, List, [], ◌∷◌, true, clear_bit, set_bit, epollin,
  epollout, done, Outcome, Returns, Returns-bind, Returns-mono, ◌>>=◌,
}
use net_server_stepby_step.Os.{Os, OsLaws}
use net_server_stepby_step.Channel.{Channel, set_events, no_event}
use net_server_stepby_step.Epoller.{Epoller}
use net_server_stepby_step.Channel.Update.{
  update, enabled_readable, enabled_writable, disabled_all_events, disabled_readable,
  disabled_writable, remove,
}
use net_server_stepby_step.Channel.Registration.{
  Synced, Frame, Frame-refl, Frame-trans, Updated, update-Updated, Removed, remove-Removed,
}

pub data Change : Type 0 where
  enable_read : Change
  enable_write : Change
  disable_read : Change
  disable_write : Change
  disable_all : Change
  removal : Change

-- The events after a change.
abbrev pub events_after : Change → ℕ → ℕ
events_after enable_read ev = set_bit ev epollin
events_after enable_write ev = set_bit ev epollout
events_after disable_read ev = clear_bit ev epollin
events_after disable_write ev = clear_bit ev epollout
events_after disable_all ev = 0
events_after removal ev = ev

-- `remove()` asserts that no event is waited for.
abbrev pub MayChange : ℕ → Change → Type 0
MayChange ev removal = (ev == no_event) ≡ true
MayChange ev _ = Unit {0}

abbrev pub AllMayChange : ℕ → List Change → Type 0
AllMayChange ev [] = Unit {0}
AllMayChange ev (d ∷ ds) = MayChange ev d × AllMayChange (events_after d ev) ds

module _ (os : Os) where
  unfoldable pub change :
      Epoller os.Kernel → Channel → Change → Outcome (Channel × Epoller os.Kernel)
  change p c enable_read = enabled_readable os p c
  change p c enable_write = enabled_writable os p c
  change p c disable_read = disabled_readable os p c
  change p c disable_write = disabled_writable os p c
  change p c disable_all = disabled_all_events os p c
  change p c removal = remove os p c

  unfoldable pub changes :
      Epoller os.Kernel → Channel → List Change → Outcome (Channel × Epoller os.Kernel)
  changes p c [] = done (c, p)
  changes p c (d ∷ ds) = do t ← change p c d; changes t.1 t.0 ds

  -- What a change leaves: the events it is for, status and interest list in step, and the rest.
  pub record Changed (p : Epoller os.Kernel) (c : Channel) (ev : ℕ)
      (t : Channel × Epoller os.Kernel) : Type 0 where
    pub fd : t.0.fd ≡ c.fd
    pub events : t.0.events ≡ ev
    pub synced : Synced os t.1 t.0
    pub frame : Frame os c.fd p t.1

module _ (os : Os) (laws : OsLaws os) where
  of_Updated :
      (p : Epoller os.Kernel) (c : Channel) (ev : ℕ) (t : Channel × Epoller os.Kernel)
      → Updated os p (set_events c ev) t
      → Changed os p c ev t
  of_Updated p c ev t u = record {
    fd = ap (λ (c : Channel). c.fd) u.channel;
    events = ap (λ (c : Channel). c.events) u.channel;
    synced = u.synced;
    frame = u.frame;
  }

  of_Removed :
      (p : Epoller os.Kernel) (c : Channel) (t : Channel × Epoller os.Kernel)
      → Removed os p c t
      → Changed os p c c.events t
  of_Removed p c t r = record {
    fd = ap (λ (c : Channel). c.fd) r.channel;
    events = ap (λ (c : Channel). c.events) r.channel;
    synced = rw r.channel r.absent;
    frame = r.frame;
  }

  module _ (p : Epoller os.Kernel) (c : Channel) (pollable : os.pollable c.fd ≡ true)
      (synced : Synced os p c) where
    updated-Changed : (ev : ℕ) → Returns (update os p (set_events c ev)) (Changed os p c ev)
    updated-Changed ev =
        Returns-mono (Updated os p (set_events c ev)) _ _
          (update-Updated os laws p c ev pollable synced) (of_Updated p c ev)

    pub change-Changed :
        (d : Change)
        → MayChange c.events d
        → Returns (change os p c d) (Changed os p c (events_after d c.events))
    unfolding change enabled_readable enabled_writable disabled_readable disabled_writable
        disabled_all_events
    change-Changed enable_read m = updated-Changed _
    change-Changed enable_write m = updated-Changed _
    change-Changed disable_read m = updated-Changed _
    change-Changed disable_write m = updated-Changed _
    change-Changed disable_all m = updated-Changed _
    change-Changed removal m =
        Returns-mono (Removed os p c) _ _ (remove-Removed os laws p c m synced) (of_Removed p c)

  abbrev pub Settled : Epoller os.Kernel → Channel → Channel × Epoller os.Kernel → Type 0
  Settled p c t = Synced os t.1 t.0 × Frame os c.fd p t.1 × (t.0.fd ≡ c.fd)

  -- Any sequence of enabling, disabling and removing on a channel whose status agrees with epoll's
  -- interest list returns without an abort and leaves them in agreement, with other descriptors and
  -- all streams as they were, provided that epoll can poll the descriptor and each `remove()` comes
  -- when no event is watched for.
  pub changes-Settled :
      (ds : List Change) (p : Epoller os.Kernel) (c : Channel)
      → os.pollable c.fd ≡ true
      → Synced os p c
      → AllMayChange c.events ds
      → Returns (changes os p c ds) (Settled p c)
  unfolding changes
  changes-Settled [] p c u s m = (s, Frame-refl os c.fd p, refl)
  changes-Settled (d ∷ ds) p c u s m =
      Returns-bind (Changed os p c (events_after d c.events)) _ (change os p c d) _
        (change-Changed p c u s d m.0)
        λ t h.
          Returns-mono (Settled t.1 t.0) _ _
            (changes-Settled ds t.1 t.0 (rw h.fd u) h.synced
              (subst (λ ev. AllMayChange ev ds) (sym h.events) m.1))
            λ v g. (
              g.0,
              Frame-trans os c.fd p t.1 v.1 h.frame (subst (λ fd. Frame os fd t.1 v.1) h.fd g.1),
              g.2 ∙ h.fd,
            )
