-- ===== src/Channel/Registration.antt =====
-- The status of a channel and the kernel's interest list stay in step: `Epoller::updateChannel`
-- never asks epoll for something that it refuses, whatever the order of the calls.
use net_server_stepby_step.Base.{
  ℕ, subst, ◌≡◌, refl, ◌∙◌, sym, ap, ◌≢◌, inl, inr, arith, Bool, true, false, Bool-cases, Option,
  none, some, ==-self, ne→==, if◌then◌else◌, failed, assert_failed, Returns, Returns-bind,
}
use net_server_stepby_step.Os.{Os, OsLaws, Sets, CtlOp, ctl_mod, ctl_del}
use net_server_stepby_step.Channel.{
  Channel, Status, fresh, added, deleted, is_none_event, set_status, set_events,
}
use net_server_stepby_step.Epoller.{
  Epoller, control, adopt, choose_op, remove_entry, update_channel, remove_channel,
}
use net_server_stepby_step.Channel.Update.{update, remove}

-- The entry that the interest list should have: the events of a channel that is added.
abbrev pub entry : Status → ℕ → Option ℕ
entry added ev = some ev
entry fresh ev = none
entry deleted ev = none

-- Whether there is one; after the events changed, before `update()`, its mask is still the old one.
abbrev pub Listed : Option ℕ → Status → Type 0
Listed r added = (m : ℕ) × (r ≡ some m)
Listed r fresh = r ≡ none
Listed r deleted = r ≡ none

-- The status after `updateChannel`.
abbrev pub next_status : Status → Bool → Status
next_status added true = deleted
next_status added false = added
next_status fresh empty = added
next_status deleted empty = added

module _ (os : Os) where
  abbrev pub Synced : Epoller os.Kernel → Channel → Type 0
  Synced p c = os.interest p.kernel c.fd ≡ entry c.status c.events

  -- What an operation on the channel at `fd` leaves alone.
  pub record Frame (fd : ℕ) (p q : Epoller os.Kernel) : Type 0 where
    pub others : (j : ℕ) → j ≢ fd → os.interest q.kernel j ≡ os.interest p.kernel j
    pub streams : (j : ℕ) → os.stream q.kernel j ≡ os.stream p.kernel j
    pub capacity : q.capacity ≡ p.capacity

  pub Frame-refl : (fd : ℕ) (p : Epoller os.Kernel) → Frame fd p p
  Frame-refl fd p = record { others = λ j _. refl; streams = λ j. refl; capacity = refl }

  pub Frame-trans :
      (fd : ℕ) (p q r : Epoller os.Kernel) → Frame fd p q → Frame fd q r → Frame fd p r
  Frame-trans fd p q r f g = record {
    others = λ j n. g.others j n ∙ f.others j n;
    streams = λ j. g.streams j ∙ f.streams j;
    capacity = g.capacity ∙ f.capacity;
  }

  -- A control call that epoll accepts sets the entry.
  Controlled : Epoller os.Kernel → ℕ → Option ℕ → Epoller os.Kernel → Type 0
  Controlled p fd r q = (os.interest q.kernel fd ≡ r) × Frame fd p q

  adopt-Controlled :
      (p : Epoller os.Kernel) (fd : ℕ) (r : Option ℕ) (o : Option os.Kernel)
      → Sets os p.kernel fd r o
      → Returns (adopt p o) (Controlled p fd r)
  unfolding adopt Controlled
  adopt-Controlled p fd r none h = absurd h
  adopt-Controlled p fd r (some k) h = (
    h.0 fd ∙ ap (λ b. if b then r else os.interest p.kernel fd) (==-self fd),
    record {
      others = λ j n. h.0 j ∙ ap (λ b. if b then r else os.interest p.kernel j) (ne→== j fd n);
      streams = h.1;
      capacity = refl;
    },
  )

  control-Controlled :
      (p : Epoller os.Kernel) (c : Channel) (op : CtlOp) (r : Option ℕ)
      → Sets os p.kernel c.fd r (os.epoll_ctl p.kernel op c.fd c.events)
      → Returns (control os p c op) (Controlled p c.fd r)
  unfolding control
  control-Controlled p c op r = adopt-Controlled p c.fd r _

  -- `updateChannel` keeps the events, and brings status and entry in step.
  pub record Updated (p : Epoller os.Kernel) (c : Channel) (t : Channel × Epoller os.Kernel)
      : Type 0 where
    pub channel : t.0 ≡ set_status c (next_status c.status (is_none_event c))
    pub synced : Synced t.1 t.0
    pub frame : Frame c.fd p t.1

  -- What a removal leaves: a fresh channel that epoll does not know.
  pub record Removed (p : Epoller os.Kernel) (c : Channel) (t : Channel × Epoller os.Kernel)
      : Type 0 where
    pub channel : t.0 ≡ set_status c fresh
    pub absent : os.interest t.1.kernel c.fd ≡ none
    pub frame : Frame c.fd p t.1

module _ (os : Os) (laws : OsLaws os) where
  -- The operation that is chosen is one that epoll accepts.
  choose_op-Sets :
      (k : os.Kernel) (c : Channel) (st : Status)
      → c.status ≡ st
      → os.pollable c.fd ≡ true
      → Listed (os.interest k c.fd) st
      → let (op, c') = choose_op st c in
        Sets os k c.fd (entry c'.status c'.events) (os.epoll_ctl k op c'.fd c'.events)
        × (c' ≡ set_status c (next_status st (is_none_event c)))
  unfolding choose_op
  choose_op-Sets k c fresh e u h = (laws.add_lem k c.fd c.events u h, refl)
  choose_op-Sets k c deleted e u h = (laws.add_lem k c.fd c.events u h, refl)
  choose_op-Sets k c added e u (m, h) = elim (Bool-cases (is_none_event c)) [
    | inl empty ↦ rw empty (laws.del_lem k c.fd c.events m h, refl)
    | inr some_left ↦ rw some_left (
      subst (λ st. Sets os k c.fd (entry st c.events) (os.epoll_ctl k ctl_mod c.fd c.events))
          (sym e) (laws.mod_lem k c.fd c.events m h),
      ap (set_status c) e,
    )
  ]

  fd-choose_op : (st : Status) (c : Channel) → (choose_op st c).1.fd ≡ c.fd
  unfolding choose_op
  fd-choose_op st c = ground arith

  -- `updateChannel` never aborts while status and interest list are in step.
  pub update_channel-Updated :
      (p : Epoller os.Kernel) (c : Channel)
      → os.pollable c.fd ≡ true
      → Listed (os.interest p.kernel c.fd) c.status
      → Returns (update_channel os p c) (Updated os p c)
  unfolding update_channel
  update_channel-Updated p c u h =
      let t = choose_op c.status c in
      let s = choose_op-Sets p.kernel c c.status refl u h in
      let e = fd-choose_op c.status c in
      Returns-bind (Controlled os p t.1.fd (entry t.1.status t.1.events)) _ (control os p t.1 t.0) _
        (control-Controlled os p t.1 t.0 (entry t.1.status t.1.events) (
          subst
            (λ fd.
              Sets os p.kernel fd (entry t.1.status t.1.events)
                (os.epoll_ctl p.kernel t.0 t.1.fd t.1.events))
            (sym e) s.0))
        (λ q g.
          unfold Controlled in
          record { channel = s.1; synced = g.0; frame = subst (λ fd. Frame os fd p q) e g.1 })

  -- So for any change of the events that ends in `update()`.
  Synced-Listed : (r : Option ℕ) (st : Status) (ev : ℕ) → r ≡ entry st ev → Listed r st
  Synced-Listed r fresh ev h = h
  Synced-Listed r deleted ev h = h
  Synced-Listed r added ev h = (ev, h)

  pub update-Updated :
      (p : Epoller os.Kernel) (c : Channel) (ev : ℕ)
      → os.pollable c.fd ≡ true
      → Synced os p c
      → Returns (update os p (set_events c ev)) (Updated os p (set_events c ev))
  unfolding update
  update-Updated p c ev u h =
      update_channel-Updated p (set_events c ev) u (Synced-Listed _ c.status c.events h)

  remove_entry-Controlled :
      (st : Status) (p : Epoller os.Kernel) (c : Channel)
      → os.interest p.kernel c.fd ≡ entry st c.events
      → Returns (remove_entry os st p c) (Controlled os p c.fd none)
  unfolding remove_entry Controlled
  remove_entry-Controlled fresh p c h = (h, Frame-refl os c.fd p)
  remove_entry-Controlled deleted p c h = (h, Frame-refl os c.fd p)
  remove_entry-Controlled added p c h =
      control-Controlled os p c ctl_del none (laws.del_lem p.kernel c.fd c.events c.events h)

  pub remove-Removed :
      (p : Epoller os.Kernel) (c : Channel)
      → is_none_event c ≡ true
      → Synced os p c
      → Returns (remove os p c) (Removed os p c)
  unfolding remove remove_channel
  remove-Removed p c e h = rw e (
      Returns-bind (Controlled os p c.fd none) _ (remove_entry os c.status p c) _
        (remove_entry-Controlled c.status p c h)
        (λ q g. unfold Controlled in record { channel = refl; absent = g.0; frame = g.1 }))

  -- The assertion of `remove()`.
  pub remove-failed :
      (p : Epoller os.Kernel) (c : Channel)
      → is_none_event c ≡ false
      → remove os p c ≡ failed assert_failed
  unfolding remove
  remove-failed p c e = rw e
