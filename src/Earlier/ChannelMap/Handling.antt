-- ===== src/Earlier/ChannelMap/Handling.antt =====
-- What a handler of v1.2 does with an event, against the body of the loop of v1.1.
use net_server_stepby_step.Base.{
  subst, ℕ, ◌≡◌, ◌≢◌, refl, ◌∙◌, sym, ap, List, [], ◌∷◌, true, false, Bool-cases, inl, inr, Option,
  none, some, ◌==◌, ==→eq, ==→ne, has, epollin, Outcome, done, failed, ◌>>=◌,
}
use net_server_stepby_step.Acceptor.{sockets_accept}
use net_server_stepby_step.Earlier.Echo.{Answers, set_at}
use net_server_stepby_step.Earlier.EchoPoll.{EchoPoller, close_fd, poll_one, on_received}
use net_server_stepby_step.Earlier.EchoPoll
use net_server_stepby_step.Earlier.ChannelMap.{
  replies, Channel, MapPoller, register_fd, on_message, accept_connection, run_callback,
  handle_events,
}
use net_server_stepby_step.Earlier.ChannelMap.Agreement.{
  Related, Registered, Steps, callback_of, register_fd-Steps, drop_fd-Steps,
}

module _ (server_sock : ℕ) where
  on_message-Steps :
      (fd : ℕ) (received : Option (List ℕ)) (taken : ℕ) (s : MapPoller)
      → fd ≢ server_sock
      → Registered server_sock s
      → Steps server_sock fd s
          (on_message fd received taken s)
          (on_received fd received taken s.core)
  unfolding on_message on_received
  on_message-Steps fd none taken s client r = drop_fd-Steps server_sock fd s client r
  on_message-Steps fd (some []) taken s client r = drop_fd-Steps server_sock fd s client r
  on_message-Steps fd (some (x ∷ xs)) taken s client r = (
    (
      refl,
      record { server_watched = r.server_watched; channel = r.channel; callbacks = r.callbacks },
    ),
    λ j d n h. h,
  )

  accept_connection-Steps :
      (fd : ℕ) (accepted : Option ℕ) (s : MapPoller)
      → Registered server_sock s
      → Related (Steps server_sock fd s) (accept_connection accepted s) (
          sockets_accept accepted >>= λ c.
          done
            (EchoPoll.register_fd c (record (s.core) { is_open = set_at s.core.is_open c true })))
  unfolding accept_connection
  accept_connection-Steps fd accepted s r = go (sockets_accept accepted)
    where
      go :
          (o : Outcome ℕ)
          → Related
              (Steps server_sock fd s)
              (o >>= λ c. done (
                register_fd c
                  (replies c)
                  (record s { core = record (s.core) { is_open = set_at s.core.is_open c true } })))
              (o >>= λ c. done (
                EchoPoll.register_fd c
                  (record (s.core) { is_open = set_at s.core.is_open c true })))
      go (done c) = register_fd-Steps server_sock fd c s r
      go (failed e) = refl

  -- What `handleEvents` comes to, by EPOLLIN.
  handle_events_readable :
      (fd : ℕ) (a : Answers) (s : MapPoller) (c : Channel)
      → s.channels_map fd ≡ some c
      → has c.revents epollin ≡ true
      → handle_events fd a s ≡ run_callback c.read_callback a s
  unfolding handle_events
  handle_events_readable fd a s c e h = rw e (rw h (rw e (rw h refl)))

  handle_events_other :
      (fd : ℕ) (a : Answers) (s : MapPoller) (c : Channel)
      → s.channels_map fd ≡ some c
      → has c.revents epollin ≡ false
      → c.close_callback ≡ none
      → handle_events fd a s ≡ done s
  unfolding handle_events
  handle_events_other fd a s c e h n = rw e (rw (h, n) (rw e (rw h refl)))

  -- An event of v1.2 does what it does in v1.1.
  pub handle_events-Steps :
      (fd ev : ℕ) (a : Answers) (s : MapPoller) (c : Channel)
      → Registered server_sock s
      → s.channels_map fd ≡ some c
      → c.revents ≡ ev
      → (fd ≡ server_sock → has ev epollin ≡ true)
      → Related
          (Steps server_sock fd s)
          (handle_events fd a s)
          (poll_one server_sock (fd, ev) a s.core)
  handle_events-Steps fd ev a s c r e v readable = elim (Bool-cases (has ev epollin)) [
    | inl on ↦
        subst (λ o. Related (Steps server_sock fd s) o (poll_one server_sock (fd, ev) a s.core))
          (sym (
            handle_events_readable fd a s c e (ap (λ v. has v epollin) v ∙ on)
            ∙ ap (λ f. run_callback f a s) (r.callbacks fd c e).0))
          (reads on)
    | inr off ↦
        subst (λ o. Related (Steps server_sock fd s) o (poll_one server_sock (fd, ev) a s.core))
          (sym (
            handle_events_other fd a s c e (ap (λ v. has v epollin) v ∙ off)
              (r.callbacks fd c e).1))
          (ignores off)
  ]
    where
      reads :
          has ev epollin ≡ true
          → Related
              (Steps server_sock fd s)
              (run_callback (some (callback_of server_sock fd)) a s)
              (poll_one server_sock (fd, ev) a s.core)
      reads on =
          unfold run_callback poll_one in
          elim (Bool-cases (fd == server_sock)) [
            | inl own ↦ rw own (accept_connection-Steps fd a.accepted s r)
            | inr client ↦
                rw (client, on)
                  (on_message-Steps fd a.received a.taken s (==→ne fd server_sock client) r)
          ]

      ignores :
          has ev epollin ≡ false
          → Related (Steps server_sock fd s) (done s) (poll_one server_sock (fd, ev) a s.core)
      ignores off =
          unfold poll_one in
          elim (Bool-cases (fd == server_sock)) [
            | inl own ↦ absurd (let on = readable (==→eq fd server_sock own) in cc)
            | inr client ↦ rw (client, off) ((refl, r), λ j d n h. h)
          ]
