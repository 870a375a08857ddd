-- ===== src/Earlier/Buffered/Calls.antt =====
-- Sequences of calls on a connection, in v1.5 and in v1.7.
use net_server_stepby_step.Base.{
  ℕ, ◌≡◌, refl, ◌∙◌, ap, List, [], ◌∷◌, Outcome, done, failed, ◌>>=◌, Option,
}
use net_server_stepby_step.Os.{Os}
use net_server_stepby_step.Buffer.{Buffer, read_fd, writable_size}
use net_server_stepby_step.TcpConnection as Conn7
use net_server_stepby_step.Earlier.Buffered.{
  Link, set_input, set_kernel, establish, take_down, receive, shutdown, send, handle_write,
}
use net_server_stepby_step.Earlier.Buffered.Agreement.{
  forget_link, after_forget, establish-forget, take_down-forget, shutdown-forget, send-forget,
  handle_write-forget,
}

-- What is called of a connection; `reads` is the read of `handleRead`.
pub data Call : Type 0 where
  establishes : Call
  takes_down : Call
  reads : Call
  writes : Call
  sends : List ℕ → Call
  shuts : Call

module _ (os : Os) where
  pub run_call : Link os.Kernel → Call → Outcome (Link os.Kernel)
  run_call l establishes = establish os l
  run_call l takes_down = take_down os l
  run_call l reads = do t ← receive os l; done t.1
  run_call l writes = handle_write os l
  run_call l (sends message) = send os l message
  run_call l shuts = shutdown os l

  pub run_calls : Link os.Kernel → List Call → Outcome (Link os.Kernel)
  run_calls l [] = done l
  run_calls l (c ∷ cs) = do l' ← run_call l c; run_calls l' cs

  -- The same in v1.7.
  pub run_call_now : Conn7.Link os.Kernel → Call → Outcome (Conn7.Link os.Kernel)
  run_call_now l establishes = Conn7.establish os l
  run_call_now l takes_down = Conn7.take_down os l
  run_call_now l reads = do t ← Conn7.receive os l; done t.1
  run_call_now l writes = Conn7.handle_write os l
  run_call_now l (sends message) = Conn7.send os l message
  run_call_now l shuts = Conn7.shutdown os l

  pub run_calls_now : Conn7.Link os.Kernel → List Call → Outcome (Conn7.Link os.Kernel)
  run_calls_now l [] = done l
  run_calls_now l (c ∷ cs) = do l' ← run_call_now l c; run_calls_now l' cs

  reads-forget :
      (l : Conn7.Link os.Kernel)
      → (receive os (forget_link l) >>= λ t. done t.1)
        ≡ after_forget (Conn7.receive os l >>= λ t. done t.1)
  unfolding receive Conn7.receive
  reads-forget l =
      let (r, k) = os.readv l.poller.kernel l.conn.channel.fd (writable_size l.conn.input) in
      go k (read_fd l.conn.input r)
    where
      go :
          (k : os.Kernel) (m : Outcome (Option ℕ × Buffer))
          → (◌>>=◌ {B = Option ℕ × Link os.Kernel} m
                (λ t. done (t.0, set_input (set_kernel (forget_link l) k) t.1))
              >>= λ t. done t.1)
            ≡ after_forget (
                ◌>>=◌ {B = Option ℕ × Conn7.Link os.Kernel} m
                  (λ t. done (t.0, Conn7.set_input (Conn7.set_kernel l k) t.1))
                >>= λ t. done t.1)
      go k (done t) = refl
      go k (failed e) = refl

  run_call-forget :
      (l : Conn7.Link os.Kernel) (c : Call)
      → run_call (forget_link l) c ≡ after_forget (run_call_now l c)
  unfolding run_call run_call_now
  run_call-forget l establishes = establish-forget os l
  run_call-forget l takes_down = take_down-forget os l
  run_call-forget l reads = reads-forget l
  run_call-forget l writes = handle_write-forget os l
  run_call-forget l (sends message) = send-forget os l message
  run_call-forget l shuts = shutdown-forget os l

  -- Any sequence of calls of a connection, of establishing, taking down, reading, `handleWrite`,
  -- `send` and `shutdown`, does in v1.5 what it does in v1.7: the same system calls, bytes, buffers
  -- and states, or the same fault, with the channel of v1.5 that of v1.7, its status forgotten but
  -- for whether it is ADDED.
  pub run_calls-forget :
      (cs : List Call) (l : Conn7.Link os.Kernel)
      → run_calls (forget_link l) cs ≡ after_forget (run_calls_now l cs)
  unfolding run_calls run_calls_now
  run_calls-forget [] l = refl
  run_calls-forget (c ∷ cs) l =
      ap (λ m. m >>= λ l'. run_calls l' cs) (run_call-forget l c)
      ∙ go (run_call_now l c) (λ l'. run_calls-forget cs l')
    where
      go :
          (m : Outcome (Conn7.Link os.Kernel))
          → ((l' : Conn7.Link os.Kernel)
              → run_calls (forget_link l') cs ≡ after_forget (run_calls_now l' cs))
          → (after_forget m >>= λ l'. run_calls l' cs)
            ≡ after_forget (m >>= λ l'. run_calls_now l' cs)
      go (done l') ih = ih l'
      go (failed e) ih = refl
