-- ===== src/Earlier/Buffered/Agreement.antt =====
-- A connection of v1.5 does what one of v1.7 does, call by call.
use net_server_stepby_step.Base.{
  ℕ, zero, suc, ◌≡◌, refl, ◌∙◌, ap, List, Bool, true, false, not, ◌&&◌, Bool-cases, inl, inr,
  Option, none, some, length, drop, ltb, ◌==◌, if◌then◌else◌, Outcome, done, failed, assert, ◌>>=◌,
}
use net_server_stepby_step.Os.{Os}
use net_server_stepby_step.Buffer.{append, readable_size, retrieve}
use net_server_stepby_step.Channel as Now
use net_server_stepby_step.Channel.Update as NowUpdate
use net_server_stepby_step.Epoller.{Epoller}
use net_server_stepby_step.TcpConnection as Conn7
use net_server_stepby_step.TcpConnection.{is_connected, is_connecting, is_disconnecting, outgoing}
use net_server_stepby_step.Earlier.Polling.{
  Channel, Registered, enabled_readable, enabled_writable, disabled_all_events, disabled_writable,
}
use net_server_stepby_step.Earlier.Refinement.{forget, forgotten, update_channel-forget}
use net_server_stepby_step.Earlier.Buffered.{
  Conn, Link, on_channel, establish, take_down, shutdown_write, shutdown, write_directly,
  queue_rest, send_rest, send, drained, wrote, after_write, handle_write,
}

-- The connection of v1.5 that one of v1.7 stands for.
abbrev pub forget_conn : Conn7.Conn → Conn
forget_conn c = record {
  name = c.name;
  socket = c.socket;
  channel = forget c.channel;
  local_addr = c.local_addr;
  peer_addr = c.peer_addr;
  state = c.state;
  input = c.input;
  output = c.output;
}

abbrev pub forget_link : {K : Type 0} → Conn7.Link K → Link K
forget_link l = record { conn = forget_conn l.conn; poller = l.poller }

abbrev pub after_forget : {K : Type 0} → Outcome (Conn7.Link K) → Outcome (Link K)
after_forget m = m >>= λ l. done (forget_link l)

-- The rest of a run, after runs that agree.
after_forget-bind :
    {A K : Type 0} (m : Outcome A) (f : A → Outcome (Link K)) (g : A → Outcome (Conn7.Link K))
    → ((a : A) → f a ≡ after_forget (g a))
    → (m >>= f) ≡ after_forget (m >>= g)
after_forget-bind (done a) f g h = h a
after_forget-bind (failed e) f g h = refl

link_bind :
    {K : Type 0} (m : Outcome (Conn7.Link K)) (f : Link K → Outcome (Link K))
    (g : Conn7.Link K → Outcome (Conn7.Link K))
    → ((l : Conn7.Link K) → f (forget_link l) ≡ after_forget (g l))
    → (after_forget m >>= f) ≡ after_forget (m >>= g)
link_bind (done l) f g h = h l
link_bind (failed e) f g h = refl

if_forget :
    {K : Type 0} (b : Bool) (x y : Outcome (Link K)) (x' y' : Outcome (Conn7.Link K))
    → x ≡ after_forget x'
    → y ≡ after_forget y'
    → (if b then x else y) ≡ after_forget (if b then x' else y')
if_forget true x y x' y' h k = h
if_forget false x y x' y' h k = k

module _ (os : Os) where
  -- A method of the channel that only enables or disables events.
  Agrees :
      (Epoller os.Kernel → Channel → Registered os)
      → (Epoller os.Kernel → Now.Channel → NowUpdate.Registered os)
      → Type 0
  Agrees op op' =
      (p : Epoller os.Kernel) (c : Now.Channel) → op p (forget c) ≡ forgotten os (op' p c)

  on_channel-forget :
      (op : Epoller os.Kernel → Channel → Registered os)
      (op' : Epoller os.Kernel → Now.Channel → NowUpdate.Registered os)
      → Agrees op op'
      → (l : Conn7.Link os.Kernel)
      → on_channel os op (forget_link l) ≡ after_forget (Conn7.on_channel os op' l)
  unfolding on_channel Conn7.on_channel Agrees
  on_channel-forget op op' h l =
      ap
        (λ m. m >>= λ t.
          done (record { conn = record ((forget_link l).conn) { channel = t.0 }; poller = t.1 }))
        (h l.poller l.conn.channel)
      ∙ go (op' l.poller l.conn.channel)
    where
      go :
          (m : NowUpdate.Registered os)
          → (forgotten os m >>= λ t.
              done
                (record { conn = record ((forget_link l).conn) { channel = t.0 }; poller = t.1 }))
            ≡ after_forget (
                m >>= λ t. done (record { conn = record (l.conn) { channel = t.0 }; poller = t.1 }))
      go (done t) = refl
      go (failed e) = refl

  readable-Agrees : Agrees (enabled_readable os) (NowUpdate.enabled_readable os)
  unfolding Agrees enabled_readable NowUpdate.enabled_readable NowUpdate.update
      NowUpdate.loop_update_channel
  readable-Agrees p c = update_channel-forget os p (Now.set_events c _)

  writable-Agrees : Agrees (enabled_writable os) (NowUpdate.enabled_writable os)
  unfolding Agrees enabled_writable NowUpdate.enabled_writable NowUpdate.update
      NowUpdate.loop_update_channel
  writable-Agrees p c = update_channel-forget os p (Now.set_events c _)

  all_events-Agrees : Agrees (disabled_all_events os) (NowUpdate.disabled_all_events os)
  unfolding Agrees disabled_all_events NowUpdate.disabled_all_events NowUpdate.update
      NowUpdate.loop_update_channel
  all_events-Agrees p c = update_channel-forget os p (Now.set_events c _)

  no_writable-Agrees : Agrees (disabled_writable os) (NowUpdate.disabled_writable os)
  unfolding Agrees disabled_writable NowUpdate.disabled_writable NowUpdate.update
      NowUpdate.loop_update_channel
  no_writable-Agrees p c = update_channel-forget os p (Now.set_events c _)

  pub establish-forget :
      (l : Conn7.Link os.Kernel)
      → establish os (forget_link l) ≡ after_forget (Conn7.establish os l)
  unfolding establish Conn7.establish
  establish-forget l =
      after_forget-bind (assert (is_connecting l.conn.state)) _ _
        λ _. on_channel-forget _ _ readable-Agrees (Conn7.set_connect_state l Conn7.connected)

  pub take_down-forget :
      (l : Conn7.Link os.Kernel)
      → take_down os (forget_link l) ≡ after_forget (Conn7.take_down os l)
  unfolding take_down Conn7.take_down
  take_down-forget l =
      on_channel-forget _ _ all_events-Agrees (Conn7.set_connect_state l Conn7.disconnected)

  pub shutdown-forget :
      (l : Conn7.Link os.Kernel) → shutdown os (forget_link l) ≡ after_forget (Conn7.shutdown os l)
  unfolding shutdown Conn7.shutdown shutdown_write Conn7.shutdown_write
  shutdown-forget l =
      if_forget (not (is_connected l.conn.state) && not (Now.is_writing l.conn.channel)) _ _ _ _
        (if_forget (os.shut_wr l.poller.kernel l.conn.socket).0 _ _ _ _ refl refl) refl

  queue_rest-forget :
      (l : Conn7.Link os.Kernel) (rest : List ℕ)
      → queue_rest os (forget_link l) rest ≡ after_forget (Conn7.queue_rest os l rest)
  unfolding queue_rest Conn7.queue_rest
  queue_rest-forget l rest = after_forget-bind (append l.conn.output rest) _ _ λ b.
      if_forget (not (Now.is_writing l.conn.channel)) _ _ _ _
        (on_channel-forget _ _ writable-Agrees (Conn7.set_output l b)) refl

  send_rest-forget :
      (n : ℕ) (l : Conn7.Link os.Kernel) (message : List ℕ)
      → send_rest os (n, forget_link l) message ≡ after_forget (Conn7.send_rest os (n, l) message)
  unfolding send_rest Conn7.send_rest
  send_rest-forget n l message =
      if_forget (ltb n (length message)) _ _ _ _ (queue_rest-forget l (drop n message)) refl

  pub send-forget :
      (l : Conn7.Link os.Kernel) (message : List ℕ)
      → send os (forget_link l) message ≡ after_forget (Conn7.send os l message)
  unfolding send Conn7.send write_directly Conn7.write_directly
  send-forget l message =
      elim (Bool-cases
        (not (Now.is_writing l.conn.channel) && (readable_size l.conn.output == 0))) [
          | inl idle ↦ rw idle (send_rest-forget _ (Conn7.set_kernel l _) message)
          | inr busy ↦ rw busy (send_rest-forget 0 l message)
        ]

  drained-forget :
      (l : Conn7.Link os.Kernel) → drained os (forget_link l) ≡ after_forget (Conn7.drained os l)
  unfolding drained Conn7.drained
  drained-forget l =
      ap (λ m. m >>= λ l'. if is_disconnecting l'.conn.state then shutdown os l' else done l')
        (on_channel-forget _ _ no_writable-Agrees l)
      ∙ link_bind (Conn7.on_channel os (NowUpdate.disabled_writable os) l) _ _
          λ l'. if_forget (is_disconnecting l'.conn.state) _ _ _ _ (shutdown-forget l') refl

  after_write-forget :
      (l : Conn7.Link os.Kernel) (o : Option ℕ)
      → after_write os (forget_link l) o ≡ after_forget (Conn7.after_write os l o)
  unfolding after_write Conn7.after_write wrote Conn7.wrote
  after_write-forget l none = refl
  after_write-forget l (some zero) = refl
  after_write-forget l (some (suc n)) =
      if_forget (readable_size (retrieve l.conn.output (suc n)) == 0) _ _ _ _
        (drained-forget (Conn7.set_output l (retrieve l.conn.output (suc n)))) refl

  pub handle_write-forget :
      (l : Conn7.Link os.Kernel)
      → handle_write os (forget_link l) ≡ after_forget (Conn7.handle_write os l)
  unfolding handle_write Conn7.handle_write
  handle_write-forget l =
      if_forget (Now.is_writing l.conn.channel) _ _ _ _
        (after_write-forget (Conn7.set_kernel l _) _) refl
