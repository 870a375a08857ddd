-- ===== src/Acceptor/Listen.antt =====
-- Listening and accepting.
use net_server_stepby_step.Base.{
  ℕ, suc, zero, ◌≡◌, refl, ap, true, Option, none, some, set_bit, epollin, Outcome, done, failed,
  assert_failed, Returns, Returns-bind, arith, lt→ltb, ◌>>=◌,
}
use net_server_stepby_step.Os.{Os, OsLaws}
use net_server_stepby_step.Channel.{Channel, set_events, fresh}
use net_server_stepby_step.Channel.Update.{enabled_readable}
use net_server_stepby_step.Channel.Registration.{Synced, Frame, Updated, update-Updated}
use net_server_stepby_step.Epoller.{Epoller}
use net_server_stepby_step.Acceptor.{Acceptor, new_acceptor, start, accept}

module _ (os : Os) where
  -- What listening leaves; a second call ends the program.
  pub record Listening (fd : ℕ) (p : Epoller os.Kernel) (t : Acceptor × Epoller os.Kernel)
      : Type 0 where
    pub listening : t.0.listening ≡ true
    pub fd_kept : t.0.channel.fd ≡ fd
    pub events : t.0.channel.events ≡ set_bit 0 epollin
    pub synced : Synced os t.1 t.0.channel
    pub frame : Frame os fd p t.1
    pub once : (answer : Option ℕ) → start os t.0 t.1 answer ≡ failed assert_failed

module _ (os : Os) (laws : OsLaws os) where
  listen_again :
      (a : Acceptor) (p : Epoller os.Kernel) (answer : Option ℕ)
      → a.listening ≡ true
      → start os a p answer ≡ failed assert_failed
  unfolding start
  listen_again a p answer e = simp e

  -- A server that is made and started while its system calls succeed listens on the new socket,
  -- which is watched for EPOLLIN alone, its status in agreement with the interest list and every
  -- other descriptor as it was; starting it again fails at the assertion. (The descriptor is one
  -- that epoll can poll and does not yet watch.)
  pub start-Listening :
      (p : Epoller os.Kernel) (fd reuse bound answer : ℕ)
      → os.pollable fd ≡ true
      → os.interest p.kernel fd ≡ none
      → Returns
          (new_acceptor (some fd) (some reuse) (some bound) >>= λ a. start os a p (some answer))
          (Listening os fd p)
  unfolding new_acceptor start enabled_readable
  start-Listening p fd reuse bound answer u free =
      let c : Channel = record { fd = fd; events = 0; revents = 0; status = fresh } in
      let ev = set_bit 0 epollin in
      Returns-bind (Updated os p (set_events c ev)) _ _ _ (update-Updated os laws p c ev u free)
        λ t g. record {
          listening = refl;
          fd_kept = ap (λ (c : Channel). c.fd) g.channel;
          events = ap (λ (c : Channel). c.events) g.channel;
          synced = g.synced;
          frame = g.frame;
          once = λ answer. refl;
        }

-- `Acceptor::accept` hands the new descriptor and the peer to the callback, and does nothing else
-- if there is none; any error of accept4(2) ends the program at the assertion in
-- `Sockets::accept`, so that the branch which closes the descriptor is never taken.
pub accept_lem :
    {S : Type 0} (callback : Option (ℕ → ℕ → S → Outcome S)) (close : S → S) (answer : Option ℕ)
    (peer : ℕ) (s : S)
    → accept callback close answer peer s ≡ elim answer as (λ _. Outcome S) [
      | none ↦ failed assert_failed
      | some n ↦ elim n as (λ _. Outcome S) [
        | zero ↦ failed assert_failed
        | suc m ↦ elim callback as (λ _. Outcome S) [ some f ↦ f (suc m) peer s | none ↦ done s ]
      ]
    ]
unfolding accept
accept_lem callback close none peer s = refl
accept_lem callback close (some zero) peer s = refl
accept_lem callback close (some (suc m)) peer s =
    let positive = lt→ltb 0 (suc m) (omega arith) in simp positive
