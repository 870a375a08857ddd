-- ===== src/Acceptor.antt =====
-- v1.7/src/Acceptor.h, v1.7/src/Acceptor.cpp, v1.7/src/Sockets.h and v1.7/src/Sockets.cpp: the
-- listening socket, with its channel on the poller, and `TcpServer::start`. What a system call
-- answers is an argument: `none` for an error.
pub mod Listen
use net_server_stepby_step.Base.{
  ℕ, Bool, true, false, not, Option, none, some, ltb, if◌then◌else◌, Outcome, done, failed,
  assert_failed, assert, ◌>>=◌, ◌>>◌,
}
use net_server_stepby_step.Os.{Os}
use net_server_stepby_step.Channel.{Channel, new_channel}
use net_server_stepby_step.Channel.Update.{enabled_readable}
use net_server_stepby_step.Epoller.{Epoller}

-- Whether the answer is not -1.
abbrev pub succeeded : Option ℕ → Bool
succeeded none = false
succeeded (some n) = true

-- The descriptor, after the assertion that there is one.
abbrev pub asserted : Option ℕ → Outcome ℕ
asserted none = failed assert_failed
asserted (some n) = done n

-- What socket(2) and setsockopt(2) answer a constructor of `Sockets`.
abbrev pub SocketAnswers : Type 0
SocketAnswers = Option ℕ × Option ℕ

-- The constructor of `Sockets`, with `setReuseAddr`: the answers of socket(2) and setsockopt(2).
unfoldable pub new_sockets : Option ℕ → Option ℕ → Outcome ℕ
new_sockets opened reuse = do fd ← asserted opened; assert (succeeded reuse); done fd

unfoldable pub sockets_bind : Option ℕ → Outcome (Unit {0})
sockets_bind answer = assert (succeeded answer)

unfoldable pub sockets_listen : Option ℕ → Outcome (Unit {0})
sockets_listen answer = assert (succeeded answer)

-- `Sockets::accept`, on the answer of accept4(2).
unfoldable pub sockets_accept : Option ℕ → Outcome ℕ
sockets_accept answer = do fd ← asserted answer; assert (ltb 0 fd); done fd

pub record Acceptor : Type 0 where
  pub listening : Bool
  pub socket : ℕ
  pub channel : Channel

-- The constructor, on the answers of socket(2), setsockopt(2) and bind(2).
unfoldable pub new_acceptor : Option ℕ → Option ℕ → Option ℕ → Outcome Acceptor
unfolding new_sockets sockets_bind new_channel
new_acceptor opened reuse bound = do
  fd ← new_sockets opened reuse
  sockets_bind bound
  done (record { listening = false; socket = fd; channel = new_channel fd })

module _ (os : Os) where
  unfoldable pub listen :
      Acceptor → Epoller os.Kernel → Option ℕ → Outcome (Acceptor × Epoller os.Kernel)
  unfolding sockets_listen
  listen a p answer = do
    assert (not a.listening)
    sockets_listen answer
    t ← enabled_readable os p a.channel
    done (record a { listening = true; channel = t.0 }, t.1)

  -- `TcpServer::start`.
  unfoldable pub start :
      Acceptor → Epoller os.Kernel → Option ℕ → Outcome (Acceptor × Epoller os.Kernel)
  unfolding listen
  start a p answer = listen a p answer

-- `Acceptor::accept`: the callback takes the descriptor and the peer, and may be unset; `close` is
-- the call on the other branch.
unfoldable pub accept :
    {S : Type 0} → Option (ℕ → ℕ → S → Outcome S) → (S → S) → Option ℕ → ℕ → S → Outcome S
unfolding sockets_accept
accept callback close answer peer s = do
  fd ← sockets_accept answer
  if ltb 0 fd then elim callback [ some f ↦ f fd peer s | none ↦ done s ] else done (close s)
