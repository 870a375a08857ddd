-- ===== src/Earlier/EchoPoll.antt =====
-- v1.1/src/Epoller.h, v1.1/src/Epoller.cpp and v1.1/src/EventLoop.cpp: the echo server as a poller. The state has which
-- descriptors are open and watched for EPOLLIN, and the bytes that each has accepted; what the system
-- calls of one event answer is as in Earlier/Echo.
pub mod Fairness
pub mod Looping
use net_server_stepby_step.Base.{
  ℕ, List, [], ◌∷◌, ◌++◌, Bool, true, false, Option, none, some, take, ltb, ◌==◌, if◌then◌else◌,
  has, epollin, Outcome, done, ◌>>=◌,
}
use net_server_stepby_step.Acceptor.{sockets_accept}
use net_server_stepby_step.Earlier.Echo.{Answers, set_at}

pub record EchoPoller : Type 0 where
  pub is_open : ℕ → Bool
  pub watched : ℕ → Bool
  pub sent : ℕ → List ℕ

unfoldable pub register_fd : ℕ → EchoPoller → EchoPoller
register_fd fd s = record s { watched = set_at s.watched fd true }

-- The constructor, on the listening socket, once epoll_create1(2) has succeeded.
unfoldable pub new_echo_poller : ℕ → EchoPoller
unfolding register_fd
new_echo_poller fd =
    register_fd fd (record { is_open = λ j. j == fd; watched = λ _. false; sent = λ _. [] })

-- close(2); epoll forgets a descriptor that is closed.
abbrev pub close_fd : ℕ → EchoPoller → EchoPoller
close_fd fd s = record s {
  is_open = set_at s.is_open fd false;
  watched = set_at s.watched fd false;
}

-- The branches on what recv answered.
unfoldable pub on_received : ℕ → Option (List ℕ) → ℕ → EchoPoller → EchoPoller
on_received fd none taken s = close_fd fd s
on_received fd (some []) taken s = close_fd fd s
on_received fd (some (x ∷ xs)) taken s = record s {
  sent = set_at s.sent fd (s.sent fd ++ take taken (x ∷ xs));
}

-- One round of the loop of `poll`.
unfoldable pub poll_one : ℕ → ℕ × ℕ → Answers → EchoPoller → Outcome EchoPoller
unfolding on_received register_fd sockets_accept
poll_one server_sock (fd, ev) a s =
    if fd == server_sock
    then (do
      c ← sockets_accept a.accepted
      done (register_fd c (record s { is_open = set_at s.is_open c true })))
    else done (if has ev epollin then on_received fd a.received a.taken s else s)

-- `poll`, on the events that epoll_wait stored; a negative answer is the empty list.
unfoldable pub poll : ℕ → List ((ℕ × ℕ) × Answers) → EchoPoller → Outcome EchoPoller
unfolding poll_one
poll server_sock [] s = done s
poll server_sock ((e, a) ∷ es) s = do s₁ ← poll_one server_sock e a s; poll server_sock es s₁

-- `EventLoop::loop`, for so many rounds: nothing ends it.
unfoldable pub loop : ℕ → List (List ((ℕ × ℕ) × Answers)) → EchoPoller → Outcome EchoPoller
unfolding poll
loop server_sock [] s = done s
loop server_sock (es ∷ rounds) s = do s₁ ← poll server_sock es s; loop server_sock rounds s₁
