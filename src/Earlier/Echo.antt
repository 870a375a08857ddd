-- ===== src/Earlier/Echo.antt =====
-- v1.0/EchoServer.cpp: an echo server in one function. The state has which descriptors are open,
-- watched for EPOLLIN by epoll, and non-blocking, the bytes that each has accepted, and the variable
-- `connect_sock`, `none` before it is first assigned.
pub mod Replies
pub mod Serving
use net_server_stepby_step.Acceptor.{asserted, succeeded}
use net_server_stepby_step.Base.{
  ℕ, List, [], ◌∷◌, ◌++◌, Bool, true, false, Option, none, some, take, ◌==◌, if◌then◌else◌, has,
  epollin, Outcome, done, failed, assert_failed, deref, ◌>>=◌, ◌>>◌, assert,
}

pub record Server : Type 0 where
  pub is_open : ℕ → Bool
  pub watched : ℕ → Bool
  pub non_blocking : ℕ → Bool
  pub sent : ℕ → List ℕ
  pub connect_sock : Option ℕ

-- What the system calls of one event answer: accept4 and recv (`none` for an error, and at most
-- `Buffer_Size - 1` bytes), and how many bytes send takes.
pub record Answers : Type 0 where
  pub accepted : Option ℕ
  pub received : Option (List ℕ)
  pub taken : ℕ

abbrev pub set_at {ℓ} : {A : Type ℓ} → (ℕ → A) → ℕ → A → ℕ → A
set_at f i a j = if j == i then a else f j

unfoldable pub set_non_blocking : ℕ → Server → Server
set_non_blocking fd s = record s { non_blocking = set_at s.non_blocking fd true }

unfoldable pub addfd : ℕ → Server → Server
unfolding set_non_blocking
addfd fd s = set_non_blocking fd (record s { watched = set_at s.watched fd true })

-- close(2); epoll forgets a descriptor that is closed.
abbrev pub close : ℕ → Server → Server
close fd s = record s { is_open = set_at s.is_open fd false; watched = set_at s.watched fd false }

-- The branches on what recv answered.
unfoldable pub after_recv : ℕ → Option (List ℕ) → ℕ → Server → Outcome Server
after_recv fd none taken s = do c ← deref s.connect_sock; done (close c s)
after_recv fd (some []) taken s = done (close fd s)
after_recv fd (some (x ∷ xs)) taken s =
    done (record s { sent = set_at s.sent fd (s.sent fd ++ take taken (x ∷ xs)) })

-- The branch of the listening socket.
unfoldable pub after_accept : Option ℕ → Server → Outcome Server
unfolding addfd
after_accept none s = failed assert_failed
after_accept (some c) s =
    done (addfd c (record s { is_open = set_at s.is_open c true; connect_sock = some c }))

-- The body of the loop over the active events: descriptor and returned events.
unfoldable pub handle_event : ℕ → ℕ × ℕ → Answers → Server → Outcome Server
unfolding after_recv after_accept
handle_event server_sock (fd, ev) a s =
    if fd == server_sock
    then after_accept a.accepted s
    else if has ev epollin
    then after_recv fd a.received a.taken s
    else done s

-- The events of one epoll_wait.
unfoldable pub handle_events : ℕ → List ((ℕ × ℕ) × Answers) → Server → Outcome Server
unfolding handle_event
handle_events server_sock [] s = done s
handle_events server_sock ((e, a) ∷ es) s = do
  s₁ ← handle_event server_sock e a s
  handle_events server_sock es s₁

-- What stands before the loop, once the calls on the listening socket have succeeded.
unfoldable pub new_server : ℕ → Server
unfolding addfd
new_server server_sock = addfd server_sock (record {
  is_open = λ fd. fd == server_sock;
  watched = λ _. false;
  non_blocking = λ _. false;
  sent = λ _. [];
  connect_sock = none;
})

-- So many rounds of the endless loop, each with the events of its epoll_wait; a negative answer is
-- the empty list.
unfoldable pub serve : ℕ → List (List ((ℕ × ℕ) × Answers)) → Server → Outcome Server
unfolding handle_events
serve server_sock [] s = done s
serve server_sock (es ∷ rounds) s = do
  s₁ ← handle_events server_sock es s
  serve server_sock rounds s₁

-- `main`, on the answers of socket(2), bind(2), listen(2) and epoll_create1(2), for so many rounds.
unfoldable pub main :
    Option ℕ → Option ℕ → Option ℕ → Option ℕ → List (List ((ℕ × ℕ) × Answers)) → Outcome Server
unfolding new_server serve
main opened bound listening epoll rounds = do
  server_sock ← asserted opened
  assert (succeeded bound)
  assert (succeeded listening)
  assert (succeeded epoll)
  serve server_sock rounds (new_server server_sock)
