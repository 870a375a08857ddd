-- ===== src/Earlier/ChannelMap.antt =====
-- v1.2/src/Channel.h, v1.2/src/Channel.cpp, v1.2/src/Epoller.h, v1.2/src/Epoller.cpp and
-- v1.2/src/EventLoop.cpp: the echo server with a channel for each descriptor, in a map that the poller
-- owns. A pointer to a channel is its key in the map; the lambdas are a data type. Descriptors and
-- system calls are as in Earlier/EchoPoll.
pub mod Agreement
pub mod Handling
pub mod Rounds
use net_server_stepby_step.Base.{
  ℕ, List, [], ◌∷◌, ◌++◌, Bool, true, false, not, Option, none, some, take, ◌==◌, if◌then◌else◌,
  has, epollin, Outcome, done, deref, ◌>>=◌,
}
use net_server_stepby_step.Acceptor.{sockets_accept}
use net_server_stepby_step.Earlier.Echo.{Answers, set_at}
use net_server_stepby_step.Earlier.EchoPoll.{EchoPoller, close_fd}
use net_server_stepby_step.Earlier.EchoPoll

-- The callbacks that are made: `acceptConnection()`, and `onMessage(fd)`.
pub data Callback : Type 0 where
  accepts : Callback
  replies : ℕ → Callback

-- `revents_` has no initialiser; it is taken to be 0.
pub record Channel : Type 0 where
  pub fd : ℕ
  pub revents : ℕ
  pub read_callback : Option Callback
  pub close_callback : Option Callback

unfoldable pub new_channel : ℕ → Channel
new_channel fd = record { fd = fd; revents = 0; read_callback = none; close_callback = none }

pub record MapPoller : Type 0 where
  pub core : EchoPoller
  pub channels_map : ℕ → Option Channel

abbrev pub or_else : Option Channel → Channel → Channel
or_else none d = d
or_else (some c) d = c

-- `channelsMap.insert`, which leaves an entry that is there, and `channelsMap.erase`.
abbrev pub insert_channel : ℕ → Channel → (ℕ → Option Channel) → ℕ → Option Channel
insert_channel fd d m = set_at m fd (some (or_else (m fd) d))

abbrev pub erase_channel : ℕ → (ℕ → Option Channel) → ℕ → Option Channel
erase_channel fd m = set_at m fd none

unfoldable pub register_fd : ℕ → Callback → MapPoller → MapPoller
unfolding new_channel EchoPoll.register_fd
register_fd fd callback s = record {
  core = EchoPoll.register_fd fd s.core;
  channels_map =
      insert_channel fd (record (new_channel fd) { read_callback = some callback }) s.channels_map;
}

-- The constructor, on the listening socket, once epoll_create1(2) has succeeded.
unfoldable pub new_map_poller : ℕ → MapPoller
unfolding register_fd
new_map_poller fd = register_fd fd accepts (record {
  core = record { is_open = λ j. j == fd; watched = λ _. false; sent = λ _. [] };
  channels_map = λ _. none;
})

-- `poll`: the active channels in the order of the events that epoll_wait stored. `channelsMap[fd]`
-- makes a channel where there is none.
unfoldable pub poll : List (ℕ × ℕ) → MapPoller → List ℕ × MapPoller
unfolding new_channel
poll [] s = ([], s)
poll ((fd, ev) ∷ es) s =
    let channel = record (or_else (s.channels_map fd) (new_channel 0)) { revents = ev } in
    let (active, s') =
      poll es (record s { channels_map = set_at s.channels_map fd (some channel) }) in
    (fd ∷ active, s')

abbrev pub drop_fd : ℕ → MapPoller → MapPoller
drop_fd fd s = record { core = close_fd fd s.core; channels_map = erase_channel fd s.channels_map }

-- `onMessage`, on what recv answered and how many bytes send takes.
unfoldable pub on_message : ℕ → Option (List ℕ) → ℕ → MapPoller → MapPoller
on_message fd none taken s = drop_fd fd s
on_message fd (some []) taken s = drop_fd fd s
on_message fd (some (x ∷ xs)) taken s = record s {
  core = record (s.core) { sent = set_at s.core.sent fd (s.core.sent fd ++ take taken (x ∷ xs)) };
}

unfoldable pub accept_connection : Option ℕ → MapPoller → Outcome MapPoller
unfolding register_fd sockets_accept
accept_connection accepted s = do
  c ← sockets_accept accepted
  done (
      register_fd c (replies c)
        (record s { core = record (s.core) { is_open = set_at s.core.is_open c true } }))

-- A callback, which may be unset.
unfoldable pub run_callback : Option Callback → Answers → MapPoller → Outcome MapPoller
unfolding on_message accept_connection
run_callback none a s = done s
run_callback (some accepts) a s = accept_connection a.accepted s
run_callback (some (replies fd)) a s = done (on_message fd a.received a.taken s)

-- `handleEvents` of the channel at this key.
unfoldable pub handle_events : ℕ → Answers → MapPoller → Outcome MapPoller
unfolding run_callback
handle_events p a s = do
  c ← deref (s.channels_map p)
  s₁ ← if has c.revents epollin then done s else run_callback c.close_callback a s
  c₁ ← deref (s₁.channels_map p)
  if has c₁.revents epollin then run_callback c₁.read_callback a s₁ else done s₁

-- The loop over the active channels; `answers` is what the system calls for a descriptor answer.
unfoldable pub run_active : (ℕ → Answers) → List ℕ → MapPoller → Outcome MapPoller
unfolding handle_events
run_active answers [] s = done s
run_active answers (p ∷ ps) s = do s₁ ← handle_events p (answers p) s; run_active answers ps s₁

-- One round of `loop`.
unfoldable pub round : (ℕ → Answers) → List (ℕ × ℕ) → MapPoller → Outcome MapPoller
unfolding poll run_active
round answers es s = let (active, s₁) = poll es s in run_active answers active s₁
