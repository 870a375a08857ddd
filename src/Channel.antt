-- ===== src/Channel.antt =====
-- v1.7/src/Channel.h, v1.7/src/Channel.cpp: a descriptor with the events it waits for, those that
-- epoll returned, and its status in the poller. `update()` and `remove()`, which go through the
-- event loop to the poller, are in Channel/Update, and `handleEvents` is in Channel/Dispatch.
pub mod Dispatch
pub mod Update
pub mod Registration
pub mod Changes
use net_server_stepby_step.Base.{ℕ, Bool, ◌==◌, has, epollout}

-- `Epoller::NEW`, `ADDED` and `DEL`, the values that `status_` takes (-1, 1 and 2).
pub data Status : Type 0 where
  fresh : Status
  added : Status
  deleted : Status

pub record Channel : Type 0 where
  pub fd : ℕ
  pub events : ℕ
  pub revents : ℕ
  pub status : Status

abbrev pub no_event : ℕ
no_event = 0

unfoldable pub new_channel : ℕ → Channel
new_channel fd = record { fd = fd; events = 0; revents = 0; status = fresh }

abbrev pub set_return_events : Channel → ℕ → Channel
set_return_events c revents = record c { revents = revents }

abbrev pub set_events : Channel → ℕ → Channel
set_events c events = record c { events = events }

abbrev pub set_status : Channel → Status → Channel
set_status c st = record c { status = st }

abbrev pub is_none_event : Channel → Bool
is_none_event c = c.events == no_event

abbrev pub is_writing : Channel → Bool
is_writing c = has c.events epollout
