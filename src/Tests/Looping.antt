-- ===== src/Tests/Looping.antt =====
-- A loop of v1.3 and one of v1.7 with one channel, whose read callback calls `quit`.
use net_server_stepby_step.Base.{
  arith, ℕ, ◌+◌, refl, List, [], ◌∷◌, false, Option, none, some, ◌==◌, if◌then◌else◌, done,
}
use net_server_stepby_step.Channel.{added}
use net_server_stepby_step.Channel as Now
use net_server_stepby_step.Channel.Dispatch.{Callbacks}
use net_server_stepby_step.EventLoop as NowLoop
use net_server_stepby_step.Earlier.Looping.{Reactor, quit, loop}
use net_server_stepby_step.Earlier.Looping.Agreement.{Same, forget_option}
use net_server_stepby_step.Earlier.Looping.Dispatch.{SameCallbacks}
use net_server_stepby_step.Earlier.Looping.Running.{BothRun, loop-Same}

-- epoll_wait(2) gives EPOLLIN for the channel at address 9; the kernel counts the calls.
abbrev wait : ℕ → ℕ → Option (List (ℕ × ℕ)) × ℕ
wait room calls = (some ((9, 1) ∷ []), calls + 1)

abbrev now_channels : ℕ → Option Now.Channel
now_channels p =
    if p == 9 then some (record { fd = 5; events = 1; revents = 0; status = added }) else none

abbrev now : NowLoop.Reactor ℕ
now = record {
  poller = record { kernel = 0; capacity = 128 };
  channels = now_channels;
  active_channels = [];
  is_looping = false;
  is_quitting = false;
}

abbrev reactor : Reactor ℕ
reactor = record {
  kernel = 0;
  channels = λ p. forget_option (now_channels p);
  active_channels = [];
  is_looping = false;
  is_quitting = false;
}

abbrev quits : ℕ → Callbacks (Reactor ℕ)
quits p = record { close_event = none; read_event = some (λ r. done (quit r)); write_event = none }

abbrev now_quits : ℕ → Callbacks (NowLoop.Reactor ℕ)
now_quits p = record {
  close_event = none;
  read_event = some (λ r. done (NowLoop.quit r));
  write_event = none;
}

quits-SameCallbacks : (p : ℕ) → SameCallbacks (quits p) (now_quits p)
unfolding quit NowLoop.quit
quits-SameCallbacks p = record {
  close = tt;
  read = λ r s e. record {
    kernel = e.kernel;
    channels = e.channels;
    active = e.active;
    looping = e.looping;
    quitting = refl;
    room = e.room;
  };
  write = tt;
}

loop-Same_example : BothRun Same (loop wait quits 2 reactor) (NowLoop.loop wait now_quits 2 now)
loop-Same_example =
    loop-Same wait quits now_quits quits-SameCallbacks (λ n k h. refl) 2 reactor now
      (record {
        kernel = refl;
        channels = λ p. refl;
        active = refl;
        looping = refl;
        quitting = refl;
        room = omega arith;
      })
