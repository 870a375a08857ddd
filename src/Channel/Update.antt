-- ===== src/Channel/Update.antt =====
-- The methods of Channel.h that change the events and pass the channel on: `update()` calls
-- `EventLoop::updateChannel`, which calls `Epoller::updateChannel`; `remove()` likewise.
use net_server_stepby_step.Base.{Outcome, assert, ◌>>◌, epollin, epollout, set_bit, clear_bit}
use net_server_stepby_step.Os.{Os}
use net_server_stepby_step.Channel.{Channel, no_event, set_events, is_none_event}
use net_server_stepby_step.Epoller.{Epoller, update_channel, remove_channel}

module _ (os : Os) where
  abbrev pub Registered : Type 0
  Registered = Outcome (Channel × Epoller os.Kernel)

  unfoldable pub loop_update_channel : Epoller os.Kernel → Channel → Registered
  loop_update_channel p c = update_channel os p c

  unfoldable pub loop_remove_channel : Epoller os.Kernel → Channel → Registered
  loop_remove_channel p c = remove_channel os p c

  unfoldable pub update : Epoller os.Kernel → Channel → Registered
  unfolding loop_update_channel
  update p c = loop_update_channel p c

  unfoldable pub enabled_readable : Epoller os.Kernel → Channel → Registered
  enabled_readable p c = update p (set_events c (set_bit c.events epollin))

  unfoldable pub enabled_writable : Epoller os.Kernel → Channel → Registered
  enabled_writable p c = update p (set_events c (set_bit c.events epollout))

  unfoldable pub disabled_all_events : Epoller os.Kernel → Channel → Registered
  disabled_all_events p c = update p (set_events c no_event)

  unfoldable pub disabled_readable : Epoller os.Kernel → Channel → Registered
  disabled_readable p c = update p (set_events c (clear_bit c.events epollin))

  unfoldable pub disabled_writable : Epoller os.Kernel → Channel → Registered
  disabled_writable p c = update p (set_events c (clear_bit c.events epollout))

  unfoldable pub remove : Epoller os.Kernel → Channel → Registered
  unfolding loop_remove_channel
  remove p c = do assert (is_none_event c); loop_remove_channel p c
