-- ===== src/Channel/Dispatch.antt =====
-- `Channel::handleEvents` of v1.7/src/Channel.cpp. The callbacks belong to the owner of the channel
-- and change a state `S`, in which the channel may be gone when one of them returns: each test of
-- `revents_` reads the channel again.
use net_server_stepby_step.Base.{
  if◌then◌else◌, ℕ, Option, none, some, Outcome, done, deref, ◌>>=◌, has, epollin, epollout,
  epollhup,
}
use net_server_stepby_step.Channel.{Channel}

-- The three callbacks of a channel, each of which may be unset.
pub record Callbacks (S : Type 0) : Type 0 where
  pub close_event : Option (S → Outcome S)
  pub read_event : Option (S → Outcome S)
  pub write_event : Option (S → Outcome S)

module _ {S : Type 0} (channel : S → Option Channel) (cb : Callbacks S) where
  -- One test of `revents_` with the call under it.
  unfoldable pub run_if : ℕ → Option (S → Outcome S) → S → Outcome S
  run_if bit none s = do c ← deref (channel s); done s
  run_if bit (some f) s = do c ← deref (channel s); if has c.revents bit then f s else done s

  unfoldable pub handle_events : S → Outcome S
  unfolding run_if
  handle_events s = do
    s₁ ← run_if epollhup cb.close_event s
    s₂ ← run_if epollin cb.read_event s₁
    run_if epollout cb.write_event s₂
