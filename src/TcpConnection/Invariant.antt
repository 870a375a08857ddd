-- ===== src/TcpConnection/Invariant.antt =====
-- The invariant of a connection with its poller, and how the channel's methods keep it.
use net_server_stepby_step.Base.{
  ℕ, ◌<◌, ◌≡◌, ◌≢◌, refl, ◌∙◌, ap, List, ◌++◌, Bool, true, false, not, has, epollout, mask_small,
  has-epollout, ◌==◌, slice, Returns, Returns-bind, arith,
}
use net_server_stepby_step.Os.{Os, OsLaws}
use net_server_stepby_step.Buffer.{Buffer, IsValid, contents, readable_size}
use net_server_stepby_step.Channel.{Channel, is_writing, set_events}
use net_server_stepby_step.Channel.Update.{enabled_writable, disabled_writable, update}
use net_server_stepby_step.Channel.Registration.{Synced, Updated, update-Updated}
use net_server_stepby_step.TcpConnection.{Link, on_channel, outgoing}

-- Bytes wait in the output buffer.
abbrev pub has_output : Buffer → Bool
has_output b = not (readable_size b == 0)

pub outgoing-contents : (b : Buffer) → IsValid b → outgoing b ≡ contents b
outgoing-contents b v = ap (λ n. slice b.read_index n b.bytes) (omega arith)

module _ (os : Os) where
  -- What the peer has been sent, with what still waits to be sent to it.
  abbrev pub pending : Link os.Kernel → List ℕ
  pending l = os.stream l.poller.kernel l.conn.channel.fd ++ contents l.conn.output

  -- What the methods for output leave alone: the name, the descriptor, the input buffer, the events
  -- that epoll returned, and the entries of other descriptors.
  pub record Kept (l l' : Link os.Kernel) : Type 0 where
    pub name : l'.conn.name ≡ l.conn.name
    pub fd : l'.conn.channel.fd ≡ l.conn.channel.fd
    pub input : l'.conn.input ≡ l.conn.input
    pub revents : l'.conn.channel.revents ≡ l.conn.channel.revents
    pub others :
        (j : ℕ)
        → j ≢ l.conn.channel.fd
        → os.interest l'.poller.kernel j ≡ os.interest l.poller.kernel j

  pub Kept-refl : (l : Link os.Kernel) → Kept l l
  Kept-refl l = record {
    name = refl;
    fd = refl;
    input = refl;
    revents = refl;
    others = λ j n. refl;
  }

  pub Kept-trans : (l l' l'' : Link os.Kernel) → Kept l l' → Kept l' l'' → Kept l l''
  Kept-trans l l' l'' f g = record {
    name = g.name ∙ f.name;
    fd = g.fd ∙ f.fd;
    input = g.input ∙ f.input;
    revents = g.revents ∙ f.revents;
    others = λ j n. g.others j (λ e. n (e ∙ f.fd)) ∙ f.others j n;
  }

  -- Status and interest list in step, a usable descriptor and mask, a valid output buffer.
  pub record Sound (l : Link os.Kernel) : Type 0 where
    pub pollable : os.pollable l.conn.channel.fd ≡ true
    pub synced : Synced os l.poller l.conn.channel
    pub mask : l.conn.channel.events < 8
    pub valid : IsValid l.conn.output

  -- Writing is watched for exactly while bytes wait.
  pub record Watched (l : Link os.Kernel) : Type 0 where
    pub sound : Sound l
    pub watching : is_writing l.conn.channel ≡ has_output l.conn.output

  -- What `enabledWritable` and `disabledWritable` do to a connection.
  pub record Rewatched (l : Link os.Kernel) (on : Bool) (l' : Link os.Kernel) : Type 0 where
    pub sound : Sound l'
    pub writing : is_writing l'.conn.channel ≡ on
    pub output : l'.conn.output ≡ l.conn.output
    pub state : l'.conn.state ≡ l.conn.state
    pub same : pending l' ≡ pending l
    pub kept : Kept l l'

module _ (os : Os) (laws : OsLaws os) where
  rewatch :
      (l : Link os.Kernel) (ev : ℕ) (on : Bool)
      → Sound os l
      → ev < 8
      → has ev epollout ≡ on
      → Returns (on_channel os (λ p c. update os p (set_events c ev)) l) (Rewatched os l on)
  unfolding on_channel
  rewatch l ev on s m h =
      Returns-bind (Updated os l.poller (set_events l.conn.channel ev)) _ _ _
        (update-Updated os laws l.poller l.conn.channel ev s.pollable s.synced)
        λ t u. record {
          sound = record {
            pollable = rw u.channel s.pollable;
            synced = u.synced;
            mask = rw u.channel m;
            valid = s.valid;
          };
          writing = rw u.channel h;
          output = refl;
          state = refl;
          kept = record {
            name = refl;
            fd = ap (λ (c : Channel). c.fd) u.channel;
            input = refl;
            revents = ap (λ (c : Channel). c.revents) u.channel;
            others = u.frame.others;
          };
          same =
              ap (λ s. s ++ contents l.conn.output)
                (u.frame.streams t.0.fd
                  ∙ ap (λ (c : Channel). os.stream l.poller.kernel c.fd) u.channel);
        }

  pub enabled_writable-Rewatched :
      (l : Link os.Kernel)
      → Sound os l
      → Returns (on_channel os (enabled_writable os) l) (Rewatched os l true)
  unfolding enabled_writable on_channel
  enabled_writable-Rewatched l s =
      rewatch l _ true s (mask_small _ s.mask).1 (has-epollout _ s.mask).0

  pub disabled_writable-Rewatched :
      (l : Link os.Kernel)
      → Sound os l
      → Returns (on_channel os (disabled_writable os) l) (Rewatched os l false)
  unfolding disabled_writable on_channel
  disabled_writable-Rewatched l s =
      rewatch l _ false s (mask_small _ s.mask).3 (has-epollout _ s.mask).1
