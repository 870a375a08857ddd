-- ===== src/TcpConnection.antt =====
-- v1.7/src/TcpConnection.h, v1.7/src/TcpConnection.cpp: one connection with its two buffers and
-- its channel, on the poller of its loop. A `Link` is a connection with that poller. The handlers
-- that run callbacks of the user and of the server (`handleRead`, `handleClose`,
-- `connectionEstablished`, `connectionDestroy`) are in TcpServer, over all connections; their parts
-- that change this object are here.
pub mod Invariant
pub mod Send
pub mod Write
pub mod Drain
pub mod Shutdown
use net_server_stepby_step.Base.{
  ℕ, zero, suc, List, Bool, true, false, not, ◌&&◌, Option, none, some, length, drop, slice, ltb,
  ◌==◌, if◌then◌else◌, Outcome, done, failed, aborted, assert, ◌>>=◌, ◌>>◌,
}
use net_server_stepby_step.Os.{Os}
use net_server_stepby_step.Acceptor.{SocketAnswers, new_sockets}
use net_server_stepby_step.Buffer.{
  Buffer, init, init_size, readable_size, writable_size, append, retrieve, read_fd,
}
use net_server_stepby_step.Channel.{Channel, new_channel, is_writing}
use net_server_stepby_step.Channel.Update.{
  Registered, enabled_readable, enabled_writable, disabled_all_events, disabled_writable,
}
use net_server_stepby_step.Epoller.{Epoller}

pub data ConnectState : Type 0 where
  connected : ConnectState
  connecting : ConnectState
  disconnected : ConnectState
  disconnecting : ConnectState

abbrev pub is_connected : ConnectState → Bool
is_connected connected = true
is_connected connecting = false
is_connected disconnected = false
is_connected disconnecting = false

abbrev pub is_connecting : ConnectState → Bool
is_connecting connecting = true
is_connecting connected = false
is_connecting disconnected = false
is_connecting disconnecting = false

abbrev pub is_disconnecting : ConnectState → Bool
is_disconnecting disconnecting = true
is_disconnecting connected = false
is_disconnecting connecting = false
is_disconnecting disconnected = false

-- `socket` is the descriptor of `socket_`, which the constructor creates beside the accepted one;
-- addresses are their port numbers.
pub record Conn : Type 0 where
  pub name : List ℕ
  pub socket : ℕ
  pub channel : Channel
  pub local_addr : ℕ
  pub peer_addr : ℕ
  pub state : ConnectState
  pub input : Buffer
  pub output : Buffer

pub record Link (K : Type 0) : Type 0 where
  pub conn : Conn
  pub poller : Epoller K

-- The members of a new connection, whose `socket_` has the descriptor `socket`.
unfoldable pub fresh_conn : List ℕ → ℕ → ℕ → ℕ → ℕ → Conn
unfolding init new_channel
fresh_conn name clientfd socket local_addr peer_addr = record {
  name = name;
  socket = socket;
  channel = new_channel clientfd;
  local_addr = local_addr;
  peer_addr = peer_addr;
  state = connecting;
  input = init init_size;
  output = init init_size;
}

-- The constructor; `new Sockets()` may fail.
unfoldable pub new_conn : List ℕ → ℕ → SocketAnswers → ℕ → ℕ → Outcome Conn
unfolding fresh_conn new_sockets
new_conn name clientfd made local_addr peer_addr = do
  socket ← new_sockets made.0 made.1
  done (fresh_conn name clientfd socket local_addr peer_addr)

abbrev pub set_connect_state : {K : Type 0} → Link K → ConnectState → Link K
set_connect_state l st = record l { conn = record (l.conn) { state = st } }

abbrev pub set_kernel : {K : Type 0} → Link K → K → Link K
set_kernel l k = record l { poller = record (l.poller) { kernel = k } }

abbrev pub set_output : {K : Type 0} → Link K → Buffer → Link K
set_output l b = record l { conn = record (l.conn) { output = b } }

abbrev pub set_input : {K : Type 0} → Link K → Buffer → Link K
set_input l b = record l { conn = record (l.conn) { input = b } }

-- The bytes from `readIndexPtr()` on, `readableSize()` many: what `::write` is given.
abbrev pub outgoing : Buffer → List ℕ
outgoing b = slice b.read_index (readable_size b) b.bytes

module _ (os : Os) where
  -- A method of the channel.
  unfoldable pub on_channel :
      (Epoller os.Kernel → Channel → Registered os) → Link os.Kernel → Outcome (Link os.Kernel)
  on_channel op l = do
    t ← op l.poller l.conn.channel
    done (record { conn = record (l.conn) { channel = t.0 }; poller = t.1 })

  -- `connectionEstablished`, up to the callback.
  unfoldable pub establish : Link os.Kernel → Outcome (Link os.Kernel)
  unfolding on_channel
  establish l = do
    assert (is_connecting l.conn.state)
    on_channel (enabled_readable os) (set_connect_state l connected)

  -- `setConnectState(DISCONNECTED); channel_->diabledAllEvents();`
  unfoldable pub take_down : Link os.Kernel → Outcome (Link os.Kernel)
  unfolding on_channel
  take_down l = on_channel (disabled_all_events os) (set_connect_state l disconnected)

  -- `handleRead`, up to the test of `n`.
  unfoldable pub receive : Link os.Kernel → Outcome (Option ℕ × Link os.Kernel)
  receive l = do
    let (r, k) = os.readv l.poller.kernel l.conn.channel.fd (writable_size l.conn.input)
    t ← read_fd l.conn.input r
    done (t.0, set_input (set_kernel l k) t.1)

  -- `Sockets::shutdownWrite` on `socket_`.
  unfoldable pub shutdown_write : Link os.Kernel → Outcome (Link os.Kernel)
  shutdown_write l =
      let (accepted, k) = os.shut_wr l.poller.kernel l.conn.socket in
      if accepted then done (set_kernel l k) else failed aborted

  unfoldable pub shutdown : Link os.Kernel → Outcome (Link os.Kernel)
  unfolding shutdown_write
  shutdown l =
      if not (is_connected l.conn.state) && not (is_writing l.conn.channel)
      then shutdown_write (set_connect_state l disconnecting)
      else done l

  -- The direct `::write` of `send`: how many bytes it took, where an error counts as none.
  unfoldable pub write_directly : Link os.Kernel → List ℕ → ℕ × Link os.Kernel
  write_directly l message =
      let (r, k) = os.write l.poller.kernel l.conn.channel.fd message in
      (elim r [ some n ↦ n | none ↦ 0 ], set_kernel l k)

  -- What `send` does with the bytes that are left.
  unfoldable pub queue_rest : Link os.Kernel → List ℕ → Outcome (Link os.Kernel)
  unfolding on_channel
  queue_rest l rest = do
    b ← append l.conn.output rest
    let l' = set_output l b
    if not (is_writing l.conn.channel) then on_channel (enabled_writable os) l' else done l'

  -- The second half of `send`, after `nwrote` bytes went out.
  unfoldable pub send_rest : ℕ × Link os.Kernel → List ℕ → Outcome (Link os.Kernel)
  send_rest (nwrote, l) message =
      if ltb nwrote (length message) then queue_rest l (drop nwrote message) else done l

  unfoldable pub send : Link os.Kernel → List ℕ → Outcome (Link os.Kernel)
  send l message = do
    let idle = not (is_writing l.conn.channel) && (readable_size l.conn.output == 0)
    send_rest (if idle then write_directly l message else (0, l)) message

  -- The end of `handleWrite` once nothing is left to write.
  unfoldable pub drained : Link os.Kernel → Outcome (Link os.Kernel)
  unfolding on_channel shutdown
  drained l = do
    l' ← on_channel (disabled_writable os) l
    if is_disconnecting l'.conn.state then shutdown l' else done l'

  -- `handleWrite`, after `::write` took `n > 0` bytes.
  unfoldable pub wrote : Link os.Kernel → ℕ → Outcome (Link os.Kernel)
  unfolding drained
  wrote l n =
      let l' = set_output l (retrieve l.conn.output n) in
      if readable_size l'.conn.output == 0 then drained l' else done l'

  -- The test of `n`: an error, and a write of nothing, abort the program.
  unfoldable pub after_write : Link os.Kernel → Option ℕ → Outcome (Link os.Kernel)
  unfolding wrote
  after_write l none = failed aborted
  after_write l (some zero) = failed aborted
  after_write l (some (suc n)) = wrote l (suc n)

  unfoldable pub handle_write : Link os.Kernel → Outcome (Link os.Kernel)
  unfolding after_write
  handle_write l =
      if is_writing l.conn.channel
      then (let (r, k) = os.write l.poller.kernel l.conn.channel.fd (outgoing l.conn.output) in
          after_write (set_kernel l k) r)
      else done l
