-- ===== src/TcpServer/Reading.antt =====
-- `TcpConnection::handleRead` on the bytes that a peer sends.
use net_server_stepby_step.Base.{
  ℕ, suc, ◌+◌, ◌≤◌, ◌≡◌, refl, ◌∙◌, ap, List, ◌∷◌, some, length, Outcome, Returns-done,
}
use net_server_stepby_step.Os.{Os}
use net_server_stepby_step.Buffer.{Buffer, IsValid, max_size, writable_size, read_fd}
use net_server_stepby_step.Buffer.Bounds.{Appended}
use net_server_stepby_step.Buffer.Contents.{Received, read_fd-Received}
use net_server_stepby_step.TcpConnection.{Conn, receive, set_input, set_kernel}
use net_server_stepby_step.TcpServer.{World, set_link, link, handle_read, after_read}

module _ (os : Os)
    (connection_callback message_callback : ℕ → World os.Kernel → Outcome (World os.Kernel))
    (w : World os.Kernel) (p : ℕ) (c : Conn) (e : w.conns p ≡ some c) where
  -- The world with this input buffer, after the read.
  abbrev pub read_into : Buffer → World os.Kernel
  read_into b = set_link w p (
      set_input
        (set_kernel (link w c) (os.readv w.poller.kernel c.channel.fd (writable_size c.input)).1) b)

  delivers :
      (n : ℕ) (w₁ : World os.Kernel)
      → after_read os connection_callback message_callback p (some (suc n)) w₁
        ≡ message_callback p w₁
  unfolding after_read
  delivers n w₁ = refl

  -- When readv(2) gives bytes, `handleRead` appends them to the input buffer, which stays valid,
  -- and then runs the message callback, once, in the world that this makes. (The buffer is valid,
  -- and its `writeIndex_` stays within the largest array.)
  pub handle_read-Delivered :
      (x : ℕ) (xs : List ℕ)
      → IsValid c.input
      → c.input.write_index + length (x ∷ xs) ≤ max_size
      → (os.readv w.poller.kernel c.channel.fd (writable_size c.input)).0 ≡ some (x ∷ xs)
      → (b : Buffer) × Appended c.input (x ∷ xs) b
        × (handle_read os connection_callback message_callback p w
            ≡ message_callback p (read_into b))
  unfolding handle_read receive
  handle_read-Delivered x xs v k r =
      let (t, d, g) =
        Returns-done (Received c.input (x ∷ xs)) (read_fd c.input (some (x ∷ xs)))
          (read_fd-Received c.input (x ∷ xs) v k) in
      let w₁ = read_into t.1 in
      let same : after_read os connection_callback message_callback p t.0 w₁
          ≡ message_callback p w₁ =
        ap (λ n. after_read os connection_callback message_callback p n w₁) g.0
        ∙ delivers (length xs) w₁ in
      (t.1, g.1, rw e (rw r (rw d same)))
