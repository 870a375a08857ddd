-- ===== src/Os.antt =====
-- The calls of the operating system that the library makes, as parameters of the model: epoll, and
-- reads, writes and shutdowns of a socket. `Os` has the operations, with the two things that the
-- manuals speak of (the interest list, and the bytes that a descriptor accepted), and `OsLaws` what
-- the manuals say. epoll_ctl(2): ADD wants a descriptor that is not in the list, MOD and DEL one
-- that is. write(2): a count is at most the length, and that many bytes were taken.
use net_server_stepby_step.Base.{
  ℕ, ◌≤◌, ◌≡◌, List, ◌++◌, Bool, true, Option, none, some, length, take, ◌==◌, if◌then◌else◌,
}

pub data CtlOp : Type 0 where
  ctl_add : CtlOp
  ctl_mod : CtlOp
  ctl_del : CtlOp

pub record Os : Type 1 where
  pub Kernel : Type 0
  -- The mask under which a descriptor stands in the interest list.
  pub interest : Kernel → ℕ → Option ℕ
  -- The bytes that a descriptor has accepted, oldest first.
  pub stream : Kernel → ℕ → List ℕ
  -- Whether epoll accepts the descriptor: open, of a kind that can be polled, within the limits.
  pub pollable : ℕ → Bool
  -- `none` is a negative result.
  pub epoll_ctl : Kernel → CtlOp → ℕ → ℕ → Option Kernel
  pub write : Kernel → ℕ → List ℕ → Option ℕ × Kernel
  -- `readv` with room for so many bytes in the buffer, and 65536 in the second part.
  pub readv : Kernel → ℕ → ℕ → Option (List ℕ) × Kernel
  -- `shutdown(fd, SHUT_WR)`; `false` is a negative result.
  pub shut_wr : Kernel → ℕ → Bool × Kernel

module _ (os : Os) where
  open os use {Kernel, interest, stream, pollable, epoll_ctl, write, readv, shut_wr}

  -- `epoll_ctl` succeeded, and made `r` of the entry of `fd` and nothing of any other.
  abbrev pub Sets : Kernel → ℕ → Option ℕ → Option Kernel → Type 0
  Sets k fd r none = ⊥
  Sets k fd r (some k') =
      ((j : ℕ) → interest k' j ≡ (if j == fd then r else interest k j))
      × ((j : ℕ) → stream k' j ≡ stream k j)

  -- What a write of `xs` with this result did to the accepted bytes.
  abbrev pub Accepts : Kernel → ℕ → List ℕ → Option ℕ → Kernel → Type 0
  Accepts k fd xs none k' = stream k' fd ≡ stream k fd
  Accepts k fd xs (some n) k' = (n ≤ length xs) × (stream k' fd ≡ stream k fd ++ take n xs)

  pub record OsLaws : Type 0 where
    pub add_lem :
        (k : Kernel) (fd ev : ℕ)
        → pollable fd ≡ true
        → interest k fd ≡ none
        → Sets k fd (some ev) (epoll_ctl k ctl_add fd ev)
    pub mod_lem :
        (k : Kernel) (fd ev m : ℕ)
        → interest k fd ≡ some m
        → Sets k fd (some ev) (epoll_ctl k ctl_mod fd ev)
    pub del_lem :
        (k : Kernel) (fd ev m : ℕ)
        → interest k fd ≡ some m
        → Sets k fd none (epoll_ctl k ctl_del fd ev)
    pub add_exists :
        (k : Kernel) (fd ev m : ℕ) → interest k fd ≡ some m → epoll_ctl k ctl_add fd ev ≡ none
    pub mod_absent :
        (k : Kernel) (fd ev : ℕ) → interest k fd ≡ none → epoll_ctl k ctl_mod fd ev ≡ none
    pub del_absent :
        (k : Kernel) (fd ev : ℕ) → interest k fd ≡ none → epoll_ctl k ctl_del fd ev ≡ none
    pub write_accepts :
        (k : Kernel) (fd : ℕ) (xs : List ℕ) → let (r, k') = write k fd xs in Accepts k fd xs r k'
    pub write_interest :
        (k : Kernel) (fd : ℕ) (xs : List ℕ) (j : ℕ) → interest (write k fd xs).1 j ≡ interest k j
    pub readv_interest :
        (k : Kernel) (fd room j : ℕ) → interest (readv k fd room).1 j ≡ interest k j
    pub readv_stream : (k : Kernel) (fd room j : ℕ) → stream (readv k fd room).1 j ≡ stream k j
    pub shut_interest : (k : Kernel) (fd j : ℕ) → interest (shut_wr k fd).1 j ≡ interest k j
    pub shut_stream : (k : Kernel) (fd j : ℕ) → stream (shut_wr k fd).1 j ≡ stream k j
