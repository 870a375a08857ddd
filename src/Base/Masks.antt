-- ===== src/Base/Masks.antt =====
-- Event masks of epoll: the bits that the code tests, and facts about the masks below 8 (the
-- bits EPOLLIN, EPOLLPRI and EPOLLOUT), checked value by value.
use Prim.Native.Nat.{ℕ, zero, suc, ◌-◌, ◌^◌, ◌<◌, bit_and, bit_or}
use mathlib.Core.Path.{◌≡◌, refl}
use mathlib.Core.Bool.{Bool, true, false, ◌&&◌, not}
use native.Mathlib.Omega.{arith}
use net_server_stepby_step.Base.Tests.{◌==◌, ltb, if◌then◌else◌}

abbrev pub epollin : ℕ
epollin = 1

abbrev pub epollout : ℕ
epollout = 4

abbrev pub epollhup : ℕ
epollhup = 16

-- `mask & bit`, as a condition.
unfoldable pub has : ℕ → ℕ → Bool
has mask bit = not (bit_and mask bit == 0)

-- `mask |= bit`.
unfoldable pub set_bit : ℕ → ℕ → ℕ
set_bit mask bit = bit_or mask bit

-- `mask &= ~bit`, on the 32 bits of an `int`.
unfoldable pub clear_bit : ℕ → ℕ → ℕ
clear_bit mask bit = bit_and mask (2 ^ 32 - 1 - bit)

-- Whether a test accepts each mask under a limit.
accepts_under : (ℕ → Bool) → ℕ → Bool
accepts_under test zero = true
accepts_under test (suc limit) = if test limit then accepts_under test limit else false

accepted :
    (test : ℕ → Bool) (limit mask : ℕ)
    → mask < limit
    → accepts_under test limit ≡ true
    → test mask ≡ true
unfolding accepts_under
accepted test zero mask small table = absurd (omega arith)
accepted test (suc limit) mask small table = ground (arith, accepted test limit mask)

same : Bool → Bool → Bool
same true b = b
same false b = not b

same-eq : (a b : Bool) → same a b ≡ true → a ≡ b
unfolding same
same-eq a b h = ground arith

-- The four updates keep a mask below 8.
table_small :
    accepts_under
      (λ m.
        ltb (set_bit m epollin) 8
        && (ltb (set_bit m epollout) 8
            && (ltb (clear_bit m epollin) 8 && ltb (clear_bit m epollout) 8)))
      8
    ≡ true
unfolding accepts_under set_bit clear_bit
table_small = refl

pub mask_small :
    (m : ℕ)
    → m < 8
    → (set_bit m epollin < 8)
      × (set_bit m epollout < 8)
      × (clear_bit m epollin < 8)
      × (clear_bit m epollout < 8)
mask_small m h =
    let t = accepted _ 8 m h table_small in (ground arith, ground arith, ground arith, ground arith)

-- A set bit is set, and a cleared bit is clear; the other bit stays.
table_out :
    accepts_under
      (λ m.
        has (set_bit m epollout) epollout
        && (not (has (clear_bit m epollout) epollout)
            && (same (has (set_bit m epollin) epollout) (has m epollout)
                && same (has (clear_bit m epollin) epollout) (has m epollout))))
      8
    ≡ true
unfolding accepts_under set_bit clear_bit has same
table_out = refl

pub has-epollout :
    (m : ℕ)
    → m < 8
    → (has (set_bit m epollout) epollout ≡ true)
      × (has (clear_bit m epollout) epollout ≡ false)
      × (has (set_bit m epollin) epollout ≡ has m epollout)
      × (has (clear_bit m epollin) epollout ≡ has m epollout)
has-epollout m h =
    let t = accepted _ 8 m h table_out in
    (ground arith, ground arith, same-eq _ _ (ground arith), same-eq _ _ (ground arith))

table_in :
    accepts_under
      (λ m.
        has (set_bit m epollin) epollin
        && (not (has (clear_bit m epollin) epollin)
            && (same (has (set_bit m epollout) epollin) (has m epollin)
                && same (has (clear_bit m epollout) epollin) (has m epollin))))
      8
    ≡ true
unfolding accepts_under set_bit clear_bit has same
table_in = refl

pub has-epollin :
    (m : ℕ)
    → m < 8
    → (has (set_bit m epollin) epollin ≡ true)
      × (has (clear_bit m epollin) epollin ≡ false)
      × (has (set_bit m epollout) epollin ≡ has m epollin)
      × (has (clear_bit m epollout) epollin ≡ has m epollin)
has-epollin m h =
    let t = accepted _ 8 m h table_in in
    (ground arith, ground arith, same-eq _ _ (ground arith), same-eq _ _ (ground arith))
