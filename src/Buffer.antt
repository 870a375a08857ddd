-- ===== src/Buffer.antt =====
-- v1.7/src/Buffer.h, v1.7/src/Buffer.cpp (and the same files of v1.5 and v1.6).
-- `data_` is the list `bytes`; an access of it out of range is the fault `out_of_range`.
-- Indices are `size_t`: sums and differences wrap at 2 ^ 64, as written.
pub mod Bounds
pub mod Contents
pub mod Queue
use net_server_stepby_step.Base.{
  ℕ, ◌+◌, ◌-◌, ◌^◌, ◌≤◌, List, ◌++◌, Bool, Option, none, some, length, take, drop, replicate, slice,
  splice, ltb, leb, ◌==◌, if◌then◌else◌, add_size, sub_size, Outcome, done, failed, length_error,
  out_of_range, assert, ◌>>=◌, ◌>>◌,
}

pub record Buffer : Type 0 where
  pub bytes : List ℕ
  pub read_index : ℕ
  pub write_index : ℕ

abbrev pub prepend : ℕ
prepend = 8

abbrev pub init_size : ℕ
init_size = 1024

-- `std::vector<char>::max_size`, above which `resize` throws `std::length_error`.
abbrev pub max_size : ℕ
max_size = 2 ^ 63 - 1

-- The constructor: `data_(initSize)` holds zeros.
unfoldable pub init : ℕ → Buffer
init n = record { bytes = replicate n 0; read_index = prepend; write_index = prepend }

abbrev pub size : Buffer → ℕ
size b = length b.bytes

abbrev pub writable_size : Buffer → ℕ
writable_size b = sub_size (size b) b.write_index

abbrev pub readable_size : Buffer → ℕ
readable_size b = sub_size b.write_index b.read_index

abbrev pub pre_size : Buffer → ℕ
pre_size b = b.read_index

-- `std::copy(first, last, p)` out of and into the array; the range must lie inside it.
pub read_at : List ℕ → ℕ → ℕ → Outcome (List ℕ)
read_at d i n = if leb (i + n) (length d) then done (slice i n d) else failed out_of_range

pub write_at : List ℕ → ℕ → List ℕ → Outcome (List ℕ)
write_at d i xs =
    if leb (i + length xs) (length d) then done (splice d i xs) else failed out_of_range

-- `std::vector<char>::resize`.
resize : List ℕ → ℕ → Outcome (List ℕ)
resize d n =
    if ltb max_size n
    then failed length_error
    else if leb n (length d)
    then done (take n d)
    else done (d ++ replicate (n - length d) 0)

-- The second branch of `makeSpace`: the readable bytes move down to `Prepend`.
move_down : Buffer → Outcome Buffer
move_down b = do
  let readable = readable_size b
  moved ← read_at b.bytes b.read_index readable
  d ← write_at b.bytes prepend moved
  let b' : Buffer = record {
    bytes = d;
    read_index = prepend;
    write_index = add_size prepend readable;
  }
  assert (readable == readable_size b')
  done b'

grow : Buffer → ℕ → Outcome Buffer
grow b len = do d ← resize b.bytes (add_size b.write_index len); done (record b { bytes = d })

unfoldable pub make_space : Buffer → ℕ → Outcome Buffer
unfolding grow move_down resize read_at write_at
make_space b len =
    if ltb (add_size (writable_size b) (pre_size b)) (add_size len prepend)
    then grow b len
    else move_down b

unfoldable pub ensure_writable_size : Buffer → ℕ → Outcome Buffer
ensure_writable_size b len = if ltb (writable_size b) len then make_space b len else done b

unfoldable pub has_written : Buffer → ℕ → Outcome Buffer
has_written b len = do
  assert (leb len (writable_size b))
  done (record b { write_index = add_size b.write_index len })

unfoldable pub append : Buffer → List ℕ → Outcome Buffer
unfolding write_at
append b xs = do
  b' ← ensure_writable_size b (length xs)
  d ← write_at b'.bytes b'.write_index xs
  has_written (record b' { bytes = d }) (length xs)

unfoldable pub retrieve_all : Buffer → Buffer
retrieve_all b = record b { read_index = prepend; write_index = prepend }

unfoldable pub retrieve : Buffer → ℕ → Buffer
unfolding retrieve_all
retrieve b len =
    if ltb len (readable_size b)
    then record b { read_index = add_size b.read_index len }
    else retrieve_all b

-- `retrieveAsString(size_t len)`.
unfoldable pub retrieve_as_string_len : Buffer → ℕ → Outcome (List ℕ × Buffer)
unfolding read_at
retrieve_as_string_len b len = do
  assert (leb len (readable_size b))
  result ← read_at b.bytes b.read_index len
  done (result, retrieve b len)

-- `retrieveAsString()`.
unfoldable pub retrieve_as_string : Buffer → Outcome (List ℕ × Buffer)
unfolding retrieve_as_string_len
retrieve_as_string b = retrieve_as_string_len b (readable_size b)

-- `readFd`. The argument is what `readv` did with the two parts `[writeIndex_, size())` and
-- `extrabuf`: `none` if it returned a negative number, else the bytes that it delivered, which
-- fill the first part before the second. The result is what `readFd` returns, `none` for -1.
unfoldable pub read_fd : Buffer → Option (List ℕ) → Outcome (Option ℕ × Buffer)
unfolding write_at
read_fd b none = done (none, b)
read_fd b (some xs) = do
  let writable = writable_size b
  d ← write_at b.bytes b.write_index (take writable xs)
  b' ←
      if leb (length xs) writable
      then done (record b { bytes = d; write_index = add_size b.write_index (length xs) })
      else append (record b { bytes = d; write_index = length d }) (drop writable xs)
  done (some (length xs), b')

-- The bytes that a reader will get, oldest first.
abbrev pub contents : Buffer → List ℕ
contents b = slice b.read_index (b.write_index - b.read_index) b.bytes

-- The representation invariant.
pub record IsValid (b : Buffer) : Type 0 where
  pub reserved : prepend ≤ b.read_index
  pub ordered : b.read_index ≤ b.write_index
  pub in_bounds : b.write_index ≤ length b.bytes
  pub small : length b.bytes ≤ max_size
