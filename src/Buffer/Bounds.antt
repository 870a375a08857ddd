-- ===== src/Buffer/Bounds.antt =====
-- Buffer.cpp stays inside its array: the invariant, that no operation breaks it, and what each
-- does to the readable bytes.
use net_server_stepby_step.Base.{
  ℕ, ◌+◌, ◌-◌, ◌≤◌, ◌<◌, ◌≡◌, refl, ◌∙◌, ap, List, ◌++◌, inl, inr, arith, Bool-cases, length,
  replicate, slice, splice, length-append, length-replicate, length-splice, length-slice,
  slice-splice_self, slice-splice_end, slice-append, ltb, ltb→lt, ltb→le, le→ltb, le→leb, ==-self,
  lt→leb, add_size, sub_size, done, Returns, Returns-bind, ◌>>=◌,
}
use net_server_stepby_step.Buffer.{
  Buffer, IsValid, prepend, max_size, contents, init, size, writable_size, readable_size, pre_size,
  read_at, write_at, resize, move_down, grow, make_space, ensure_writable_size, has_written, append,
}

pub init-IsValid : (n : ℕ) → prepend ≤ n → n ≤ max_size → IsValid (init n)
unfolding init
init-IsValid n h k = omega (arith, length-replicate {A = ℕ} n 0)

-- Under the invariant no `size_t` difference wraps.
pub sizes_lem :
    {b : Buffer}
    → IsValid b
    → (writable_size b + b.write_index ≡ size b) × (readable_size b + b.read_index ≡ b.write_index)
sizes_lem v = omega arith

pub length-contents : {b : Buffer} → IsValid b → length (contents b) ≡ readable_size b
length-contents {b} v =
    length-slice b.read_index (b.write_index - b.read_index) b.bytes (omega arith) ∙ omega arith

-- What makes room for `n` bytes: the invariant, the room, and the same contents.
pub record HasRoom (b : Buffer) (n : ℕ) (c : Buffer) : Type 0 where
  pub valid : IsValid c
  pub room : n ≤ writable_size c
  pub same : contents c ≡ contents b
  pub write_le : c.write_index ≤ b.write_index

pub read_at_lem : (d : List ℕ) (i n : ℕ) → i + n ≤ length d → read_at d i n ≡ done (slice i n d)
unfolding read_at
read_at_lem d i n h = rw (le→leb _ _ h)

pub write_at_lem :
    (d : List ℕ) (i : ℕ) (xs : List ℕ)
    → i + length xs ≤ length d
    → write_at d i xs ≡ done (splice d i xs)
unfolding write_at
write_at_lem d i xs h = rw (le→leb _ _ h)

resize_lem :
    (d : List ℕ) (n : ℕ)
    → length d < n
    → n ≤ max_size
    → resize d n ≡ done (d ++ replicate (n - length d) 0)
unfolding resize
resize_lem d n h k = rw (le→ltb _ _ k, lt→leb _ _ h)

grow-HasRoom :
    (b : Buffer) (n : ℕ)
    → IsValid b
    → writable_size b < n
    → b.write_index + n ≤ max_size
    → Returns (grow b n) (HasRoom b n)
unfolding grow
grow-HasRoom b n v h k =
    rw (wrap, resize_lem b.bytes (b.write_index + n) (omega arith) k)
      (record {
        valid = omega (arith, longer);
        room = omega (arith, longer);
        same = slice-append b.read_index (b.write_index - b.read_index) b.bytes _ (omega arith);
        write_le = omega arith;
      })
  where
    open b use {bytes, write_index}

    wrap : add_size write_index n ≡ write_index + n
    wrap = omega arith

    longer : length (bytes ++ replicate (write_index + n - length bytes) 0) ≡ write_index + n
    longer = omega (
      arith,
      length-append bytes (replicate (write_index + n - length bytes) 0),
      length-replicate {A = ℕ} (write_index + n - length bytes) 0,
    )

move_down-HasRoom :
    (b : Buffer) (n : ℕ)
    → IsValid b
    → n + prepend ≤ writable_size b + pre_size b
    → Returns (move_down b) (HasRoom b n)
unfolding move_down
move_down-HasRoom b n v h =
    rw (readable, read_at_lem bytes read_index count (omega arith))
      (rw (write_at_lem bytes prepend moved (omega (arith, moved_length))) (
        rw (wrap, ==-self count)
          (record {
            valid = omega (arith, kept);
            room = omega (arith, kept);
            same = start ∙ self;
            write_le = omega arith;
          })))
  where
    open b use {bytes, read_index, write_index}

    count : ℕ
    count = write_index - read_index

    moved : List ℕ
    moved = slice read_index count bytes

    readable : readable_size b ≡ count
    readable = omega arith

    moved_length : length moved ≡ count
    moved_length = length-slice read_index count bytes (omega arith)

    kept : length (splice bytes prepend moved) ≡ length bytes
    kept = length-splice bytes prepend moved

    wrap : sub_size (add_size prepend count) prepend ≡ count
    wrap = omega arith

    start :
        slice prepend (add_size prepend count - prepend) (splice bytes prepend moved)
        ≡ slice prepend (length moved) (splice bytes prepend moved)
    start = ap (λ k. slice prepend k (splice bytes prepend moved)) (omega (arith, moved_length))

    self : slice prepend (length moved) (splice bytes prepend moved) ≡ moved
    self = slice-splice_self prepend bytes moved (omega (arith, moved_length))

make_space-HasRoom :
    (b : Buffer) (n : ℕ)
    → IsValid b
    → writable_size b < n
    → b.write_index + n ≤ max_size
    → Returns (make_space b n) (HasRoom b n)
unfolding make_space
make_space-HasRoom b n v h k =
    elim (Bool-cases (ltb (add_size (writable_size b) (pre_size b)) (add_size n prepend))) [
      | inl short ↦ rw short (grow-HasRoom b n v h k)
      | inr fits ↦ rw fits (move_down-HasRoom b n v (omega (arith, ltb→le _ _ fits)))
    ]

pub ensure_writable_size-HasRoom :
    (b : Buffer) (n : ℕ)
    → IsValid b
    → b.write_index + n ≤ max_size
    → Returns (ensure_writable_size b n) (HasRoom b n)
unfolding ensure_writable_size
ensure_writable_size-HasRoom b n v k = elim (Bool-cases (ltb (writable_size b) n)) [
  | inl short ↦ rw short (make_space-HasRoom b n v (ltb→lt _ _ short) k)
  | inr fits ↦
      rw fits (record { valid = v; room = ltb→le _ _ fits; same = refl; write_le = omega arith })
]

-- What a write of `xs` behind the readable bytes leaves.
pub record Appended (b : Buffer) (xs : List ℕ) (c : Buffer) : Type 0 where
  pub valid : IsValid c
  pub same : contents c ≡ contents b ++ xs
  pub write_le : c.write_index ≤ b.write_index + length xs

-- Bytes written at `writeIndex_`, with `writeIndex_` moved past them, in a buffer that has room.
pub written-Appended :
    (b : Buffer) (xs : List ℕ) (w : ℕ)
    → IsValid b
    → b.write_index + length xs ≤ length b.bytes
    → w ≡ b.write_index + length xs
    → Appended b xs (record b { bytes = splice b.bytes b.write_index xs; write_index = w })
written-Appended b xs w v h e = record {
  valid = omega (arith, length-splice b.bytes b.write_index xs);
  same =
      slice-splice_end b.read_index (b.write_index - b.read_index) (w - b.read_index) b.write_index
        b.bytes xs (omega arith) (omega arith) h;
  write_le = omega arith;
}

pub append-Appended :
    (b : Buffer) (xs : List ℕ)
    → IsValid b
    → b.write_index + length xs ≤ max_size
    → Returns (append b xs) (Appended b xs)
unfolding append has_written
append-Appended b xs v k =
    Returns-bind (HasRoom b (length xs)) _ (ensure_writable_size b (length xs)) _
      (ensure_writable_size-HasRoom b (length xs) v k) finish
  where
    finish :
        (c : Buffer)
        → HasRoom b (length xs) c
        → Returns
            (write_at c.bytes c.write_index xs >>= λ d.
              has_written (record c { bytes = d }) (length xs))
            (Appended b xs)
    finish c h =
        let room : length xs ≤ sub_size (length (splice c.bytes c.write_index xs)) c.write_index =
          omega (
            arith,
            length-splice c.bytes c.write_index xs,
            h.room,
            h.valid.in_bounds,
            h.valid.small,
          ) in
        let w =
          written-Appended c xs (add_size c.write_index (length xs)) h.valid
            (omega (arith, h.room, h.valid.in_bounds, h.valid.small))
            (omega (arith, h.room, h.valid.in_bounds, h.valid.small)) in
        rw
          (write_at_lem c.bytes c.write_index xs
            (omega (arith, h.room, h.valid.in_bounds, h.valid.small)))
          (rw (le→leb _ _ room) (record {
            valid = w.valid;
            same = w.same ∙ ap (λ t. t ++ xs) h.same;
            write_le = omega (arith, h.write_le, w.write_le);
          }))
