-- ===== src/Buffer/Contents.antt =====
-- What the consuming operations of Buffer.cpp, and `readFd`, do to the readable bytes.
use net_server_stepby_step.Base.{
  ℕ, ◌+◌, ◌-◌, ◌≤◌, ◌<◌, ◌≡◌, refl, ◌∙◌, sym, ap, List, [], ◌++◌, inl, inr, arith, Bool-cases,
  Option, some, length, take, drop, splice, leb, length-splice, length-take, length-drop,
  drop-slice, take-slice, take_all, drop_all, take-append-drop, ltb, ltb→lt, ltb→le, append_assoc,
  le→leb, leb→le, leb→lt, add_size, Returns, Returns-bind, Returns-mono,
}
use net_server_stepby_step.Buffer.{
  Buffer, IsValid, max_size, contents, writable_size, readable_size, append, retrieve,
  retrieve_as_string_len, retrieve_as_string, read_fd,
}
use net_server_stepby_step.Buffer.Bounds.{
  length-contents, read_at_lem, write_at_lem, Appended, written-Appended, append-Appended,
}

-- A retrieval takes the oldest `n` bytes off.
pub record Retrieved (b : Buffer) (n : ℕ) (c : Buffer) : Type 0 where
  pub valid : IsValid c
  pub same : contents c ≡ drop n (contents b)
  pub write_le : c.write_index ≤ b.write_index

pub retrieve-Retrieved : (b : Buffer) (n : ℕ) → IsValid b → Retrieved b n (retrieve b n)
unfolding retrieve
retrieve-Retrieved b n v = elim (Bool-cases (ltb n (readable_size b))) [
  | inl part ↦ rw part (record {
    valid = omega (arith, ltb→lt _ _ part);
    same = sym (
        drop-slice b.read_index (b.write_index - b.read_index) n (add_size b.read_index n) _ b.bytes
          (omega (arith, ltb→lt _ _ part)) (omega (arith, ltb→lt _ _ part)));
    write_le = omega arith;
  })
  | inr whole ↦ rw whole (record {
    valid = omega arith;
    same = sym (drop_all n (contents b) (omega (arith, length-contents v, ltb→le _ _ whole)));
    write_le = omega arith;
  })
]

-- A retrieval as a string returns those bytes too.
abbrev pub Taken : Buffer → ℕ → List ℕ × Buffer → Type 0
Taken b n (s, c) = (s ≡ take n (contents b)) × Retrieved b n c

pub retrieve_as_string_len-Taken :
    (b : Buffer) (n : ℕ)
    → IsValid b
    → n ≤ length (contents b)
    → Returns (retrieve_as_string_len b n) (Taken b n)
unfolding retrieve_as_string_len
retrieve_as_string_len-Taken b n v h =
    rw (le→leb n (readable_size b) (omega (arith, length-contents v))) (
      rw (read_at_lem b.bytes b.read_index n (omega (arith, length-contents v))) (
        sym (
            take-slice b.read_index (b.write_index - b.read_index) n b.bytes
              (omega (arith, length-contents v))),
        retrieve-Retrieved b n v,
      ))

pub retrieve_as_string-Taken :
    (b : Buffer)
    → IsValid b
    → Returns (retrieve_as_string b) (λ t.
      (t.0 ≡ contents b) × IsValid t.1 × (contents t.1 ≡ []) × (t.1.write_index ≤ b.write_index))
unfolding retrieve_as_string
retrieve_as_string-Taken b v =
    let n = readable_size b in
    Returns-mono (Taken b n) _ (retrieve_as_string_len b n)
      (retrieve_as_string_len-Taken b n v (omega (arith, length-contents v)))
      (λ t h. (
        h.0 ∙ take_all n (contents b) (omega (arith, length-contents v)),
        h.1.valid,
        h.1.same ∙ drop_all n (contents b) (omega (arith, length-contents v)),
        h.1.write_le,
      ))

-- `readFd` appends what `readv` delivered, in the order of the two parts, on both branches.
abbrev pub Received : Buffer → List ℕ → Option ℕ × Buffer → Type 0
Received b xs (n, c) = (n ≡ some (length xs)) × Appended b xs c

module _ (b : Buffer) (xs : List ℕ) (v : IsValid b) (k : b.write_index + length xs ≤ max_size) where
  open b use {bytes, write_index}

  -- The array filled up to its end by the first part.
  abbrev filled : Buffer
  filled = record b {
    bytes = splice bytes write_index (take (writable_size b) xs);
    write_index = length (splice bytes write_index (take (writable_size b) xs));
  }

  first_length : writable_size b ≤ length xs → length (take (writable_size b) xs) ≡ writable_size b
  first_length h = omega (arith, length-take (writable_size b) xs)

  filled-Appended : writable_size b ≤ length xs → Appended b (take (writable_size b) xs) filled
  filled-Appended h =
      written-Appended b (take (writable_size b) xs) _ v (omega (arith, first_length h))
        (omega (arith, first_length h, length-splice bytes write_index (take (writable_size b) xs)))

  overflow-Appended :
      writable_size b < length xs
      → Returns (append filled (drop (writable_size b) xs)) (Appended b xs)
  overflow-Appended h =
      let f = filled-Appended (omega arith) in
      Returns-mono (Appended filled (drop (writable_size b) xs)) _ _
        (append-Appended filled (drop (writable_size b) xs) f.valid
          (omega (arith, length-drop (writable_size b) xs, f.write_le, first_length (omega arith))))
        (λ c a. record {
          valid = a.valid;
          same =
              a.same
              ∙ ap (λ t. t ++ drop (writable_size b) xs) f.same
              ∙ append_assoc (contents b) (take (writable_size b) xs) (drop (writable_size b) xs)
              ∙ ap (λ t. contents b ++ t) (take-append-drop (writable_size b) xs);
          write_le = omega (
            arith,
            a.write_le,
            f.write_le,
            length-drop (writable_size b) xs,
            first_length (omega arith),
          );
        })

  -- On a valid buffer, where `writeIndex_` stays within the largest array, `readFd` returns the
  -- count of the bytes that `readv` delivered, and appends them to the readable bytes in the order
  -- of the two parts, whether or not they fit into the array.
  pub read_fd-Received : Returns (read_fd b (some xs)) (Received b xs)
  unfolding read_fd
  read_fd-Received = elim (Bool-cases (leb (length xs) (writable_size b))) [
    | inl fits ↦
        let h = leb→le _ _ fits in
        let whole = take_all (writable_size b) xs h in
        rw
          (write_at_lem bytes write_index (take (writable_size b) xs)
            (omega (arith, ap length whole)))
          (rw (fits, whole) (refl, written-Appended b xs _ v (omega arith) (omega arith)))
    | inr over ↦
        let h = leb→lt _ _ over in
        rw
          (write_at_lem bytes write_index (take (writable_size b) xs)
            (omega (arith, first_length (omega arith))))
          (rw over (Returns-bind (Appended b xs) _ _ _ (overflow-Appended h) (λ c a. (refl, a))))
  ]
