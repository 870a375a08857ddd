-- ===== src/Buffer/Queue.antt =====
-- A buffer as a client sees it: a queue of bytes. Any sequence of calls on a valid buffer gives
-- what the queue gives.
use mathlib.Core.Path.{ap₂}
use net_server_stepby_step.Base.{
  ℕ, ◌+◌, ◌≤◌, ◌≡◌, refl, ◌∙◌, ap, List, [], ◌∷◌, ◌++◌, arith, Option, none, some, length, take,
  drop, done, Outcome, Returns, Returns-bind, Returns-mono, ◌>>=◌,
}
use net_server_stepby_step.Buffer.{
  Buffer, IsValid, max_size, contents, append, retrieve, retrieve_all, retrieve_as_string_len,
  retrieve_as_string, read_fd,
}
use net_server_stepby_step.Buffer.Bounds.{Appended, append-Appended}
use net_server_stepby_step.Buffer.Contents.{
  retrieve-Retrieved, Taken, retrieve_as_string_len-Taken, retrieve_as_string-Taken, Received,
  read_fd-Received,
}

-- The calls of a client, with the data that they bring in.
pub data Call : Type 0 where
  appends : List ℕ → Call
  retrieves : ℕ → Call
  retrieves_all : Call
  takes : ℕ → Call
  takes_all : Call
  reads : Option (List ℕ) → Call

-- What a call hands back (the string, or nothing), and the buffer after it.
pub step : Buffer → Call → Outcome (List ℕ × Buffer)
step b (appends xs) = do c ← append b xs; done ([], c)
step b (retrieves n) = done ([], retrieve b n)
step b retrieves_all = done ([], retrieve_all b)
step b (takes n) = retrieve_as_string_len b n
step b takes_all = retrieve_as_string b
step b (reads r) = do t ← read_fd b r; done ([], t.1)

-- The same calls on a queue of bytes.
abbrev pub queue_step : List ℕ → Call → List ℕ × List ℕ
queue_step q (appends xs) = ([], q ++ xs)
queue_step q (retrieves n) = ([], drop n q)
queue_step q retrieves_all = ([], [])
queue_step q (takes n) = (take n q, drop n q)
queue_step q takes_all = (q, [])
queue_step q (reads none) = ([], q)
queue_step q (reads (some xs)) = ([], q ++ xs)

-- `retrieveAsString(len)` asserts that `len` bytes are there.
abbrev pub Allowed : List ℕ → Call → Type 0
Allowed q (takes n) = n ≤ length q
Allowed q _ = Unit {0}

-- How many bytes a call brings in.
abbrev pub volume : Call → ℕ
volume (appends xs) = length xs
volume (reads (some xs)) = length xs
volume _ = 0

-- A step matches the queue's.
pub record Matches (b : Buffer) (c : Call) (t : List ℕ × Buffer) : Type 0 where
  pub output : t.0 ≡ (queue_step (contents b) c).0
  pub rest : contents t.1 ≡ (queue_step (contents b) c).1
  pub valid : IsValid t.1
  pub write_le : t.1.write_index ≤ b.write_index + volume c

append_step :
    (b : Buffer) (xs : List ℕ) (c : Buffer) → Appended b xs c → Matches b (appends xs) ([], c)
append_step b xs c a = record {
  output = refl;
  rest = a.same;
  valid = a.valid;
  write_le = a.write_le;
}

pub step-Matches :
    (b : Buffer) (c : Call)
    → IsValid b
    → Allowed (contents b) c
    → b.write_index + volume c ≤ max_size
    → Returns (step b c) (Matches b c)
unfolding step
step-Matches b (appends xs) v a k =
    Returns-bind (Appended b xs) _ (append b xs) _ (append-Appended b xs v k) (append_step b xs)
step-Matches b (retrieves n) v a k =
    let r = retrieve-Retrieved b n v in
    record { output = refl; rest = r.same; valid = r.valid; write_le = omega (arith, r.write_le) }
step-Matches b retrieves_all v a k =
    unfold retrieve_all in
    record { output = refl; rest = refl; valid = omega arith; write_le = omega arith }
step-Matches b (takes n) v a k =
    Returns-mono (Taken b n) _ _ (retrieve_as_string_len-Taken b n v a) (λ t h. record {
      output = h.0;
      rest = h.1.same;
      valid = h.1.valid;
      write_le = omega (arith, h.1.write_le);
    })
step-Matches b takes_all v a k =
    Returns-mono _ (Matches b takes_all) _ (retrieve_as_string-Taken b v)
      (λ t h. record { output = h.0; rest = h.2; valid = h.1; write_le = omega (arith, h.3) })
step-Matches b (reads none) v a k =
    unfold read_fd in record { output = refl; rest = refl; valid = v; write_le = omega arith }
step-Matches b (reads (some xs)) v a k =
    Returns-bind (Received b xs) _ (read_fd b (some xs)) _ (read_fd-Received b xs v k)
      (λ t h. record { output = refl; rest = h.1.same; valid = h.1.valid; write_le = h.1.write_le })

-- A sequence of calls, with what each hands back.
pub run : Buffer → List Call → Outcome (List (List ℕ) × Buffer)
run b [] = done ([], b)
run b (c ∷ cs) = do t ← step b c; u ← run t.1 cs; done (t.0 ∷ u.0, u.1)

abbrev pub queue_run : List ℕ → List Call → List (List ℕ) × List ℕ
queue_run q [] = ([], q)
queue_run q (c ∷ cs) = let t = queue_step q c in let u = queue_run t.1 cs in (t.0 ∷ u.0, u.1)

abbrev pub AllAllowed : List ℕ → List Call → Type 0
AllAllowed q [] = Unit {0}
AllAllowed q (c ∷ cs) = Allowed q c × AllAllowed (queue_step q c).1 cs

abbrev pub total : List Call → ℕ
total [] = 0
total (c ∷ cs) = volume c + total cs

abbrev pub Agrees : List (List ℕ) × List ℕ → List (List ℕ) × Buffer → Type 0
Agrees (outs, q) (outs', b) = (outs' ≡ outs) × (contents b ≡ q) × IsValid b

-- On a valid buffer a sequence of calls returns, hands back what a queue of the readable bytes
-- hands back, leaves its bytes readable and the buffer valid, provided that each sized
-- `retrieveAsString` asks for no more bytes than are there and that the bytes brought in do not
-- take `writeIndex_` past the largest array.
pub run-queue_run :
    (b : Buffer) (cs : List Call)
    → IsValid b
    → AllAllowed (contents b) cs
    → b.write_index + total cs ≤ max_size
    → Returns (run b cs) (Agrees (queue_run (contents b) cs))
unfolding run
run-queue_run b [] v a k = (refl, refl, v)
run-queue_run b (c ∷ cs) v a k =
    Returns-bind (Matches b c) _ (step b c) _ (step-Matches b c v a.0 (omega arith)) λ t m.
      Returns-bind (Agrees (queue_run (contents t.1) cs)) _ (run t.1 cs) _
        (run-queue_run t.1 cs m.valid (rw m.rest a.1) (omega (arith, m.write_le)))
        λ u g. (
          ap (λ o. t.0 ∷ o) g.0 ∙ ap₂ (λ o q. o ∷ (queue_run q cs).0) m.output m.rest,
          g.1 ∙ ap (λ q. (queue_run q cs).1) m.rest,
          g.2,
        )
