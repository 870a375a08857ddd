-- ===== src/Tests/Machine.antt =====
-- An operating system that keeps the laws of Os: an interest list, the bytes that each descriptor
-- accepted, how many bytes a write takes (`none` for an error), and what a read delivers.
-- Descriptors from 100 on are sockets without a peer.
use net_server_stepby_step.Base.{
  ℕ, ◌≡◌, refl, ap, List, ◌++◌, true, Option, none, some, length, take, length-take, ltb, ◌==◌,
  ==-self, if◌then◌else◌, arith,
}
use net_server_stepby_step.Os.{Os, OsLaws, Accepts, CtlOp, ctl_add, ctl_mod, ctl_del}

pub record Machine : Type 0 where
  pub entries : ℕ → Option ℕ
  pub accepted : ℕ → List ℕ
  pub quota : Option ℕ
  pub incoming : Option (List ℕ)

abbrev set_entry : Machine → ℕ → Option ℕ → Machine
set_entry m fd r = record m { entries = λ j. if j == fd then r else m.entries j }

abbrev ctl_on : Option ℕ → Machine → CtlOp → ℕ → ℕ → Option Machine
ctl_on none m ctl_add fd ev = some (set_entry m fd (some ev))
ctl_on none m ctl_mod fd ev = none
ctl_on none m ctl_del fd ev = none
ctl_on (some old) m ctl_add fd ev = none
ctl_on (some old) m ctl_mod fd ev = some (set_entry m fd (some ev))
ctl_on (some old) m ctl_del fd ev = some (set_entry m fd none)

abbrev pub write_on : Option ℕ → Machine → ℕ → List ℕ → Option ℕ × Machine
write_on none m fd xs = (none, m)
write_on (some q) m fd xs =
    let n = length (take q xs) in
    (
      some n,
      record m { accepted = λ j. if j == fd then m.accepted j ++ take n xs else m.accepted j },
    )

abbrev pub machine : Os
machine = record {
  Kernel = Machine;
  interest = λ m. m.entries;
  stream = λ m. m.accepted;
  pollable = λ _. true;
  epoll_ctl = λ m op fd ev. ctl_on (m.entries fd) m op fd ev;
  write = λ m fd xs. write_on m.quota m fd xs;
  readv = λ m fd room. (m.incoming, m);
  shut_wr = λ m fd. (ltb fd 100, m);
}

pub write_on_accepts :
    (q : Option ℕ) (m : Machine) (fd : ℕ) (xs : List ℕ)
    → Accepts machine m fd xs (write_on q m fd xs).0 (write_on q m fd xs).1
write_on_accepts none m fd xs = refl
write_on_accepts (some q) m fd xs = (
  omega (arith, length-take q xs),
  ap (λ b. if b then m.accepted fd ++ take (length (take q xs)) xs else m.accepted fd) (==-self fd),
)

pub write_on_entries :
    (q : Option ℕ) (m : Machine) (fd : ℕ) (xs : List ℕ) (j : ℕ)
    → (write_on q m fd xs).1.entries j ≡ m.entries j
write_on_entries none m fd xs j = refl
write_on_entries (some q) m fd xs j = refl

pub machine-OsLaws : OsLaws machine
machine-OsLaws = record {
  add_lem = λ m fd ev u h. rw h (λ j. refl, λ j. refl);
  mod_lem = λ m fd ev o h. rw h (λ j. refl, λ j. refl);
  del_lem = λ m fd ev o h. rw h (λ j. refl, λ j. refl);
  add_exists = λ m fd ev o h. rw h refl;
  mod_absent = λ m fd ev h. rw h refl;
  del_absent = λ m fd ev h. rw h refl;
  write_accepts = λ m fd xs. write_on_accepts m.quota m fd xs;
  write_interest = λ m fd xs j. write_on_entries m.quota m fd xs j;
  readv_interest = λ m fd room j. refl;
  readv_stream = λ m fd room j. refl;
  shut_interest = λ m fd j. refl;
  shut_stream = λ m fd j. refl;
}
