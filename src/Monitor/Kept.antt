-- ===== src/Monitor/Kept.antt =====
-- No line that a producer stores is overwritten or taken twice.
use native.Mathlib.Nat.{mod-lt}
use op_sys.Common.{ℕ, zero, suc, ◌+◌, ◌<◌, ◌≡◌, Bool, List, refl, arith}
use op_sys.Buffer.{empty}
use op_sys.Buffer.Accounted.{number}
use op_sys.Monitor.{
  wake_up, read, end_of_file, enter, see_full, wait, enter_again, claim, lock, allocate, copy,
  announce, unlock, leave, see_empty, stop, go_to_sleep, pick, release, take_line, Producer,
  Consumer, System, Produce, Consume, Step, created, Steps, here, later, produces, consumes, join,
  broadcast,
}
use op_sys.Monitor.Owned.{
  Owns, Held, Produce-Owns, Consume-Owns, Produce-Held, Consume-Held, woken_Held,
}
use op_sys.Monitor.Summed.{filled, worths, Kept, Produce-Kept, Consume-Kept}

record Inv (n : ℕ) (s : System) : Type 0 where
  owns : (b : ℕ) → Owns s.prod_mutex s.cells n b (s.producers b)
  held : (b : ℕ) → Held n (s.consumers b)
  at_prod : s.curr_prod < n
  at_cons : s.curr_cons < n
  kept : (test : List ℕ → Bool) → Kept test n s

Produce-bounds :
    {n a : ℕ} {s t : System} {p : Producer}
    → Produce n s a p t
    → s.curr_prod < n
    → s.curr_cons < n
    → (t.curr_prod < n) × (t.curr_cons < n)
Produce-bounds {n} {s = s} (claim e) h h' = (mod-lt (s.curr_prod + 1) (omega arith), h')
Produce-bounds (read e) h h' = (h, h')
Produce-bounds (end_of_file e) h h' = (h, h')
Produce-bounds (enter e) h h' = (h, h')
Produce-bounds (see_full e) h h' = (h, h')
Produce-bounds wait h h' = (h, h')
Produce-bounds wake_up h h' = (h, h')
Produce-bounds (enter_again e) h h' = (h, h')
Produce-bounds (lock e) h h' = (h, h')
Produce-bounds allocate h h' = (h, h')
Produce-bounds copy h h' = (h, h')
Produce-bounds announce h h' = (h, h')
Produce-bounds unlock h h' = (h, h')
Produce-bounds leave h h' = (h, h')

Consume-bounds :
    {n a : ℕ} {s t : System} {c : Consumer}
    → Consume n s a c t
    → s.curr_prod < n
    → s.curr_cons < n
    → (t.curr_prod < n) × (t.curr_cons < n)
Consume-bounds {n} {s = s} (pick e) h h' = (h, mod-lt (s.curr_cons + 1) (omega arith))
Consume-bounds (enter e) h h' = (h, h')
Consume-bounds (see_empty e) h h' = (h, h')
Consume-bounds (stop e) h h' = (h, h')
Consume-bounds (go_to_sleep e) h h' = (h, h')
Consume-bounds wait h h' = (h, h')
Consume-bounds wake_up h h' = (h, h')
Consume-bounds (enter_again e) h h' = (h, h')
Consume-bounds (lock e) h h' = (h, h')
Consume-bounds release h h' = (h, h')
Consume-bounds take_line h h' = (h, h')
Consume-bounds announce h h' = (h, h')
Consume-bounds unlock h h' = (h, h')

Step-Inv : {n : ℕ} {s t : System} → Step n s t → Inv n s → Inv n t
Step-Inv (produces a m) v =
    let c = Produce-bounds m v.at_prod v.at_cons in
    record {
      owns = λ b. Produce-Owns m (v.owns a) v.at_prod b (v.owns b);
      held = λ b. Produce-Held m b (v.held b);
      at_prod = c.0;
      at_cons = c.1;
      kept = λ test. Produce-Kept test m (v.owns a) (v.kept test);
    }
Step-Inv (consumes a m) v =
    let c = Consume-bounds m v.at_prod v.at_cons in
    record {
      owns = λ b. Consume-Owns m b (v.owns b);
      held = λ b. Consume-Held m (v.held a) v.at_cons b (v.held b);
      at_prod = c.0;
      at_cons = c.1;
      kept = λ test. Consume-Kept test m (v.held a) (v.kept test);
    }
Step-Inv (join e ends) v = record {
  owns = v.owns;
  held = v.held;
  at_prod = v.at_prod;
  at_cons = v.at_cons;
  kept = v.kept;
}
Step-Inv {n} {s} (broadcast e) v = record {
  owns = v.owns;
  held = λ b. woken_Held n (s.consumers b) (v.held b);
  at_prod = v.at_prod;
  at_cons = v.at_cons;
  kept = v.kept;
}

filled-none : (test : List ℕ → Bool) (n : ℕ) → filled test (λ _. empty) n ≡ 0
filled-none test zero = refl
filled-none test (suc n) = omega (arith, filled-none test n)

created-Inv :
    {n : ℕ} (prods cons : ℕ) (file : List (List ℕ)) → 0 < n → Inv n (created prods cons file)
created-Inv {n} prods cons file h = record {
  owns = λ b. ground arith;
  held = λ b. ground arith;
  at_prod = h;
  at_cons = h;
  kept = λ test. omega (arith, filled-none test n);
}

Steps-Inv :
    {n : ℕ} (prods cons : ℕ) (file : List (List ℕ)) {s : System}
    → 0 < n
    → Steps n (created prods cons file) s
    → Inv n s
Steps-Inv prods cons file h here = created-Inv prods cons file h
Steps-Inv prods cons file h (later r st) = Step-Inv st (Steps-Inv prods cons file h r)

-- Whatever the order of the steps, the lines stored that meet a test are as many as those taken and those in
-- the cells together: no line is overwritten, lost from its cell, or taken twice.
pub lines_kept :
    {n : ℕ} (prods cons : ℕ) (file : List (List ℕ)) {s : System} (test : List ℕ → Bool)
    → 0 < n
    → Steps n (created prods cons file) s
    → number test s.stored ≡ worths test s.taken + filled test s.cells n
lines_kept prods cons file test h r = (Steps-Inv prods cons file h r).kept test
