-- ===== src/Monitor/Owned.antt =====
-- What a producer knows between the lock and the unlock of `prod_mutex`, and the index of a consumer.
use op_sys.Common.{ℕ, ◌<◌, ◌≡◌, Option, some, arith}
use op_sys.Buffer.{Cell, full}
use op_sys.Monitor.{
  wake_up, testing, sleeping, claimed, locked, copying, copied, announced, leaving, read,
  end_of_file, enter, see_full, wait, enter_again, claim, lock, allocate, copy, announce, unlock,
  leave, picked, holding, see_empty, stop, go_to_sleep, pick, release, take_line, Producer,
  Consumer, System, wake_consumer, Produce, Consume,
}

-- A cell without a line in it.
abbrev pub Blank : Cell → Type 0
Blank (full l) = ⊥
Blank _ = Unit

-- A producer between the lock and the unlock of `prod_mutex` is its owner, and the cell that it has
-- claimed is blank until `strcpy`.
abbrev pub Owns : Option ℕ → (ℕ → Cell) → ℕ → ℕ → Producer → Type 0
Owns o cells n a (testing l) = o ≡ some a
Owns o cells n a (sleeping l) = o ≡ some a
Owns o cells n a (claimed i l) = (o ≡ some a) × (i < n) × Blank (cells i)
Owns o cells n a (locked i l) = (o ≡ some a) × (i < n) × Blank (cells i)
Owns o cells n a (copying i l) = (o ≡ some a) × (i < n) × Blank (cells i)
Owns o cells n a (copied i) = o ≡ some a
Owns o cells n a (announced i) = o ≡ some a
Owns o cells n a leaving = o ≡ some a
Owns o cells n a _ = Unit

-- What a producer's own step makes of the others' facts.
pub Produce-Owns :
    {n a : ℕ} {s t : System} {p : Producer}
    → Produce n s a p t
    → Owns s.prod_mutex s.cells n a p
    → s.curr_prod < n
    → (b : ℕ) → Owns s.prod_mutex s.cells n b (s.producers b)
    → Owns t.prod_mutex t.cells n b (t.producers b)
Produce-Owns (read e) h c b i = ground (arith, h, i)
Produce-Owns (end_of_file e) h c b i = ground (arith, h, i)
Produce-Owns (enter e) h c b i = ground (arith, h, i)
Produce-Owns (see_full e) h c b i = ground (arith, h, i)
Produce-Owns wait h c b i = ground (arith, h, i)
Produce-Owns wake_up h c b i = ground (arith, h, i)
Produce-Owns (enter_again e) h c b i = ground (arith, h, i)
Produce-Owns (claim e) h c b i = ground (arith, h, i)
Produce-Owns (lock e) h c b i = ground (arith, h, i)
Produce-Owns allocate h c b i = ground (arith, h, i)
Produce-Owns copy h c b i = ground (arith, h, i)
Produce-Owns announce h c b i = ground (arith, h, i)
Produce-Owns unlock h c b i = ground (arith, h, i)
Produce-Owns leave h c b i = ground (arith, h, i)

pub Consume-Owns :
    {n a : ℕ} {s t : System} {c : Consumer}
    → Consume n s a c t
    → (b : ℕ) → Owns s.prod_mutex s.cells n b (s.producers b)
    → Owns t.prod_mutex t.cells n b (t.producers b)
Consume-Owns (enter e) b i = i
Consume-Owns (see_empty e) b i = i
Consume-Owns (stop e) b i = i
Consume-Owns (go_to_sleep e) b i = i
Consume-Owns wait b i = i
Consume-Owns wake_up b i = i
Consume-Owns (enter_again e) b i = i
Consume-Owns (pick e) b i = i
Consume-Owns (lock e) b i = i
Consume-Owns release b i = i
Consume-Owns take_line b i = ground (arith, i)
Consume-Owns announce b i = ground (arith, i)
Consume-Owns unlock b i = i

-- The index of a consumer lies in the array.
abbrev pub Held : ℕ → Consumer → Type 0
Held n (picked i) = i < n
Held n (locked i) = i < n
Held n (holding i) = i < n
Held n _ = Unit

pub Produce-Held :
    {n a : ℕ} {s t : System} {p : Producer}
    → Produce n s a p t
    → (b : ℕ) → Held n (s.consumers b)
    → Held n (t.consumers b)
Produce-Held (read e) b i = i
Produce-Held (end_of_file e) b i = i
Produce-Held (enter e) b i = i
Produce-Held (see_full e) b i = i
Produce-Held wait b i = i
Produce-Held wake_up b i = i
Produce-Held (enter_again e) b i = i
Produce-Held (claim e) b i = i
Produce-Held (lock e) b i = i
Produce-Held allocate b i = i
Produce-Held copy b i = i
Produce-Held announce b i = ground (arith, i)
Produce-Held unlock b i = i
Produce-Held leave b i = i

pub Consume-Held :
    {n a : ℕ} {s t : System} {c : Consumer}
    → Consume n s a c t
    → Held n c
    → s.curr_cons < n
    → (b : ℕ) → Held n (s.consumers b)
    → Held n (t.consumers b)
Consume-Held (enter e) h c b i = ground (arith, h, i)
Consume-Held (see_empty e) h c b i = ground (arith, h, i)
Consume-Held (stop e) h c b i = ground (arith, h, i)
Consume-Held (go_to_sleep e) h c b i = ground (arith, h, i)
Consume-Held wait h c b i = ground (arith, h, i)
Consume-Held wake_up h c b i = ground (arith, h, i)
Consume-Held (enter_again e) h c b i = ground (arith, h, i)
Consume-Held (pick e) h c b i = ground (arith, h, i)
Consume-Held (lock e) h c b i = ground (arith, h, i)
Consume-Held release h c b i = ground (arith, h, i)
Consume-Held take_line h c b i = ground (arith, h, i)
Consume-Held announce h c b i = ground (arith, h, i)
Consume-Held unlock h c b i = ground (arith, h, i)

pub woken_Held : (n : ℕ) (c : Consumer) → Held n c → Held n (wake_consumer c)
woken_Held n c h = ground (arith, h)
