-- ===== src/Monitor.antt =====
-- lab7_synch_threads/mutex/main.c: producers put the lines of a file into a cyclic array of `n` cells,
-- consumers take them out, with mutexes and condition variables. A step is a call on one of these, with
-- the accesses that its mutex protects, or one access that none protects. `pthread_cond_wait` returns
-- after a broadcast or without one.
pub mod Owned
pub mod Summed
pub mod Kept
pub mod Overtaken
mod Tests
use op_sys.Common.{
  ℕ, zero, suc, ◌+◌, ◌%◌, ◌≡◌, ◌≢◌, ◌⊎◌, Bool, true, false, List, [], ◌∷◌, ◌++◌, Option, none, some,
  ltb, if◌then◌else◌,
}
use op_sys.Buffer.{Cell, empty, raw, full, update}

-- Where a producer stands, with the locals that are live there: `line` and `curr_index`.
pub data Producer : Type 0 where
  reading : Producer  -- before `fgets`
  entering : (l : List ℕ) → Producer  -- before the lock of `prod_mutex`
  testing : (l : List ℕ) → Producer  -- before the test of `while`
  sleeping : (l : List ℕ) → Producer  -- behind it, before `pthread_cond_wait`
  waiting : (l : List ℕ) → Producer  -- in it
  woken : (l : List ℕ) → Producer  -- in it, before it has the mutex again
  claimed : (i : ℕ) (l : List ℕ) → Producer  -- before the lock of the cell
  locked : (i : ℕ) (l : List ℕ) → Producer  -- before `malloc`
  copying : (i : ℕ) (l : List ℕ) → Producer  -- before `strcpy`
  copied : (i : ℕ) → Producer  -- before the broadcast
  announced : (i : ℕ) → Producer  -- before the unlock of the cell
  leaving : Producer  -- before the unlock of `prod_mutex`
  finished : Producer

pub data Consumer : Type 0 where
  outside : Consumer  -- before the lock of `cons_mutex`
  testing : Consumer  -- before the test of `while`
  checking : Consumer  -- before the test of `done_producing`
  sleeping : Consumer  -- before `pthread_cond_wait`
  waiting : Consumer  -- in it
  woken : Consumer  -- in it, before it has the mutex again
  picked : (i : ℕ) → Consumer  -- before the lock of the cell
  locked : (i : ℕ) → Consumer  -- before the unlock of `cons_mutex`
  holding : (i : ℕ) → Consumer  -- before the cell is read
  took : (i : ℕ) → Consumer  -- before the broadcast
  announced : (i : ℕ) → Consumer  -- before the unlock of the cell
  finished : Consumer

-- The thread of `main`, in `wait_threads`.
pub data Joiner : Type 0 where
  joining : Joiner  -- the first loop
  joined : Joiner  -- before the broadcast
  idle : Joiner  -- the second loop

-- A mutex has the number of the thread that holds it. The last two fields before the threads are a
-- history: the lines that were copied, and what the consumers took.
pub record System : Type 0 where
  pub cells : ℕ → Cell
  pub curr_prod : ℕ
  pub curr_cons : ℕ
  pub prod_mutex : Option ℕ
  pub cons_mutex : Option ℕ
  pub locks : ℕ → Bool
  pub file : List (List ℕ)
  pub done_producing : Bool
  pub stored : List (List ℕ)
  pub taken : List Cell
  pub producers : ℕ → Producer
  pub consumers : ℕ → Consumer
  pub joiner : Joiner

-- A broadcast on `write_cond`.
abbrev pub wake_producer : Producer → Producer
wake_producer (waiting l) = woken l
wake_producer p = p

-- A broadcast on `read_cond`.
abbrev pub wake_consumer : Consumer → Consumer
wake_consumer waiting = woken
wake_consumer c = c

abbrev pub producer : System → ℕ → Producer → System
producer s a p = record s { producers = update s.producers a p }

abbrev pub consumer : System → ℕ → Consumer → System
consumer s a c = record s { consumers = update s.consumers a c }

-- `produce`, a step of the producer with number `a`.
pub data Produce (n : ℕ) (s : System) (a : ℕ) : Producer → System → Type 0 where
  read :
      {l : List ℕ} {rest : List (List ℕ)}
      → s.file ≡ l ∷ rest
      → Produce n s a reading (producer (record s { file = rest }) a (entering l))
  end_of_file : s.file ≡ [] → Produce n s a reading (producer s a finished)
  enter :
      {l : List ℕ}
      → s.prod_mutex ≡ none
      → Produce n s a (entering l) (producer (record s { prod_mutex = some a }) a (testing l))
  see_full :
      {l : List ℕ}
      → s.cells s.curr_prod ≢ empty
      → Produce n s a (testing l) (producer s a (sleeping l))
  wait :
      {l : List ℕ}
      → Produce n s a (sleeping l) (producer (record s { prod_mutex = none }) a (waiting l))
  wake_up : {l : List ℕ} → Produce n s a (waiting l) (producer s a (woken l))
  enter_again :
      {l : List ℕ}
      → s.prod_mutex ≡ none
      → Produce n s a (woken l) (producer (record s { prod_mutex = some a }) a (testing l))
  claim :
      {l : List ℕ}
      → s.cells s.curr_prod ≡ empty
      → Produce n s a
          (testing l)
          (producer (record s { curr_prod = (s.curr_prod + 1) % n }) a (claimed s.curr_prod l))
  lock :
      {i : ℕ} {l : List ℕ}
      → s.locks i ≡ false
      → Produce n s a
          (claimed i l)
          (producer (record s { locks = update s.locks i true }) a (locked i l))
  allocate :
      {i : ℕ} {l : List ℕ}
      → Produce n s a
          (locked i l)
          (producer (record s { cells = update s.cells i raw }) a (copying i l))
  copy :
      {i : ℕ} {l : List ℕ}
      → Produce n s a (copying i l) (
          producer
            (record s { cells = update s.cells i (full l); stored = s.stored ++ l ∷ [] })
            a
            (copied i))
  announce :
      {i : ℕ}
      → Produce n s a
          (copied i)
          (producer (record s { consumers = λ b. wake_consumer (s.consumers b) }) a (announced i))
  unlock :
      {i : ℕ}
      → Produce n s a
          (announced i)
          (producer (record s { locks = update s.locks i false }) a leaving)
  leave : Produce n s a leaving (producer (record s { prod_mutex = none }) a reading)

-- `consume`, a step of the consumer with number `a`.
pub data Consume (n : ℕ) (s : System) (a : ℕ) : Consumer → System → Type 0 where
  enter :
      s.cons_mutex ≡ none
      → Consume n s a outside (consumer (record s { cons_mutex = some a }) a testing)
  see_empty : s.cells s.curr_cons ≡ empty → Consume n s a testing (consumer s a checking)
  stop :
      s.done_producing ≡ true
      → Consume n s a checking (consumer (record s { cons_mutex = none }) a finished)
  go_to_sleep : s.done_producing ≡ false → Consume n s a checking (consumer s a sleeping)
  wait : Consume n s a sleeping (consumer (record s { cons_mutex = none }) a waiting)
  wake_up : Consume n s a waiting (consumer s a woken)
  enter_again :
      s.cons_mutex ≡ none
      → Consume n s a woken (consumer (record s { cons_mutex = some a }) a testing)
  pick :
      s.cells s.curr_cons ≢ empty
      → Consume n s a testing
          (consumer (record s { curr_cons = (s.curr_cons + 1) % n }) a (picked s.curr_cons))
  lock :
      {i : ℕ}
      → s.locks i ≡ false
      → Consume n s a
          (picked i)
          (consumer (record s { locks = update s.locks i true }) a (locked i))
  release :
      {i : ℕ} → Consume n s a (locked i) (consumer (record s { cons_mutex = none }) a (holding i))
  take_line :
      {i : ℕ}
      → Consume n s a (holding i) (
          consumer
            (record s { cells = update s.cells i empty; taken = s.taken ++ s.cells i ∷ [] })
            a
            (took i))
  announce :
      {i : ℕ}
      → Consume n s a
          (took i)
          (consumer (record s { producers = λ b. wake_producer (s.producers b) }) a (announced i))
  unlock :
      {i : ℕ}
      → Consume n s a
          (announced i)
          (consumer (record s { locks = update s.locks i false }) a outside)

pub data Step (n : ℕ) (s : System) : System → Type 0 where
  produces : (a : ℕ) {t : System} → Produce n s a (s.producers a) t → Step n s t
  consumes : (a : ℕ) {t : System} → Consume n s a (s.consumers a) t → Step n s t
  join :
      s.joiner ≡ joining
      → ((a : ℕ) → s.producers a ≡ finished)
      → Step n s (record s { joiner = joined; done_producing = true })
  broadcast :
      s.joiner ≡ joined
      → Step n s (record s { joiner = idle; consumers = λ b. wake_consumer (s.consumers b) })

-- `set_up` and `create_threads`; a thread that is not created counts as finished.
abbrev pub created : ℕ → ℕ → List (List ℕ) → System
created prods cons file = record {
  cells = λ _. empty;
  curr_prod = 0;
  curr_cons = 0;
  prod_mutex = none;
  cons_mutex = none;
  locks = λ _. false;
  file = file;
  done_producing = false;
  stored = [];
  taken = [];
  producers = λ a. if ltb a prods then reading else finished;
  consumers = λ a. if ltb a cons then outside else finished;
  joiner = joining;
}

pub data Steps (n : ℕ) (s : System) : System → Type 0 where
  here : Steps n s s
  later : {t u : System} → Steps n s t → Step n t u → Steps n s u
