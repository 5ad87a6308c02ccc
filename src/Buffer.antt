-- ===== src/Buffer.antt =====
-- lab7_synch_threads/unnamed_semaphore/main.c: producers put the lines of a file into a cyclic array of
-- `n` cells, consumers take them out. `sems` is the array of semaphores: one for each cell, then
-- `sems[n]` for the producers, `sems[n + 1]` for the consumers and `sems[n + 2]` for the free cells.
-- A step is a call on a semaphore with the accesses that it protects, or one access that it does not.
pub mod System
pub mod Invariant
pub mod Places
pub mod Accounted
pub mod Safety
mod Tests
use op_sys.Common.{
  ℕ, zero, suc, ◌+◌, ◌%◌, ◌≡◌, ◌≢◌, Bool, true, false, ◌&&◌, ◌||◌, List, [], ◌∷◌, ◌++◌, ◌==◌,
  if◌then◌else◌, length, ℤ, pos, negsuc, ltb_ℤ, leb_ℤ,
}

-- NULL, an array that is not filled yet, or a line.
pub data Cell : Type 0 where
  empty : Cell
  raw : Cell
  full : List ℕ → Cell

abbrev pub update {ℓ} : {A : Type ℓ} → (ℕ → A) → ℕ → A → ℕ → A
update f i x a = if i == a then x else f a

-- The last four are a history: the lines in the order in which cells were claimed for them, how many
-- cells were picked for taking, what was taken, and how many cells were counted as free again.
pub record Shared : Type 0 where
  pub cells : ℕ → Cell
  pub curr_prod : ℕ
  pub curr_cons : ℕ
  pub sems : ℕ → ℕ
  pub file : List (List ℕ)
  pub done_producing : Bool
  pub claims : List (List ℕ)
  pub picks : ℕ
  pub taken : List Cell
  pub freed : ℕ

pub data Role : Type 0 where
  producer : Role
  consumer : Role

-- Where a thread stands, with the locals that are live there: `curr_index`, and `line` for a
-- producer. The number behind the index is how many claims or picks came before.
pub data Pc : Type 0 where
  reading : Pc  -- a producer before `fgets`
  entering : (l : List ℕ) → Pc  -- before `sem_wait(&sems[N])`
  inside : (l : List ℕ) → Pc  -- before `sem_wait(&sems[N+2])`
  claiming : (i k : ℕ) (l : List ℕ) → Pc  -- before `sem_wait(&sems[curr_index])`
  locked : (i k : ℕ) (l : List ℕ) → Pc  -- before `sem_post(&sems[N])`
  writing : (i k : ℕ) (l : List ℕ) → Pc  -- before `malloc`
  copying : (i k : ℕ) (l : List ℕ) → Pc  -- before `strcpy`
  outside : Pc  -- a consumer before `sem_wait(&sems[N+1])`
  checking : Pc  -- the test of `while`
  released : Pc  -- before the test of `done_producing`
  picking : (i k : ℕ) → Pc  -- before `sem_wait(&sems[curr_index])`
  holding : (i k : ℕ) → Pc  -- before the cell is read
  took : (i k : ℕ) → Pc  -- before `sem_post(&sems[N+2])`
  counted : (i k : ℕ) → Pc  -- before `sem_post(&sems[N+1])`
  leaving : (i k : ℕ) → Pc  -- before `sem_post(&sems[curr_index])`
  finished : Pc

abbrev pub after_wait : ℕ → ℕ → Shared → Shared
after_wait s v m = record m { sems = update m.sems s v }

abbrev pub after_post : ℕ → Shared → Shared
after_post s m = record m { sems = update m.sems s (suc (m.sems s)) }

-- A step of one thread. A semaphore that is 0 lets no `sem_wait` pass.
pub data Move (n : ℕ) (full_info : Bool) (m : Shared) : Pc → Shared → Pc → Type 0 where
  read :
      {l : List ℕ} {rest : List (List ℕ)}
      → m.file ≡ l ∷ rest
      → Move n full_info m reading (record m { file = rest }) (entering l)
  end_of_file : m.file ≡ [] → Move n full_info m reading m finished
  enter :
      {l : List ℕ} (v : ℕ)
      → m.sems n ≡ suc v
      → Move n full_info m (entering l) (after_wait n v m) (inside l)
  claim :
      {l : List ℕ} (v : ℕ)
      → m.sems (n + 2) ≡ suc v
      → Move n full_info m
          (inside l)
          (record m {
            sems = update m.sems (n + 2) v;
            curr_prod = (m.curr_prod + 1) % n;
            claims = m.claims ++ l ∷ [];
          })
          (claiming m.curr_prod (length m.claims) l)
  lock :
      {i k : ℕ} {l : List ℕ} (v : ℕ)
      → m.sems i ≡ suc v
      → Move n full_info m (claiming i k l) (after_wait i v m) (locked i k l)
  leave :
      {i k : ℕ} {l : List ℕ} → Move n full_info m (locked i k l) (after_post n m) (writing i k l)
  allocate :
      {i k : ℕ} {l : List ℕ}
      → Move n full_info m
          (writing i k l)
          (record m { cells = update m.cells i raw })
          (copying i k l)
  copy :
      {i k : ℕ} {l : List ℕ}
      → Move n full_info m
          (copying i k l)
          (record m { cells = update m.cells i (full l); sems = update m.sems i (suc (m.sems i)) })
          reading
  wait :
      (v : ℕ)
      → m.sems (n + 1) ≡ suc v
      → Move n full_info m outside (after_wait (n + 1) v m) checking
  see_empty :
      m.cells m.curr_cons ≡ empty → Move n full_info m checking (after_post (n + 1) m) released
  stop : m.done_producing ≡ true → full_info ≡ true → Move n full_info m released m finished
  retry : (m.done_producing && full_info) ≡ false → Move n full_info m released m outside
  pick :
      m.cells m.curr_cons ≢ empty
      → Move n full_info m checking
          (record m { curr_cons = (m.curr_cons + 1) % n; picks = suc m.picks })
          (picking m.curr_cons m.picks)
  grab :
      {i k : ℕ} (v : ℕ)
      → m.sems i ≡ suc v
      → Move n full_info m (picking i k) (after_wait i v m) (holding i k)
  take_line :
      {i k : ℕ}
      → Move n full_info m
          (holding i k)
          (record m { cells = update m.cells i empty; taken = m.taken ++ m.cells i ∷ [] })
          (took i k)
  post_free :
      {i k : ℕ}
      → Move n full_info m
          (took i k)
          (record m { sems = update m.sems (n + 2) (suc (m.sems (n + 2))); freed = suc m.freed })
          (counted i k)
  post_cons : {i k : ℕ} → Move n full_info m (counted i k) (after_post (n + 1) m) (leaving i k)
  post_cell : {i k : ℕ} → Move n full_info m (leaving i k) (after_post i m) outside

-- `search_type` is -1, 0 or 1 for lines shorter than, as long as, or longer than `l`.
abbrev pub found_len : ℤ → ℤ → ℤ → Bool
found_len (negsuc zero) l len = ltb_ℤ len l
found_len (pos zero) l len = leb_ℤ len l && leb_ℤ l len
found_len (pos (suc zero)) l len = ltb_ℤ l len
found_len search_type l len = false
