-- ===== src/Records.antt =====
-- lab2_file_system/system_vs_lib_io/program.c and utils.c: `sort_sys` and `sort_lib`, which sort the
-- records of a file in place. A file is the list of its bytes. Each call of the system or of the C
-- library has a number, and `fails` tells which calls fail. `moves` tells how many bytes at most a
-- `read` or `write` of the system transfers; those of the C library count a short one as failed.
pub mod Layout
pub mod Compared
pub mod Loops
pub mod Sorted
pub mod Copying
pub mod Generating
pub mod Program
mod Tests
use op_sys.Common.{
  ℕ, zero, suc, ◌+◌, ◌-◌, ◌*◌, ◌%◌, ◌^◌, Bool, true, false, ◌||◌, Option, none, some, List, [], ◌∷◌,
  ◌++◌, leb, ltb, if◌then◌else◌, length, get_or, take, drop, replicate,
}

-- The file and the number of calls made.
pub record Disk : Type 0 where
  pub bytes : List ℕ
  pub calls : ℕ

abbrev pub call : Disk → Disk
call d = record d { calls = suc d.calls }

-- What `lseek` returns is kept in an `int` of 32 bits.
abbrev pub is_negative_int : ℕ → Bool
is_negative_int n = leb (2 ^ 31) (n % 2 ^ 32)

-- The bytes that a read of `size` bytes at `start` brings: fewer at the end of the file.
abbrev pub bytes_at : ℕ → ℕ → List ℕ → List ℕ
bytes_at start size bytes = take size (drop start bytes)

-- A write behind the end of the file fills the gap by zeros.
abbrev pub splice : ℕ → List ℕ → List ℕ → List ℕ
splice start data_ bytes =
    take start bytes
    ++ (replicate (start - length bytes) 0 ++ (data_ ++ drop (start + length data_) bytes))

-- The buffer keeps the bytes that the read does not reach.
abbrev pub overlay : List ℕ → List ℕ → List ℕ
overlay got buffer = got ++ drop (length got) buffer

-- How a sort reaches the file: what a read leaves in the buffer (`none` is -1), and whether a write
-- succeeds.
pub record Access : Type 0 where
  pub read_at : List ℕ → ℕ → Disk → Option (List ℕ) × Disk
  pub write_at : List ℕ → ℕ → Disk → Bool × Disk

module _ (fails : ℕ → Bool) (moves : ℕ → ℕ) where
  unfoldable pub read_starting_from : List ℕ → ℕ → Disk → Option (List ℕ) × Disk
  read_starting_from buffer start d =
      if fails d.calls || is_negative_int start
      then (none, call d)
      else if fails (suc d.calls)
      then (none, call (call d))
      else (
        some (overlay (take (moves (suc d.calls)) (bytes_at start (length buffer) d.bytes)) buffer),
        call (call d),
      )

  unfoldable pub write_starting_from : List ℕ → ℕ → Disk → Bool × Disk
  write_starting_from buffer start d =
      if fails d.calls || is_negative_int start
      then (false, call d)
      else if fails (suc d.calls)
      then (false, call (call d))
      else (
        true,
        record (call (call d)) { bytes = splice start (take (moves (suc d.calls)) buffer) d.bytes },
      )

  unfoldable pub sys : Access
  sys = record { read_at = read_starting_from; write_at = write_starting_from }

module _ (fails : ℕ → Bool) where
  unfoldable pub fread_starting_from : List ℕ → ℕ → Disk → Option (List ℕ) × Disk
  fread_starting_from buffer start d =
      let got = bytes_at start (length buffer) d.bytes in
      if fails d.calls
      then (none, call d)
      else if fails (suc d.calls) || ltb (length got) (length buffer)
      then (none, call (call d))
      else (some (overlay got buffer), call (call d))

  unfoldable pub fwrite_starting_from : List ℕ → ℕ → Disk → Bool × Disk
  fwrite_starting_from buffer start d =
      if fails d.calls
      then (false, call d)
      else if fails (suc d.calls)
      then (false, call (call d))
      else (true, record (call (call d)) { bytes = splice start buffer d.bytes })

  unfoldable pub lib : Access
  lib = record { read_at = fread_starting_from; write_at = fwrite_starting_from }

-- The file and the two buffers.
pub record Sorter : Type 0 where
  pub disk : Disk
  pub first : List ℕ
  pub second : List ℕ

-- `failed` is a return of -1.
pub data Outcome : Type 0 where
  finished : Sorter → Outcome
  failed : Sorter → Outcome

module _ (a : Access) (size : ℕ) where
  -- The second record goes to the place of the first, then the first to that of the second.
  unfoldable pub swap_records : ℕ → Sorter → Outcome
  swap_records j s =
      let (ok, d) = a.write_at s.second (j * size) s.disk in
      let (ok', d') = a.write_at s.first (suc j * size) d in
      if ok
      then if ok' then finished (record s { disk = d' }) else failed (record s { disk = d' })
      else failed (record s { disk = d })

  -- The body of the inner loop, for `j` one less than the source's. The first bytes are the keys.
  unfoldable pub compare_records : ℕ → Sorter → Outcome
  unfolding swap_records
  compare_records j s =
      let (got, d) = a.read_at s.first (j * size) s.disk in
      let (got', d') = a.read_at s.second (suc j * size) d in
      elim got [
        | none ↦ failed (record s { disk = d })
        | some first ↦ elim got' [
          | none ↦ failed (record s { disk = d'; first = first })
          | some second ↦
              let s' : Sorter = record { disk = d'; first = first; second = second } in
              if ltb (get_or second 0 0) (get_or first 0 0) then swap_records j s' else finished s'
        ]
      ]

  unfoldable pub sift_records : ℕ → Sorter → Outcome
  sift_records zero s = finished s
  sift_records (suc j) s = elim (compare_records j s) [
    | finished s' ↦ sift_records j s'
    | failed s' ↦ failed s'
  ]

  unfoldable pub sort_records : ℕ → ℕ → Sorter → Outcome
  sort_records zero i s = finished s
  sort_records (suc rounds) i s = elim (sift_records i s) [
    | finished s' ↦ sort_records rounds (suc i) s'
    | failed s' ↦ failed s'
  ]

-- The buffers, of `record_size` bytes each, start with what the stack holds.
unfoldable pub sort_sys : (ℕ → Bool) → (ℕ → ℕ) → ℕ → ℕ → Sorter → Outcome
unfolding sort_records
sort_sys fails moves records record_size s =
    let opened = record s { disk = call s.disk } in
    if fails s.disk.calls
    then failed opened
    else sort_records (sys fails moves) record_size (records - 1) 1 opened

-- From where the stream is open; the test of `fopen` does not see a failure.
unfoldable pub sort_lib : (ℕ → Bool) → ℕ → ℕ → Sorter → Outcome
unfolding sort_records
sort_lib fails records record_size s = sort_records (lib fails) record_size (records - 1) 1 s
