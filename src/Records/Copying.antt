-- ===== src/Records/Copying.antt =====
-- `copy_sys` and `copy_lib` of lab2_file_system/system_vs_lib_io/program.c. The two files are
-- different files. The read of round `i` brings at most `delivers i` bytes of the `size` wanted (a read
-- that fails brings none), and its write takes at most `accepts i` bytes.
pub mod Prefix
use op_sys.Common.{
  ℕ, zero, suc, ◌+◌, Bool, ◌==◌, List, [], ◌∷◌, ◌++◌, ltb, if◌then◌else◌, length, take, drop, min,
}

-- The place in the source, and what the destination holds.
pub record Copy : Type 0 where
  pub position : ℕ
  pub copied : List ℕ

-- `cut_off` is a return of -1 after a short write, `not_opened` one before the loop.
pub data Result : Type 0 where
  success : Copy → Result
  cut_off : Copy → Result
  not_opened : Result

module _ (delivers accepts : ℕ → ℕ) (src : List ℕ) (size : ℕ) where
  -- A read that brings nothing, at the end of the source or by an error, is passed over.
  unfoldable pub copy_round : ℕ → Copy → Result
  copy_round i c =
      let buffer = take (min (delivers i) size) (drop c.position src) in
      let bytes_read = length buffer in
      let bytes_written = min (accepts i) bytes_read in
      let c' : Copy = record {
        position = c.position + bytes_read;
        copied = c.copied ++ take bytes_written buffer;
      } in
      if ltb 0 bytes_read
      then if bytes_written == bytes_read then success c' else cut_off c'
      else success c

  unfoldable pub copy_loop : ℕ → ℕ → Copy → Result
  copy_loop zero i c = success c
  copy_loop (suc rounds) i c = elim (copy_round i c) [
    | success c' ↦ copy_loop rounds (suc i) c'
    | cut_off c' ↦ cut_off c'
    | not_opened ↦ not_opened
  ]

-- `src_opens` and `dst_opens` tell whether the files can be opened; the destination starts empty.
unfoldable pub copy_sys :
    (delivers accepts : ℕ → ℕ) (src_opens dst_opens : Bool) (src : List ℕ) (records buffer_size : ℕ)
    → Result
unfolding copy_loop
copy_sys delivers accepts src_opens dst_opens src records buffer_size =
    if src_opens
    then if dst_opens
      then copy_loop delivers accepts src buffer_size records 0
          (record { position = 0; copied = [] })
      else not_opened
    else not_opened

-- The same steps, by calls of the C library.
unfoldable pub copy_lib :
    (delivers accepts : ℕ → ℕ) (src_opens dst_opens : Bool) (src : List ℕ) (records buffer_size : ℕ)
    → Result
unfolding copy_loop
copy_lib delivers accepts src_opens dst_opens src records buffer_size =
    if src_opens
    then if dst_opens
      then copy_loop delivers accepts src buffer_size records 0
          (record { position = 0; copied = [] })
      else not_opened
    else not_opened
