-- ===== src/Records/Generating.antt =====
-- `generate` of lab2_file_system/system_vs_lib_io/program.c. `answers` are the reads of the random
-- source, by the number of the call and the bytes wanted (`none` is -1); `writes` are the numbers that
-- the writes return.
pub mod Written
use op_sys.Common.{
  ℕ, zero, suc, ◌-◌, ◌^◌, Bool, true, false, Option, none, some, List, [], ◌++◌, ℤ, pos, negsuc,
  pos_part, ltb, if◌then◌else◌, length, take,
}

-- The loop that fills the buffer for a record. `still_open`: the rounds ran out.
pub data Filled : Type 0 where
  full : List ℕ → ℕ → Filled
  read_failed : Filled
  still_open : Filled

-- The content of the file when the function returns 0 or -1.
pub data Generated : Type 0 where
  generated : List ℕ → Generated
  failed : List ℕ → Generated
  endless : Generated

-- `data_written < sizeof(random_data)` compares a `ssize_t` as a `size_t` of 64 bits.
abbrev pub to_size_t : ℤ → ℕ
to_size_t (pos n) = n
to_size_t (negsuc n) = 2 ^ 64 - suc n

module _ (answers : ℕ → ℕ → Option (List ℕ)) (writes : ℕ → ℤ) (record_size : ℕ) where
  unfoldable pub fill : ℕ → ℕ → List ℕ → Filled
  fill zero calls random_data =
      if ltb (length random_data) record_size then still_open else full random_data calls
  fill (suc rounds) calls random_data = elim (ltb (length random_data) record_size) [
    | false ↦ full random_data calls
    | true ↦ elim (answers calls (record_size - length random_data)) [
      | none ↦ read_failed
      | some result ↦ fill rounds (suc calls) (random_data ++ result)
    ]
  ]

  -- A buffer takes `record_size` rounds at most if each read brings a byte.
  unfoldable pub generate_loop : ℕ → ℕ → ℕ → List ℕ → Generated
  unfolding fill
  generate_loop zero i calls file = generated file
  generate_loop (suc rounds) i calls file = elim (fill record_size calls []) [
    | full random_data calls' ↦
        let file' = file ++ take (pos_part (writes i)) random_data in
        elim (ltb (to_size_t (writes i)) record_size) [
          | true ↦ failed file'
          | false ↦ generate_loop rounds (suc i) calls' file'
        ]
    | read_failed ↦ failed file
    | still_open ↦ endless
  ]

  -- `old` is the content where the file cannot be opened, and so is not cut to length 0.
  unfoldable pub generate : Bool → Bool → List ℕ → ℕ → Generated
  unfolding generate_loop
  generate file_opens source_opens old records =
      if file_opens
      then if source_opens then generate_loop records 0 0 [] else failed []
      else failed old
