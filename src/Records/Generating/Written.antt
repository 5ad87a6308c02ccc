-- ===== src/Records/Generating/Written.antt =====
-- What `generate` writes, and which errors it does not see.
use op_sys.Common.{
  ℕ, zero, suc, ◌+◌, ◌*◌, ◌-◌, ◌^◌, ◌≤◌, ◌<◌, ◌≡◌, refl, ap, ◌∙◌, true, false, Option, some, List,
  [], ◌++◌, ℤ, pos, negsuc, ltb, length, take, arith, Bool-cases, inl, inr, length-append,
  length-take,
}
use mathlib.Core.List.{append-nil}
use op_sys.Records.Generating.{full, generated, fill, generate_loop, generate}

-- Each read brings at least a byte, and no more than wanted.
abbrev pub Brings : (ℕ → ℕ → Option (List ℕ)) → Type 0
Brings answers =
    (call wanted : ℕ)
    → 0 < wanted
    → (bytes : List ℕ) × (answers call wanted ≡ some bytes)
      × (0 < length bytes)
      × (length bytes ≤ wanted)

module _ (answers : ℕ → ℕ → Option (List ℕ)) (writes : ℕ → ℤ) (size : ℕ)
    (brings : Brings answers) where
  -- The buffer is filled within as many rounds as it has bytes.
  fill-full :
      (rounds calls : ℕ) (got : List ℕ)
      → length got ≤ size
      → size ≤ length got + rounds
      → (bytes : List ℕ) × (calls' : ℕ) × (fill answers writes size rounds calls got
          ≡ full bytes calls')
        × (length bytes ≡ size)
  unfolding fill
  fill-full zero calls got few enough = (got, calls, rw (filled) refl, omega arith)
    where
      filled : ltb (length got) size ≡ false
      filled = ground arith
  fill-full (suc rounds) calls got few enough = elim (Bool-cases (ltb (length got) size)) [
    | inr filled ↦ (got, calls, rw (fill, filled) refl, ground arith)
    | inl open_ ↦
        let some_wanted : 0 < size - length got = ground arith in
        let (bytes, e, more, within) = brings calls (size - length got) some_wanted in
        let (all, calls', e', size') =
          fill-full rounds (suc calls) (got ++ bytes)
            (omega (arith, length-append got bytes, within, some_wanted))
            (omega (arith, length-append got bytes, more, enough)) in
        (all, calls', rw (fill, open_, e) e', size')
  ]

  -- The writes write all.
  loop-length :
      (rounds i calls : ℕ) (file : List ℕ)
      → ((k : ℕ) → writes k ≡ pos size)
      → (out : List ℕ) × (generate_loop answers writes size rounds i calls file ≡ generated out)
        × (length out ≡ length file + rounds * size)
  unfolding generate_loop
  loop-length zero i calls file all = (file, refl, omega arith)
  loop-length (suc rounds) i calls file all =
      let (bytes, calls', e, size') = fill-full size calls [] (omega arith) (omega arith) in
      let (out, e', n) = loop-length rounds (suc i) calls' (file ++ take size bytes) all in
      (
        out,
        rw (generate_loop, e, all i, enough, all i) e',
        omega (arith, n, length-append file (take size bytes), length-take size bytes, size'),
      )
    where
      enough : ltb size size ≡ false
      enough = ground arith

  -- The writes fail.
  loop_unnoticed :
      (rounds i calls : ℕ) (file : List ℕ)
      → size < 2 ^ 64
      → ((k : ℕ) → writes k ≡ negsuc 0)
      → generate_loop answers writes size rounds i calls file ≡ generated file
  unfolding generate_loop
  loop_unnoticed zero i calls file small fail = refl
  loop_unnoticed (suc rounds) i calls file small fail =
      let (bytes, calls', e, size') = fill-full size calls [] (omega arith) (omega arith) in
      rw (generate_loop, e, fail i, looks_large, fail i)
        (loop_unnoticed rounds (suc i) calls' (file ++ []) small fail
          ∙ ap generated (append-nil file))
    where
      looks_large : ltb (2 ^ 64 - 1) size ≡ false
      looks_large = ground arith

-- If both files open, each read of the random source brings at least one byte and each write takes its
-- whole record, `generate` ends with 0, and the file has `records` records of the size wanted.
pub generate-length :
    (answers : ℕ → ℕ → Option (List ℕ)) (writes : ℕ → ℤ) (record_size : ℕ) (old : List ℕ)
    (records : ℕ)
    → Brings answers
    → ((k : ℕ) → writes k ≡ pos record_size)
    → (out : List ℕ) × (generate answers writes record_size true true old records ≡ generated out)
      × (length out ≡ records * record_size)
unfolding generate
generate-length answers writes record_size old records brings all =
    let (out, e, n) = loop-length answers writes record_size brings records 0 0 [] all in
    (out, e, omega (arith, n))

-- If both files open and each read of the random source brings at least one byte, but every write fails
-- with -1, `generate` still ends with 0, and the file is empty: the -1 is compared as a `size_t`.
generate_unnoticed :
    (answers : ℕ → ℕ → Option (List ℕ)) (writes : ℕ → ℤ) (record_size : ℕ) (old : List ℕ)
    (records : ℕ)
    → Brings answers
    → record_size < 2 ^ 64
    → ((k : ℕ) → writes k ≡ negsuc 0)
    → generate answers writes record_size true true old records ≡ generated []
unfolding generate
generate_unnoticed answers writes record_size old records brings small fail =
    loop_unnoticed answers writes record_size brings records 0 0 [] small fail
