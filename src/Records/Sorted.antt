-- ===== src/Records/Sorted.antt =====
-- The calls of the system, and those of the C library, do what the sorts rely on; so both sorts sort.
use op_sys.Common.{
  ℕ, zero, suc, ◌+◌, ◌-◌, ◌*◌, ◌^◌, ◌≤◌, ◌<◌, ◌≡◌, refl, ap, ◌∙◌, Bool, true, false, some, List, [],
  ◌∷◌, arith, length, take, drop, ltb, Bool-cases, inl, inr, length-append, length-take,
  length-drop,
}
use op_sys.Records.{
  Sorter, bytes_at, overlay, sort_sys, sort_lib, sys, lib, call, read_starting_from,
  write_starting_from, fread_starting_from, fwrite_starting_from, is_negative_int,
}
use op_sys.Records.Layout.{flat, AreRecords, length-flat, overlay_full}
use op_sys.Records.Compared.{key, Lawful, Holds, Ends}
use op_sys.Records.Loops.{sort_records-Ends}
use op_sys.Sorting.Laws.{Sorts, sort_by_key-Sorts}
use op_sys.Sorting.{sort_by_key}

length-bytes_at :
    (start size : ℕ) (bytes : List ℕ)
    → start + size ≤ length bytes
    → length (bytes_at start size bytes) ≡ size
length-bytes_at start size bytes h =
    omega (arith, length-take size (drop start bytes), length-drop start bytes)

-- The read fills the buffer.
read_full :
    (buffer : List ℕ) (start size : ℕ) (bytes : List ℕ)
    → length buffer ≡ size
    → start + size ≤ length bytes
    → overlay (bytes_at start (length buffer) bytes) buffer ≡ bytes_at start size bytes
read_full buffer start size bytes full h =
    overlay_full (bytes_at start (length buffer) bytes) buffer
      (length-bytes_at start (length buffer) bytes (omega (arith, full)))
    ∙ ap (λ k. bytes_at start k bytes) full

offset_kept : (start : ℕ) → start < 2 ^ 31 → is_negative_int start ≡ false
offset_kept start h = ground arith

abbrev pub SomeFails : (ℕ → Bool) → Type 0
SomeFails fails = (i : ℕ) × (fails i ≡ true)

take_whole : (n : ℕ) (xs : List ℕ) → length xs ≤ n → take n xs ≡ xs
take_whole zero [] h = refl
take_whole zero (x ∷ xs) h = absurd (omega arith)
take_whole (suc n) [] h = refl
take_whole (suc n) (x ∷ xs) h = ap (λ l. x ∷ l) (take_whole n xs (omega arith))

sys-Lawful :
    (fails : ℕ → Bool) (moves : ℕ → ℕ) (size total : ℕ)
    → ((i : ℕ) → size ≤ moves i)
    → 0 < size
    → total ≤ 2 ^ 31
    → Lawful (sys fails moves) size total (SomeFails fails)
unfolding sys read_starting_from write_starting_from
sys-Lawful fails moves size total complete some_size small = record {
  read_ok = λ buffer start d full fits whole. elim (Bool-cases (fails d.calls)) [
    | inl seek_fails ↦ rw seek_fails (refl, inl (refl, (d.calls, seek_fails)))
    | inr sought ↦
        rw (sought, offset_kept start (omega (arith, fits)))
          (elim (Bool-cases (fails (suc d.calls))) [
            | inl read_fails ↦ rw read_fails (refl, inl (refl, (suc d.calls, read_fails)))
            | inr done ↦ rw done (
              refl,
              inr (
                  ap (λ got. some (overlay got buffer))
                    (take_whole (moves (suc d.calls)) (bytes_at start (length buffer) d.bytes) (
                      omega (
                        arith,
                        full,
                        complete (suc d.calls),
                        length-take (length buffer) (drop start d.bytes),
                      )))
                  ∙ ap some
                      (read_full buffer start size d.bytes full (omega (arith, fits, whole)))),
            )
          ])
  ];
  write_ok = λ buffer start d full fits. elim (Bool-cases (fails d.calls)) [
    | inl seek_fails ↦ rw seek_fails (inl (refl, (d.calls, seek_fails)))
    | inr sought ↦
        rw (sought, offset_kept start (omega (arith, fits)))
          (elim (Bool-cases (fails (suc d.calls))) [
            | inl write_fails ↦ rw write_fails (inl (refl, (suc d.calls, write_fails)))
            | inr done ↦
                rw
                  (
                    done,
                    take_whole (moves (suc d.calls)) buffer
                        (omega (arith, full, complete (suc d.calls))),
                  )
                  (inr (refl, refl))
          ])
  ];
}

lib-Lawful : (fails : ℕ → Bool) (size total : ℕ) → Lawful (lib fails) size total (SomeFails fails)
unfolding lib fread_starting_from fwrite_starting_from
lib-Lawful fails size total = record {
  read_ok = λ buffer start d full fits whole.
      let there : start + length buffer ≤ length d.bytes = omega (arith, fits, whole, full) in
      elim (Bool-cases (fails d.calls)) [
        | inl seek_fails ↦ rw seek_fails (refl, inl (refl, (d.calls, seek_fails)))
        | inr sought ↦ rw sought (elim (Bool-cases (fails (suc d.calls))) [
          | inl read_fails ↦ rw read_fails (refl, inl (refl, (suc d.calls, read_fails)))
          | inr done ↦
              rw (done, all_read (length-bytes_at start (length buffer) d.bytes there))
                (
                  refl,
                  inr (
                      ap some
                        (read_full buffer start size d.bytes full (omega (arith, fits, whole)))),
                )
        ])
      ];
  write_ok = λ buffer start d full fits. elim (Bool-cases (fails d.calls)) [
    | inl seek_fails ↦ rw seek_fails (inl (refl, (d.calls, seek_fails)))
    | inr sought ↦ rw sought (elim (Bool-cases (fails (suc d.calls))) [
      | inl write_fails ↦ rw write_fails (inl (refl, (suc d.calls, write_fails)))
      | inr done ↦ rw done (inr (refl, refl))
    ])
  ];
}
  where
    all_read : {m k : ℕ} → m ≡ k → ltb m k ≡ false
    all_read e = ground arith

-- The file holds at least `records` records of `record_size` bytes, and any bytes behind them. Then
-- `sort_lib`, on an open stream, returns 0 and leaves those records in a stable order by their first
-- bytes, with the rest of the file as it was, or it returns -1 and some call has failed.
pub sort_lib-Sorts :
    (fails : ℕ → Bool) (records record_size : ℕ) (rs : List (List ℕ)) (tail : List ℕ) (s : Sorter)
    → AreRecords record_size rs
    → records ≤ length rs
    → Holds record_size tail rs s
    → (out : List (List ℕ)) × Sorts key rs records out
      × Ends record_size tail (SomeFails fails) out (sort_lib fails records record_size s)
unfolding sort_lib sort_by_key
sort_lib-Sorts fails records record_size rs tail s sizes enough h = (
  sort_by_key key rs records,
  sort_by_key-Sorts key rs records enough,
  sort_records-Ends (lib-Lawful fails record_size (length rs * record_size + length tail)) tail
      (length rs) refl (records - 1) 1 rs s (sizes, refl) h (λ more. omega (arith, more)),
)

-- The file holds at least `records` records of `record_size` bytes, and any bytes behind them; it has at
-- most 2 GiB, since the offsets that `lseek` returns are kept in an `int`, and `record_size` is not 0.
-- Where each `read` and `write` that does not fail transfers a whole record, `sort_sys` returns 0 and
-- leaves those records in a stable order by their first bytes, with the rest of the file as it was, or
-- it returns -1 and some call has failed.
pub sort_sys-Sorts :
    (fails : ℕ → Bool) (moves : ℕ → ℕ) (records record_size : ℕ) (rs : List (List ℕ))
    (tail : List ℕ) (s : Sorter)
    → ((i : ℕ) → record_size ≤ moves i)
    → 0 < record_size
    → AreRecords record_size rs
    → records ≤ length rs
    → Holds record_size tail rs s
    → length s.disk.bytes ≤ 2 ^ 31
    → (out : List (List ℕ)) × Sorts key rs records out
      × Ends record_size tail (SomeFails fails) out (sort_sys fails moves records record_size s)
unfolding sort_sys sort_by_key
sort_sys-Sorts fails moves records record_size rs tail s complete some_size sizes enough h small = (
  sort_by_key key rs records,
  sort_by_key-Sorts key rs records enough,
  elim (Bool-cases (fails s.disk.calls)) [
    | inl not_opened ↦ rw not_opened (s.disk.calls, not_opened)
    | inr opened ↦ rw opened (
        sort_records-Ends (sys-Lawful fails moves record_size total complete some_size total_small)
          tail (length rs) refl (records - 1) 1 rs (record s { disk = call s.disk }) (sizes, refl)
          (record { content = h.content; first_full = h.first_full; second_full = h.second_full })
          (λ more. omega (arith, more)))
  ],
)
  where
    total : ℕ
    total = length rs * record_size + length tail

    total_small : total ≤ 2 ^ 31
    total_small = omega (
      arith,
      small,
      ap length h.content
          ∙ length-append (flat rs) tail
          ∙ ap (λ m. m + length tail) (length-flat record_size rs sizes),
    )
