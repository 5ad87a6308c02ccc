-- ===== src/Records/Compared.antt =====
-- One comparison of two records of a file does to the records what a round of the insertion sort does to
-- an array, whichever calls are used, unless one of the calls fails.
use op_sys.Common.{
  ℕ, zero, suc, ◌+◌, ◌*◌, ◌≤◌, ◌<◌, ◌≡◌, refl, ap, ◌∙◌, true, false, Option, none, some, List, [],
  ◌∷◌, ◌++◌, arith, length, get_or, get_elem?, set, ltb, ltb_ℤ, ℤ, pos, Bool-cases, inl, inr, ◌⊎◌,
  if◌then◌else◌, length-set,
}
use op_sys.Records.{
  Disk, Access, Sorter, Outcome, finished, failed, bytes_at, splice, swap_records, compare_records,
}
use op_sys.Records.Layout.{
  flat, AreRecords, bytes_at-flat, splice-flat, set-AreRecords, get_or-AreRecords,
}
use op_sys.Sorting.{compare_swap}

-- The first byte of a record, as an `unsigned char`.
abbrev pub key : List ℕ → ℤ
key r = pos (get_or r 0 0)

get_elem?-get_or :
    (rs : List (List ℕ)) (j : ℕ) → j < length rs → get_elem? rs j ≡ some (get_or rs j [])
get_elem?-get_or [] j h = absurd (omega arith)
get_elem?-get_or (r ∷ rs) zero h = refl
get_elem?-get_or (r ∷ rs) (suc j) h = get_elem?-get_or rs j (omega arith)

set_comm :
    (rs : List (List ℕ)) (j : ℕ) (x y : List ℕ)
    → set (set rs (suc j) x) j y ≡ set (set rs j y) (suc j) x
set_comm [] j x y = refl
set_comm (r ∷ rs) zero x y = refl
set_comm (r ∷ rs) (suc j) x y = ap (◌∷◌ r) (set_comm rs j x y)

key-ltb : (x y : List ℕ) → ltb_ℤ (key y) (key x) ≡ ltb (get_or y 0 0) (get_or x 0 0)
key-ltb x y = ground arith

abbrev pub swapped : ℕ → List (List ℕ) → List (List ℕ)
swapped j rs = set (set rs j (get_or rs (suc j) [])) (suc j) (get_or rs j [])

pub compare_swap-get :
    (rs : List (List ℕ)) (j : ℕ)
    → suc j < length rs
    → compare_swap key j rs ≡ (
        if ltb (get_or (get_or rs (suc j) []) 0 0) (get_or (get_or rs j []) 0 0)
        then swapped j rs
        else rs)
unfolding compare_swap
compare_swap-get rs j h =
    rw
      (
        compare_swap,
        get_elem?-get_or rs j (omega arith),
        get_elem?-get_or rs (suc j) h,
        key-ltb (get_or rs j []) (get_or rs (suc j) []),
        set_comm rs j (get_or rs j []) (get_or rs (suc j) []),
      )
      refl

-- What the sorts rely on: in a file of `total` bytes, a read or write of `size` bytes that are there
-- does what it promises, or `Fault` holds.
pub record Lawful (a : Access) (size total : ℕ) (Fault : Type 0) : Type 0 where
  pub read_ok :
      (buffer : List ℕ) (start : ℕ) (d : Disk)
      → length buffer ≡ size
      → start + size ≤ total
      → length d.bytes ≡ total
      → ((a.read_at buffer start d).1.bytes ≡ d.bytes)
        × ((((a.read_at buffer start d).0 ≡ none) × Fault)
            ⊎ ((a.read_at buffer start d).0 ≡ some (bytes_at start size d.bytes)))
  pub write_ok :
      (buffer : List ℕ) (start : ℕ) (d : Disk)
      → length buffer ≡ size
      → start + size ≤ total
      → (((a.write_at buffer start d).0 ≡ false) × Fault)
        ⊎ (((a.write_at buffer start d).0 ≡ true)
            × ((a.write_at buffer start d).1.bytes ≡ splice start buffer d.bytes))

-- The file holds the records `rs`, and then `tail`; the buffers have the size of a record.
pub record Holds (size : ℕ) (tail : List ℕ) (rs : List (List ℕ)) (s : Sorter) : Type 0 where
  pub content : s.disk.bytes ≡ flat rs ++ tail
  pub first_full : length s.first ≡ size
  pub second_full : length s.second ≡ size

abbrev pub Ends : ℕ → List ℕ → Type 0 → List (List ℕ) → Outcome → Type 0
Ends size tail Fault rs (finished s) = Holds size tail rs s
Ends size tail Fault rs (failed s) = Fault

place_fits : (j n size : ℕ) → j < n → j * size + size ≤ n * size
place_fits j zero size h = absurd (omega arith)
place_fits zero (suc n) size h = omega arith
place_fits (suc j) (suc n) size h = omega (arith, place_fits j n size (omega arith))

module _ {a : Access} {size total : ℕ} {Fault : Type 0} (law : Lawful a size total Fault)
    (tail : List ℕ) where
  -- `rs` fill the file up to the tail.
  abbrev pub Fills : List (List ℕ) → Type 0
  Fills rs = AreRecords size rs × (length rs * size ≤ total)

  swap_records-Ends :
      (j : ℕ) (rs : List (List ℕ)) (s : Sorter)
      → Fills rs
      → Holds size tail rs s
      → suc j < length rs
      → s.first ≡ get_or rs j []
      → s.second ≡ get_or rs (suc j) []
      → Ends size tail Fault (swapped j rs) (swap_records a size j s)
  unfolding swap_records
  swap_records-Ends j rs s f h below e e' = elim wrote_first [
    | inl (refused, fault) ↦ rw refused fault
    | inr (wrote, content) ↦
        rw wrote (elim (law.write_ok s.first (suc j * size) between h.first_full second_fits) [
          | inl (refused', fault) ↦ rw refused' fault
          | inr (wrote', content') ↦ rw wrote' (record {
            content = content' ∙ after_both content;
            first_full = h.first_full;
            second_full = h.second_full;
          })
        ])
  ]
    where
      between : Disk
      between = (a.write_at s.second (j * size) s.disk).1

      second_fits : suc j * size + size ≤ total
      second_fits = omega (arith, f.1, place_fits (suc j) (length rs) size below)

      wrote_first :
          ((a.write_at s.second (j * size) s.disk).0 ≡ false) × Fault
          ⊎ ((a.write_at s.second (j * size) s.disk).0 ≡ true)
            × (between.bytes ≡ splice (j * size) s.second s.disk.bytes)
      wrote_first =
          law.write_ok s.second (j * size) s.disk h.second_full
            (omega (arith, f.1, place_fits j (length rs) size (omega arith)))

      after_both :
          between.bytes ≡ splice (j * size) s.second s.disk.bytes
          → splice (suc j * size) s.first between.bytes ≡ flat (swapped j rs) ++ tail
      after_both content =
          ap (splice (suc j * size) s.first) (
            content
            ∙ ap (splice (j * size) s.second) h.content
            ∙ splice-flat size tail rs j s.second f.0 (omega arith) h.second_full)
          ∙ splice-flat size tail (set rs j s.second) (suc j) s.first
              (set-AreRecords size rs j s.second f.0 h.second_full)
              (omega (arith, length-set rs j s.second)) h.first_full
          ∙ ap (λ v. flat (set (set rs j v) (suc j) s.first) ++ tail) e'
          ∙ ap (λ v. flat (set (set rs j (get_or rs (suc j) [])) (suc j) v) ++ tail) e

  -- A round of the inner loop does what the round of the insertion sort does to the records.
  pub compare_records-Ends :
      (j : ℕ) (rs : List (List ℕ)) (s : Sorter)
      → Fills rs
      → length (flat rs ++ tail) ≡ total
      → Holds size tail rs s
      → suc j < length rs
      → Ends size tail Fault (compare_swap key j rs) (compare_records a size j s)
  unfolding compare_records
  compare_records-Ends j rs s f whole h below =
      rw (compare_swap-get rs j below) (elim read_first.1 [
        | inl (refused, fault) ↦ rw (compare_records, refused) fault
        | inr got ↦ elim read_second.1 [
          | inl (refused, fault) ↦ rw (compare_records, got, refused) fault
          | inr got' ↦
              rw (compare_records, got ∙ ap some is_first, got' ∙ ap some is_second) compared
        ]
      ])
    where
      first_read : Option (List ℕ) × Disk
      first_read = a.read_at s.first (j * size) s.disk

      read_first :
          (first_read.1.bytes ≡ s.disk.bytes)
          × ((first_read.0 ≡ none) × Fault
              ⊎ (first_read.0 ≡ some (bytes_at (j * size) size s.disk.bytes)))
      read_first =
          law.read_ok s.first (j * size) s.disk h.first_full
            (omega (arith, f.1, place_fits j (length rs) size (omega arith)))
            (ap length h.content ∙ whole)

      second_read : Option (List ℕ) × Disk
      second_read = a.read_at s.second (suc j * size) first_read.1

      read_second :
          (second_read.1.bytes ≡ first_read.1.bytes)
          × ((second_read.0 ≡ none) × Fault
              ⊎ (second_read.0 ≡ some (bytes_at (suc j * size) size first_read.1.bytes)))
      read_second =
          law.read_ok s.second (suc j * size) first_read.1 h.second_full
            (omega (arith, f.1, place_fits (suc j) (length rs) size below))
            (ap length (read_first.0 ∙ h.content) ∙ whole)

      is_first : bytes_at (j * size) size s.disk.bytes ≡ get_or rs j []
      is_first =
          ap (bytes_at (j * size) size) h.content ∙ bytes_at-flat size tail rs j f.0 (omega arith)

      is_second : bytes_at (suc j * size) size first_read.1.bytes ≡ get_or rs (suc j) []
      is_second =
          ap (bytes_at (suc j * size) size) (read_first.0 ∙ h.content)
          ∙ bytes_at-flat size tail rs (suc j) f.0 below

      both_read : Sorter
      both_read = record {
        disk = second_read.1;
        first = get_or rs j [];
        second = get_or rs (suc j) [];
      }

      held : Holds size tail rs both_read
      held = record {
        content = read_second.0 ∙ read_first.0 ∙ h.content;
        first_full = get_or-AreRecords size rs j f.0 (omega arith);
        second_full = get_or-AreRecords size rs (suc j) f.0 below;
      }

      compared :
          Ends size tail Fault
            (if ltb (get_or (get_or rs (suc j) []) 0 0) (get_or (get_or rs j []) 0 0)
              then swapped j rs
              else rs)
            (if ltb (get_or (get_or rs (suc j) []) 0 0) (get_or (get_or rs j []) 0 0)
              then swap_records a size j both_read
              else finished both_read)
      compared =
          elim (Bool-cases
            (ltb (get_or (get_or rs (suc j) []) 0 0) (get_or (get_or rs j []) 0 0))) [
              | inl lt ↦ rw lt (swap_records-Ends j rs both_read f held below refl refl)
              | inr ge ↦ rw ge held
            ]
