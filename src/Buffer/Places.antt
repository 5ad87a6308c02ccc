-- ===== src/Buffer/Places.antt =====
-- Where a thread can stand, for its role.
use op_sys.Common.{
  ℕ, ◌≡◌, refl, ap, sym, ◌∙◌, Bool, true, false, List, [], arith, ◌==◌, if◌then◌else◌, some,
  Bool-cases, inl, inr,
}
use op_sys.Buffer.{
  Pc, reading, entering, inside, claiming, locked, writing, copying, outside, checking, released,
  picking, holding, took, counted, leaving, finished, Role, producer, consumer, Shared, Move, read,
  end_of_file, wait, stop,
}
use op_sys.Buffer.System.{System, begins, move, join, Reach, created, later}
use op_sys.Buffer.Invariant.{ticket}

abbrev pub produces : Pc → Bool
produces reading = true
produces (entering l) = true
produces (inside l) = true
produces (claiming i k l) = true
produces (locked i k l) = true
produces (writing i k l) = true
produces (copying i k l) = true
produces _ = false

abbrev pub consumes : Pc → Bool
consumes outside = true
consumes checking = true
consumes released = true
consumes (picking i k) = true
consumes (holding i k) = true
consumes (took i k) = true
consumes (counted i k) = true
consumes (leaving i k) = true
consumes _ = false

pub ticket-produces : (p : Pc) (k : ℕ) → ticket p ≡ some k → produces p ≡ true
ticket-produces (claiming i k l) j e = refl
ticket-produces (locked i k l) j e = refl
ticket-produces (writing i k l) j e = refl
ticket-produces (copying i k l) j e = refl
ticket-produces p j e = absurd (ground arith)

module _ {n : ℕ} {full_info : Bool} where
  pub Move-produces :
      {m m' : Shared} {p p' : Pc}
      → Move n full_info m p m' p'
      → produces p ≡ false
      → produces p' ≡ false
  Move-produces (wait v g) e = refl
  Move-produces mv e = ground arith

  pub Move-consumes :
      {m m' : Shared} {p p' : Pc}
      → Move n full_info m p m' p'
      → full_info ≡ false
      → consumes p ≡ true
      → consumes p' ≡ true
  Move-consumes (stop g g') off e = absurd (ground (arith, g', off))
  Move-consumes mv off e = ground arith

  Move-away :
      {m m' : Shared} {p p' : Pc}
      → Move n full_info m p m' p'
      → consumes p ≡ false
      → consumes p' ≡ false
  Move-away (read g) e = refl
  Move-away mv e = ground arith

  Move-file : {m m' : Shared} {p p' : Pc} → Move n full_info m p m' p' → m.file ≡ [] → m'.file ≡ []
  Move-file (read g) e = absurd (ground (arith, g, e))
  Move-file mv e = e

  Move-finished :
      {m m' : Shared} {p p' : Pc}
      → Move n full_info m p m' p'
      → consumes p ≡ false
      → p' ≡ finished
      → m'.file ≡ []
  Move-finished (end_of_file g) h e = g
  Move-finished mv h e = absurd (ground arith)

  module _ {role : ℕ → Role} {file : List (List ℕ)} where
    -- A consumer is never at a place of the producers.
    pub Reach-produces :
        {s : System}
        → Reach n full_info role file s
        → (a : ℕ) → role a ≡ consumer
        → produces (s.pc a) ≡ false
    Reach-produces created a e = ap (λ r. produces (begins r)) e
    Reach-produces (later r (move b mv)) a e =
        ground (arith, Reach-produces r a e, Move-produces mv)
    Reach-produces (later r (join h)) a e = Reach-produces r a e

    -- Without messages, a consumer never leaves its loop.
    pub Reach-consumes :
        {s : System}
        → Reach n full_info role file s
        → full_info ≡ false
        → (a : ℕ) → role a ≡ consumer
        → consumes (s.pc a) ≡ true
    Reach-consumes created off a e = ap (λ r. consumes (begins r)) e
    Reach-consumes (later r (move b mv)) off a e =
        ground (arith, Reach-consumes r off a e, Move-consumes mv off)
    Reach-consumes (later r (join h)) off a e = Reach-consumes r off a e

    -- A producer is never at a place of the consumers.
    Reach-away :
        {s : System}
        → Reach n full_info role file s
        → (a : ℕ) → role a ≡ producer
        → consumes (s.pc a) ≡ false
    Reach-away created a e = ap (λ r. consumes (begins r)) e
    Reach-away (later r (move b mv)) a e = ground (arith, Reach-away r a e, Move-away mv)
    Reach-away (later r (join h)) a e = Reach-away r a e

    -- A producer finishes at the end of the file.
    pub Reach-finished :
        {s : System}
        → Reach n full_info role file s
        → (a : ℕ) → role a ≡ producer
        → s.pc a ≡ finished
        → s.mem.file ≡ []
    Reach-finished created a e h =
        absurd (ground (arith, ap (λ r. produces (begins r)) e, ap produces h))
    Reach-finished (later {s} r (move b {p} mv)) a e h = elim (Bool-cases (b == a)) [
      | inl same ↦
          Move-finished mv (ap (λ c. consumes (s.pc c)) (ground (arith, same)) ∙ Reach-away r a e)
            (ap (λ x. if x then p else s.pc a) (sym same) ∙ h)
      | inr other ↦
          Move-file mv (Reach-finished r a e (ap (λ x. if x then p else s.pc a) (sym other) ∙ h))
    ]
    Reach-finished (later r (join g)) a e h = Reach-finished r a e h
