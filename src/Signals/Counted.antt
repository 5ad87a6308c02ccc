-- ===== src/Signals/Counted.antt =====
-- The numbers that the programs print stay within what was sent.
use op_sys.Common.{ℕ, suc, ◌+◌, ◌≤◌, arith}
use op_sys.Signals.{
  Kind, standard, suspending, real_time, Parent, looping, sent, suspended, waiting, done, Child,
  entered, counted, exited, System, kill, reply, Step, send, go_on, suspend, wake, answered,
  answered_late, send_last, wait_for, interrupt, deliver, count, answer, deliver_last, ignore,
  ignore_last, Reach, forked, later,
}

-- A signal that was sent and is not counted yet.
abbrev pub in_loop : Parent → ℕ
in_loop sent = 1
in_loop suspended = 1
in_loop _ = 0

abbrev pub in_entered : Child → ℕ
in_entered entered = 1
in_entered _ = 0

abbrev pub in_counted : Child → ℕ
in_counted counted = 1
in_counted _ = 0

abbrev pub in_exited : Child → ℕ
in_exited exited = 1
in_exited _ = 0

-- The last signal, where the parent counts it too.
abbrev pub extra : Kind → Parent → ℕ
extra real_time waiting = 1
extra real_time (done r) = 1
extra _ _ = 0

abbrev pub is_last : Parent → ℕ
is_last waiting = 1
is_last (done r) = 1
is_last _ = 0

-- The signals before the last one: those sent, those that have arrived and those that came back.
pub record Counts (kind : Kind) (l : ℕ) (s : System) : Type 0 where
  pub arrived :
      s.received_by_child + in_entered s.child + s.pending + extra kind s.parent
      ≤ s.sent_to_child + in_loop s.parent + in_exited s.child
  pub returned :
      s.received_by_parent + s.answers + in_counted s.child + in_exited s.child
      ≤ s.received_by_child
  pub bounded : s.sent_to_child + in_loop s.parent ≤ l + extra kind s.parent
  pub last : s.last_pending + in_exited s.child ≤ is_last s.parent

kill_bound : (kind : Kind) (n : ℕ) → kill kind n ≤ suc n
kill_bound standard n = omega arith
kill_bound suspending n = omega arith
kill_bound real_time n = omega arith

reply_bound : (kind : Kind) (p : Parent) (n : ℕ) → reply kind p n ≤ suc n
reply_bound kind (done received) n = omega arith
reply_bound kind looping n = kill_bound kind n
reply_bound kind sent n = kill_bound kind n
reply_bound kind suspended n = kill_bound kind n
reply_bound kind waiting n = kill_bound kind n

Step-Counts :
    {kind : Kind} {l : ℕ} {s t : System} → Step kind l s t → Counts kind l s → Counts kind l t
Step-Counts {kind} {l} {s} (send p h) c = ground (arith, kill_bound kind s.pending)
Step-Counts {kind} {l} {s} (answer p) c = ground (arith, reply_bound kind s.parent s.answers)
Step-Counts {kind} (go_on p q) c = ground arith
Step-Counts {kind} (suspend p q) c = ground arith
Step-Counts {kind} (wake n p q) c = ground arith
Step-Counts {kind} (answered n p q) c = ground arith
Step-Counts {kind} (answered_late n p q) c = ground arith
Step-Counts {kind} (send_last p q) c = ground arith
Step-Counts {kind} (wait_for p q) c = ground arith
Step-Counts {kind} (interrupt n p q) c = ground arith
Step-Counts {kind} (deliver n p q alive) c = ground arith
Step-Counts {kind} (count p) c = ground arith
Step-Counts {kind} (deliver_last n p q alive) c = ground arith
Step-Counts {kind} (ignore n p q dead) c = ground arith
Step-Counts {kind} (ignore_last n p q dead) c = ground arith

pub Reach-Counts : {kind : Kind} {l : ℕ} {s : System} → Reach kind l s → Counts kind l s
Reach-Counts {kind} forked = ground arith
Reach-Counts (later r st) = Step-Counts st (Reach-Counts r)

in_exited_le : (c : Child) → in_exited c ≤ 1
in_exited_le c = ground arith

extra_le : (kind : Kind) (p : Parent) → extra kind p ≤ 1
extra_le kind p = ground arith

-- In every reachable state, whatever the order of the steps: the parent has counted at most L signals and
-- no more than the child, the child at most L + 1, and at most L + 1 are counted as sent.
pub counts_bounded :
    {kind : Kind} {l : ℕ} {s : System}
    → Reach kind l s
    → (s.received_by_parent ≤ l)
      × (s.received_by_parent ≤ s.received_by_child)
      × (s.received_by_child ≤ suc l)
      × (s.sent_to_child ≤ suc l)
counts_bounded {kind} {l} {s} r =
    let c = Reach-Counts r in
    let c1 = c.arrived in
    let c2 = c.returned in
    let c3 = c.bounded in
    let e = in_exited_le s.child in
    let x = extra_le kind s.parent in (omega arith, omega arith, omega arith, omega arith)
