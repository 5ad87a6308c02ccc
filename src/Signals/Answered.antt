-- ===== src/Signals/Answered.antt =====
-- TYPE 2, `sigsuspend`: no signal is lost, where the programs end.
use op_sys.Common.{ℕ, suc, ◌+◌, ◌%◌, ◌≤◌, ◌≡◌, ap, arith}
use op_sys.Signals.{
  suspending, Parent, waiting, done, exited, System, Step, send, go_on, suspend, wake, answered,
  answered_late, send_last, wait_for, interrupt, deliver, count, answer, deliver_last, ignore,
  ignore_last, Reach, forked, later,
}
use op_sys.Signals.Counted.{in_loop, in_entered, in_counted, in_exited, Counts, Reach-Counts}

abbrev least : ℕ → Parent → ℕ
least l waiting = l
least l (done r) = l
least l _ = 0

abbrev Ends : ℕ → Parent → Type 0
Ends l (done r) = r ≡ suc l % 256
Ends l _ = Unit

-- At most one signal is on its way, and only while the parent is in a turn of its loop.
record Turns (l : ℕ) (s : System) : Type 0 where
  one : s.pending + in_entered s.child + in_counted s.child + s.answers ≤ in_loop s.parent
  each :
      s.received_by_parent + s.pending + in_entered s.child + in_counted s.child + s.answers
      ≡ s.sent_to_child + in_loop s.parent
  arrives :
      s.received_by_child + in_entered s.child + s.pending
      ≡ s.sent_to_child + in_loop s.parent + in_exited s.child
  enough : least l s.parent ≤ s.sent_to_child
  ends : Ends l s.parent

all_counted :
    {l : ℕ} {s : System}
    → Counts suspending l s
    → Turns l s
    → s.parent ≡ waiting
    → s.child ≡ exited
    → s.received_by_child ≡ suc l
all_counted {l} c i p q = ground arith

Step-Turns :
    {l : ℕ} {s t : System} → Step suspending l s t → Counts suspending l s → Turns l s → Turns l t
Step-Turns {l} {s} (send p h) c i = ground arith
Step-Turns {l} {s} (answer p) c i = ground arith
Step-Turns (go_on p q) c i = ground arith
Step-Turns (suspend p q) c i = ground arith
Step-Turns (wake n p q) c i = ground arith
Step-Turns (answered n p q) c i = ground arith
Step-Turns (answered_late n p q) c i = ground arith
Step-Turns (send_last p q) c i = ground arith
Step-Turns (wait_for p q) c i = let e = ap (λ n. n % 256) (all_counted c i p q) in ground (arith, e)
Step-Turns (interrupt n p q) c i = ground arith
Step-Turns (deliver n p q alive) c i = ground arith
Step-Turns (count p) c i = ground arith
Step-Turns (deliver_last n p q alive) c i = ground arith
Step-Turns (ignore n p q dead) c i = ground arith
Step-Turns (ignore_last n p q dead) c i = ground arith

Reach-Turns : {l : ℕ} {s : System} → Reach suspending l s → Turns l s
Reach-Turns forked = ground arith
Reach-Turns (later r st) = Step-Turns st (Reach-Counts r) (Reach-Turns r)

-- TYPE 2, in every order of the steps: where `waitpid` has come back, the parent has sent L signals to the child
-- and counted L replies, and it has read L + 1 modulo 256 from the exit status of the child.
pub all_answered :
    {l : ℕ} {s : System} {r : ℕ}
    → Reach suspending l s
    → s.parent ≡ done r
    → (s.sent_to_child ≡ l) × (s.received_by_parent ≡ l) × (r ≡ suc l % 256)
all_answered reached p = let c = Reach-Counts reached in let i = Reach-Turns reached in ground arith
