-- ===== src/Signals/Lost.antt =====
-- Runs that lose signals: a reply that comes before `sigsuspend`, and a last signal that comes first.
use op_sys.Common.{ℕ, zero, suc, ◌%◌, ◌≤◌, ◌<◌, ◌≡◌, ◌≢◌, inr, refl, arith}
use op_sys.Signals.{
  suspending, real_time, suspended, done, System, Step, send, go_on, suspend, wake, answered,
  answered_late, send_last, wait_for, interrupt, deliver, count, answer, deliver_last, ignore,
  ignore_last, started, Reach, forked, later,
}

-- Behind `n` turns of the loop, each one answered.
abbrev after : ℕ → System
after n = record started { sent_to_child = n; received_by_child = n; received_by_parent = n }

-- A reply that the parent has counted before `sigsuspend`.
abbrev pub missed : ℕ → System
missed n = record started {
  parent = suspended;
  sent_to_child = n;
  received_by_child = suc n;
  received_by_parent = suc n;
}

differs : real_time ≢ suspending
differs e = ground (arith, e)

answered_turn :
    {l n : ℕ} → n < l → Reach suspending l (after n) → Reach suspending l (after (suc n))
answered_turn h r =
    later
      (later
        (later (later (later (later r (send refl h)) (suspend refl refl)) (deliver 0 refl refl tt))
          (count refl))
        (answer refl))
      (wake 0 refl refl)

after-Reach : {l : ℕ} (n : ℕ) → n ≤ l → Reach suspending l (after n)
after-Reach zero h = forked
after-Reach (suc n) h = answered_turn (omega arith) (after-Reach n (omega arith))

missed-Reach : {l : ℕ} (n : ℕ) → n < l → Reach suspending l (missed n)
missed-Reach n h =
    later
      (later
        (later
          (later
            (later (later (after-Reach n (omega arith)) (send refl h)) (deliver 0 refl refl tt))
            (count refl))
          (answer refl))
        (answered 0 (inr refl) refl))
      (suspend refl refl)

missed_stops : {l : ℕ} (n : ℕ) {t : System} → ¬ Step suspending l (missed n) t
missed_stops n (send p h) = ground (arith, p)
missed_stops n (go_on p q) = ground (arith, p)
missed_stops n (suspend p q) = ground (arith, p)
missed_stops n (wake k p q) = ground (arith, q)
missed_stops n (answered k p q) = ground (arith, q)
missed_stops n (answered_late k p q) = ground (arith, q)
missed_stops n (send_last p q) = ground (arith, p)
missed_stops n (wait_for p q) = ground (arith, p)
missed_stops n (interrupt k p q) = ground (arith, p)
missed_stops n (deliver k p q alive) = ground (arith, q)
missed_stops n (count p) = ground (arith, p)
missed_stops n (answer p) = ground (arith, p)
missed_stops n (deliver_last k p q alive) = ground (arith, q)
missed_stops n (ignore k p q dead) = ground (arith, q)
missed_stops n (ignore_last k p q dead) = ground (arith, q)

-- TYPE 2 can hang in each of its L turns: behind `n` turns, a reply that comes between `kill` and
-- `sigsuspend` is counted, and then no step of either program can follow: the parent waits for a
-- signal, and the child as well.
pub can_hang :
    {l : ℕ} (n : ℕ)
    → n < l
    → (t : System)
    → Reach suspending l (missed n)
      × ((missed n).parent ≡ suspended)
      × ¬ Step suspending l (missed n) t
can_hang n h t = (missed-Reach n h, refl, missed_stops n)

-- TYPE 2 can end too, for every L.
pub can_end : (l : ℕ) → (s : System) × Reach suspending l s × (s.parent ≡ done (suc l % 256))
can_end l = (
  _,
  later
      (later (later (after-Reach l (omega arith)) (send_last refl (omega arith)))
        (deliver_last 0 (λ e. ground (arith, e)) refl tt))
      (wait_for refl refl),
  refl,
)

-- Behind `n` turns of the loop of TYPE 3, no handler started yet.
abbrev queued : ℕ → System
queued n = record started { sent_to_child = n; pending = n }

queued-Reach : {l : ℕ} (n : ℕ) → n ≤ l → Reach real_time l (queued n)
queued-Reach zero h = forked
queued-Reach (suc n) h =
    later (later (queued-Reach n (omega arith)) (send refl (omega arith))) (go_on refl differs)

-- TYPE 3, for every L of at least 1: SIGRTMAX can come while the child is in its first handler, and then
-- `print_stats` prints L + 1 signals sent, none received by the parent, and the child has counted one.
pub can_lose :
    (l : ℕ)
    → 1 ≤ l
    → (s : System) × Reach real_time l s
      × (s.parent ≡ done 1)
      × (s.sent_to_child ≡ suc l)
      × (s.received_by_parent ≡ 0)
can_lose zero h = absurd (omega arith)
can_lose (suc k) h = (
  _,
  later
      (later
        (later (later (queued-Reach (suc k) (omega arith)) (send_last refl (omega arith)))
          (deliver k refl refl tt))
        (deliver_last 0 (λ e. ground (arith, e)) refl tt))
      (wait_for refl refl),
  refl,
  refl,
  refl,
)
