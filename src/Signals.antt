-- ===== src/Signals.antt =====
-- lab4_signals_and_pipes/sigusr/user_sigs.c: a parent sends L signals to its child, which sends each one
-- back, and then one that ends the child. A step is a call of the parent, the start of a handler of the
-- child, or a part of one. Each handler blocks only its own signal, so the signal that ends the child can
-- come while the child handles another. SIGINT is not sent, and the queue of real-time signals is not full.
pub mod Counted
pub mod Answered
pub mod Lost
mod Tests
use op_sys.Common.{
  ℕ, zero, suc, ◌+◌, ◌%◌, ◌≤◌, ◌<◌, ◌≡◌, ◌≢◌, ◌⊎◌, ◌||◌, pos_part, Bool, true, false, List, [], ◌∷◌,
  ltb, ◌==◌, if◌then◌else◌, ℤ, pos, negsuc, ltb_ℤ,
}

-- `TYPE`: SIGUSR1 and SIGUSR2; the same, with `sigsuspend`; SIGRTMIN and SIGRTMAX.
pub data Kind : Type 0 where
  standard : Kind
  suspending : Kind
  real_time : Kind

pub data Parent : Type 0 where
  looping : Parent  -- before the test of the loop
  sent : Parent  -- behind `kill` in the loop
  suspended : Parent  -- in `sigsuspend`
  waiting : Parent  -- behind the last `kill`, before or in `waitpid`
  done : (received : ℕ) → Parent  -- behind it, with `received_by_child`

pub data Child : Type 0 where
  asleep : Child
  entered : Child  -- in the handler, before `received_by_child++`
  counted : Child  -- before `kill(getppid(), ...)`
  exited : Child

-- `pending` and `last_pending` are the signals that wait for the child, `answers` those for the parent.
pub record System : Type 0 where
  pub parent : Parent
  pub child : Child
  pub sent_to_child : ℕ
  pub received_by_child : ℕ
  pub received_by_parent : ℕ
  pub pending : ℕ
  pub last_pending : ℕ
  pub answers : ℕ

-- A standard signal that is pending already is not kept twice; a real-time signal is.
abbrev pub kill : Kind → ℕ → ℕ
kill standard n = 1
kill suspending n = 1
kill real_time n = suc n

-- The signal to `getppid()`: once the parent has ended, that is another process.
abbrev pub reply : Kind → Parent → ℕ → ℕ
reply kind (done received) n = n
reply kind _ n = kill kind n

-- `sent_to_child` after the loop.
abbrev pub with_last : Kind → ℕ → ℕ
with_last standard n = n
with_last suspending n = n
with_last real_time n = suc n

-- The parent exists still, so that `si_pid` and `getppid()` are its number.
abbrev pub IsAlive : Parent → Type 0
IsAlive (done received) = ⊥
IsAlive _ = Unit

-- The loop is over.
abbrev pub IsBehind : Parent → Type 0
IsBehind waiting = Unit
IsBehind (done received) = Unit
IsBehind _ = ⊥

pub data Step (kind : Kind) (l : ℕ) (s : System) : System → Type 0 where
  send :
      s.parent ≡ looping
      → s.sent_to_child < l
      → Step kind l s (record s { parent = sent; pending = kill kind s.pending })
  go_on :
      s.parent ≡ sent
      → kind ≢ suspending
      → Step kind l s (record s { parent = looping; sent_to_child = suc s.sent_to_child })
  suspend : s.parent ≡ sent → kind ≡ suspending → Step kind l s (record s { parent = suspended })
  wake :
      (n : ℕ)
      → s.parent ≡ suspended
      → s.answers ≡ suc n
      → Step kind l s (record s {
        parent = looping;
        sent_to_child = suc s.sent_to_child;
        received_by_parent = suc s.received_by_parent;
        answers = n;
      })
  answered :
      (n : ℕ)
      → (s.parent ≡ looping) ⊎ (s.parent ≡ sent)
      → s.answers ≡ suc n
      → Step kind l s (record s { received_by_parent = suc s.received_by_parent; answers = n })
  answered_late :
      (n : ℕ)
      → IsBehind s.parent
      → s.answers ≡ suc n
      → Step kind l s (record s { received_by_parent = suc s.received_by_parent; answers = n })
  send_last :
      s.parent ≡ looping
      → l ≤ s.sent_to_child
      → Step kind l s (record s {
        parent = waiting;
        sent_to_child = with_last kind s.sent_to_child;
        last_pending = 1;
      })
  wait_for :
      s.parent ≡ waiting
      → s.child ≡ exited
      → Step kind l s (record s { parent = done (s.received_by_child % 256) })
  -- The handler has no SA_RESTART: `waitpid` fails, and `status` is still 0.
  interrupt :
      (n : ℕ)
      → s.parent ≡ waiting
      → s.answers ≡ suc n
      → Step kind l s
          (record s { parent = done 0; received_by_parent = suc s.received_by_parent; answers = n })
  deliver :
      (n : ℕ)
      → s.child ≡ asleep
      → s.pending ≡ suc n
      → IsAlive s.parent
      → Step kind l s (record s { child = entered; pending = n })
  count :
      s.child ≡ entered
      → Step kind l s (record s { child = counted; received_by_child = suc s.received_by_child })
  answer :
      s.child ≡ counted
      → Step kind l s (record s { child = asleep; answers = reply kind s.parent s.answers })
  deliver_last :
      (n : ℕ)
      → s.child ≢ exited
      → s.last_pending ≡ suc n
      → IsAlive s.parent
      → Step kind l s (record s {
        child = exited;
        received_by_child = suc s.received_by_child;
        last_pending = n;
      })
  -- The parent has ended: the sender is not `getppid()` any more, and the handler does nothing.
  ignore :
      (n : ℕ)
      → s.child ≡ asleep
      → s.pending ≡ suc n
      → ¬ IsAlive s.parent
      → Step kind l s (record s { pending = n })
  ignore_last :
      (n : ℕ)
      → s.child ≢ exited
      → s.last_pending ≡ suc n
      → ¬ IsAlive s.parent
      → Step kind l s (record s { last_pending = n })

-- After `fork`, the handlers in place.
abbrev pub started : System
started = record {
  parent = looping;
  child = asleep;
  sent_to_child = 0;
  received_by_child = 0;
  received_by_parent = 0;
  pending = 0;
  last_pending = 0;
  answers = 0;
}

pub data Reach (kind : Kind) (l : ℕ) : System → Type 0 where
  forked : Reach kind l started
  later : {s t : System} → Reach kind l s → Step kind l s t → Reach kind l t

-- The arguments of `main` as `strtol` reads them: the code of a refusal, or L and TYPE.
pub data Parsed : Type 0 where
  refused : (code : ℕ) → Parsed
  runs : (l : ℕ) → Kind → Parsed

abbrev pub kind_of : ℕ → Kind
kind_of n = if n == 1 then standard else if n == 2 then suspending else real_time

unfoldable pub main : (List ℕ → ℤ) → List (List ℕ) → Parsed
main strtol (program ∷ number ∷ type ∷ []) =
    let l = strtol number in
    let k = strtol type in
    if ltb_ℤ l (pos 1)
    then refused 1
    else if ltb_ℤ k (pos 1) || ltb_ℤ (pos 3) k
    then refused 1
    else runs (pos_part l) (kind_of (pos_part k))
main strtol argv = refused 1
