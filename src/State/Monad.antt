-- ===== src/State/Monad.antt =====
-- Kernel code as commands: each takes the state and returns a value with the new state, unless it
-- halts or faults. A pointer to an object is its index, or `none` for NULL.
use horizon_microkernel.Prelude.{ℕ, Bool, true, false, Option, none, some, update}
use horizon_microkernel.Prelude.Outcome.{Outcome, done, halted, fault}
use horizon_microkernel.State.Data.{Kernel, Thread, Process, Message, ThreadUid}

abbrev pub K : Type 0 → Type 0
K A = Kernel → Outcome (A × Kernel)

abbrev pub pure : {A : Type 0} → A → K A
pure a k = done (a, k)

-- The rest of a computation after an outcome.
abbrev pub and_then : {A B : Type 0} → Outcome (A × Kernel) → (A → K B) → Outcome (B × Kernel)
and_then (done r) f = f r.0 r.1
and_then halted f = halted
and_then fault f = fault

infixl 5 ◌>>=◌ ◌>>◌
abbrev pub ◌>>=◌ : {A B : Type 0} → K A → (A → K B) → K B
(m >>= f) k = and_then (m k) f

abbrev pub ◌>>◌ : {B : Type 0} → K (Unit {0}) → K B → K B
m >> n = m >>= λ _. n

abbrev pub gets : {A : Type 0} → (Kernel → A) → K A
gets f k = done (f k, k)

abbrev pub modify : (Kernel → Kernel) → K (Unit {0})
modify f k = done (tt, f k)

-- A computation on a part of the state that changes nothing.
abbrev pub asks : {A : Type 0} → (Kernel → Outcome A) → K A
asks f k = elim (f k) [ done a ↦ done (a, k) | halted ↦ halted | fault ↦ fault ]

abbrev pub dassert : Bool → K (Unit {0})
dassert true k = done (tt, k)
dassert false k = halted

abbrev pub is_some : Option ℕ → Bool
is_some none = false
is_some (some _) = true

-- `p->field` of a thread and the write to it, through a pointer.
abbrev pub load : Option ThreadUid → K Thread
load none k = fault
load (some u) k = done (k.threads u, k)

abbrev pub store : Option ThreadUid → (Thread → Thread) → K (Unit {0})
store none f k = fault
store (some u) f k = done (tt, record k { threads = update k.threads u (f (k.threads u)) })

abbrev pub load_process : Option ℕ → K Process
load_process none k = fault
load_process (some p) k = done (k.processes p, k)

abbrev pub store_process : Option ℕ → (Process → Process) → K (Unit {0})
store_process none f k = fault
store_process (some p) f k =
    done (tt, record k { processes = update k.processes p (f (k.processes p)) })

-- `owner->messages[i]` and the write to it.
abbrev pub load_message : Option ℕ → ℕ → K Message
load_message none i k = fault
load_message (some p) i k = done (k.messages p i, k)

abbrev pub store_message : Option ℕ → ℕ → (Message → Message) → K (Unit {0})
store_message none i f k = fault
store_message (some p) i f k =
    done (
      tt,
      record k { messages = update k.messages p (update (k.messages p) i (f (k.messages p i))) },
    )
