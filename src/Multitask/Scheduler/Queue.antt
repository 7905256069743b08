-- ===== src/Multitask/Scheduler/Queue.antt =====
-- What it means that the kernel's queue holds a list of threads, first the active one.
use horizon_microkernel.Prelude.{
  ◌≡◌, true, ◌==◌, List, [], ◌∷◌, has, Distinct, Bool-cases, inl, inr, ◌∙◌, ap, ==_iff, write,
}
use horizon_microkernel.State.{Kernel, Thread, ThreadUid, old, is_active}
use horizon_microkernel.Multitask.Table.{Live}
use horizon_microkernel.Multitask.Scheduler.Ring.{Threads, Linked}

-- The list from the active thread on is circular; with no thread the active UID is zero.
abbrev pub Ring : Threads → ThreadUid → List ThreadUid → Type 0
Ring t a [] = a ≡ 0
Ring t a (x ∷ xs) = (a ≡ x) × Linked t x xs x

-- The threads in the queue are distinct, and they are exactly the live ones that are active.
pub record Schedules (k : Kernel) (q : List ThreadUid) : Type 0 where
  pub ring : Ring k.threads k.active_thread q
  pub distinct : Distinct q
  pub live : (u : ThreadUid) → has u q ≡ true → Live k u
  pub states : (u : ThreadUid) → has u q ≡ true → is_active (k.threads u).state ≡ true
  pub complete : (u : ThreadUid) → Live k u → is_active (k.threads u).state ≡ true → has u q ≡ true

-- A thread without what the scheduler keeps in it.
abbrev pub sans_links : Thread → Thread
sans_links t = record t { state = old; sched_info = record { timeslice = 0; next = 0; prev = 0 } }

-- A write that concerns the scheduler only.
pub sans_links-write :
    (t : Threads) (i j : ThreadUid) (f : Thread → Thread)
    → ((y : Thread) → sans_links (f y) ≡ sans_links y)
    → sans_links (write t i f j) ≡ sans_links (t j)
sans_links-write t i j f e = elim (Bool-cases (i == j)) [
  | inl h ↦ rw h (e (t i) ∙ ap (λ a. sans_links (t a)) ((==_iff i j).0 h))
  | inr h ↦ rw h
]
