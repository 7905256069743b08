-- ===== src/Multitask/Scheduler/Remove.antt =====
-- `scheduler_remove` takes a thread out of the queue.
use mathlib.Core.Path.{subst}
use mathlib.Core.Bool.{false≢true}
use horizon_microkernel.Prelude.Members.{has-snoc, Distinct-snoc, has-erase, Distinct-erase}
use horizon_microkernel.Prelude.{
  write, Bool-cases, inl, inr, sym, ap, ==_iff, ◌≡◌, refl, ◌∙◌, Bool, true, false, not, ◌||◌, ◌==◌,
  if◌then◌else◌, arith, List, [], ◌∷◌, ◌++◌, has, Distinct, some, erase,
}
use horizon_microkernel.Prelude.Outcome.{done}
use horizon_microkernel.State.{
  K, ◌>>◌, modify, store, and_then, Kernel, ThreadUid, old, is_active, set_state, set_next,
  set_prev,
}
use horizon_microkernel.Multitask.Table.{Live, thread_get-Live}
use horizon_microkernel.Multitask.Scheduler.{scheduler_remove, unlink}
use horizon_microkernel.Multitask.Scheduler.Ring.{
  Threads, Linked, Removed, Linked-remove, Linked-rotate, has-prev, has-next, has-prev_inside,
  next-ne, erase-snoc,
}
use horizon_microkernel.Multitask.Scheduler.Queue.{Ring, Schedules, sans_links, sans_links-write}

-- `t` after `unlink`.
abbrev unlinked : Threads → ThreadUid → Threads
unlinked t u =
    let t1 = write t (t u).sched_info.next (set_prev (t u).sched_info.prev) in
    write t1 (t u).sched_info.prev (set_next (t1 u).sched_info.next)

module _ (k : Kernel) (u : ThreadUid) where
  unlink-call :
      Live k (k.threads u).sched_info.next
      → Live k (k.threads u).sched_info.prev
      → unlink (some u) u k
        ≡ done (
          tt,
          record k {
            threads = unlinked k.threads u;
            active_thread =
                if k.active_thread == u then (k.threads u).sched_info.next else k.active_thread;
          },
        )
  unfolding unlink
  unlink-call n p =
      let first = if k.active_thread == u then (k.threads u).sched_info.next else k.active_thread in
      let k1 : Kernel = record k { active_thread = first } in
      rw (thread_get-Live k1 _ n, unlink) (rw (thread_get-Live k1 _ p) refl)

  -- The end of `scheduler_remove`, by the test for the last thread.
  abbrev take_out : Bool → K (Unit {0})
  take_out alone =
      (if alone then modify (λ k. record k { active_thread = 0 }) else unlink (some u) u)
      >> store (some u) (set_state old)

  module _ (live : Live k u) (runs : is_active (k.threads u).state ≡ true)
      (may : (not (u == k.active_thread) || k.locked) ≡ true) where
    remove-run : scheduler_remove u k ≡ take_out ((k.threads u).sched_info.next == u) k
    unfolding scheduler_remove
    remove-run = rw (thread_get-Live k u live, scheduler_remove) (rw (runs, may) refl)

    remove_only-call :
        ((k.threads u).sched_info.next == u) ≡ true
        → scheduler_remove u k
          ≡ done (tt, record k { threads = write k.threads u (set_state old); active_thread = 0 })
    remove_only-call e = remove-run ∙ ap (λ b. take_out b k) e

    remove_linked-call :
        ((k.threads u).sched_info.next == u) ≡ false
        → Live k (k.threads u).sched_info.next
        → Live k (k.threads u).sched_info.prev
        → scheduler_remove u k
          ≡ done (
            tt,
            record k {
              threads = write (unlinked k.threads u) u (set_state old);
              active_thread =
                  if k.active_thread == u then (k.threads u).sched_info.next else k.active_thread;
            },
          )
    remove_linked-call e n p =
        remove-run
        ∙ ap (λ b. take_out b k) e
        ∙ ap (λ o. and_then o (λ _. store (some u) (set_state old))) (unlink-call n p)

unlinked-Removed :
    (t : Threads) (u : ThreadUid) → Removed t (write (unlinked t u) u (set_state old)) u
unlinked-Removed t u = record { next = λ j. ground arith; prev = λ j. ground arith }

state-unlinked :
    (t : Threads) (u j : ThreadUid)
    → (write (unlinked t u) u (set_state old) j).state ≡ (if u == j then old else (t j).state)
state-unlinked t u j = ground arith

sans_links-unlinked :
    (t : Threads) (u j : ThreadUid)
    → sans_links (write (unlinked t u) u (set_state old) j) ≡ sans_links (t j)
sans_links-unlinked t u j =
    let t1 = write t (t u).sched_info.next (set_prev (t u).sched_info.prev) in
    sans_links-write (unlinked t u) u j (set_state old) (λ _. refl)
    ∙ sans_links-write t1 (t u).sched_info.prev j (set_next (t1 u).sched_info.next) (λ _. refl)
    ∙ sans_links-write t (t u).sched_info.next j (set_prev (t u).sched_info.prev) (λ _. refl)

-- What `scheduler_remove` leaves behind: the queue without the thread, and everything but the
-- scheduler's own fields as it was.
pub record Removes (k k' : Kernel) (u : ThreadUid) (q : List ThreadUid) : Type 0 where
  pub call : scheduler_remove u k ≡ done (tt, k')
  pub queue : Schedules k' (erase u q)
  pub stopped : (k'.threads u).state ≡ old
  pub untouched : (j : ThreadUid) → sans_links (k'.threads j) ≡ sans_links (k.threads j)
  pub rest : k ≡ record k' { threads = k.threads; active_thread = k.active_thread }

module _ (k : Kernel) (u : ThreadUid) (q : List ThreadUid) (s : Schedules k q)
    (inside : has u q ≡ true) (may : (not (u == k.active_thread) || k.locked) ≡ true) where
  -- With the circle of the threads that are left, the rest of the queue's properties follow.
  left_over :
      (t : Threads) (a : ThreadUid)
      → scheduler_remove u k ≡ done (tt, record k { threads = t; active_thread = a })
      → Ring t a (erase u q)
      → ((j : ThreadUid) → (t j).state ≡ (if u == j then old else (k.threads j).state))
      → ((j : ThreadUid) → sans_links (t j) ≡ sans_links (k.threads j))
      → (k' : Kernel) × Removes k k' u q
  left_over t a call ring state same = (
    record k { threads = t; active_thread = a },
    record {
      call = call;
      queue = record {
        ring = ring;
        distinct = Distinct-erase u q s.distinct;
        live = λ j h. s.live j (ground (arith, has-erase j u q s.distinct));
        states = λ j h. ground (arith, has-erase j u q s.distinct, state j, s.states j);
        complete = λ j l h. ground (arith, has-erase j u q s.distinct, state j, s.complete j);
      };
      stopped = ground (arith, state u);
      untouched = same;
      rest = refl;
    },
  )

-- The neighbours of a thread in the queue are in it.
next_inside :
    (t : Threads) (a u : ThreadUid) (xs : List ThreadUid)
    → Linked t a xs a
    → has u (a ∷ xs) ≡ true
    → has (t u).sched_info.next (a ∷ xs) ≡ true
next_inside t a u xs l h = has-next t u a a xs l h

prev_inside :
    (t : Threads) (a u : ThreadUid) (xs : List ThreadUid)
    → Linked t a xs a
    → has u (a ∷ xs) ≡ true
    → has (t u).sched_info.prev (a ∷ xs) ≡ true
prev_inside t a u xs l h = elim (Bool-cases (u == a)) [
  | inl e ↦
      subst (λ v. has (t v).sched_info.prev (a ∷ xs) ≡ true) (sym ((==_iff u a).0 e))
        (has-prev t a a xs l)
  | inr e ↦ has-prev_inside t u a a xs l (ground arith)
]

module _ (k : Kernel) (u a : ThreadUid) where
  -- The only thread.
  remove_only :
      (s : Schedules k (a ∷ []))
      → has u (a ∷ []) ≡ true
      → (not (u == k.active_thread) || k.locked) ≡ true
      → (k' : Kernel) × Removes k k' u (a ∷ [])
  unfolding erase
  remove_only s h may =
      left_over k u (a ∷ []) s h may (write k.threads u (set_state old)) 0
        (remove_only-call k u (s.live u h) (s.states u h) may (
          subst (λ v. ((k.threads v).sched_info.next == v) ≡ true) (sym same)
            (ground (arith, s.ring))))
        (rw hit refl) (λ j. ground arith)
        (λ j. sans_links-write k.threads u j (set_state old) (λ _. refl))
    where
      hit : (u == a) ≡ true
      hit = ground arith

      same : u ≡ a
      same = (==_iff u a).0 hit

  module _ (xs : List ThreadUid) (s : Schedules k (a ∷ xs)) (h : has u (a ∷ xs) ≡ true)
      (may : (not (u == k.active_thread) || k.locked) ≡ true) where
    remove_with :
        ((k.threads u).sched_info.next == u) ≡ false
        → Ring
            (write (unlinked k.threads u) u (set_state old))
            (if k.active_thread == u then (k.threads u).sched_info.next else k.active_thread)
            (erase u (a ∷ xs))
        → (k' : Kernel) × Removes k k' u (a ∷ xs)
    remove_with ne ring =
        left_over k u (a ∷ xs) s h may _ _
          (remove_linked-call k u (s.live u h) (s.states u h) may ne
            (s.live (k.threads u).sched_info.next (next_inside k.threads a u xs s.ring.1 h))
            (s.live (k.threads u).sched_info.prev (prev_inside k.threads a u xs s.ring.1 h)))
          ring (state-unlinked k.threads u) (sans_links-unlinked k.threads u)

    -- A thread behind the first.
    remove_behind : (u == a) ≡ false → (k' : Kernel) × Removes k k' u (a ∷ xs)
    unfolding erase
    remove_behind ne =
        let inside : has u xs ≡ true = ground arith in
        remove_with (next-ne k.threads u a a xs s.ring.1 s.distinct.1 s.distinct.0 inside) (
          rw ne (
            ground (arith, s.ring.0),
            Linked-remove k.threads _ u a a xs (unlinked-Removed k.threads u) s.ring.1 s.distinct
                s.distinct.0 inside,
          ))

  -- The first of several threads.
  module _ (x : ThreadUid) (ys : List ThreadUid) (s : Schedules k (a ∷ x ∷ ys)) (same : u ≡ a) where
    first-next : (k.threads u).sched_info.next ≡ x
    first-next = subst (λ v. (k.threads v).sched_info.next ≡ x) (sym same) s.ring.1.0.0

    rotated-Distinct : Distinct (x ∷ ys ++ a ∷ [])
    rotated-Distinct = Distinct-snoc a (x ∷ ys) s.distinct.1 s.distinct.0

    first_out : Linked (write (unlinked k.threads u) u (set_state old)) x ys x
    first_out =
        let l =
          Linked-remove k.threads _ u x x (ys ++ a ∷ []) (unlinked-Removed k.threads u)
            (Linked-rotate k.threads a x ys s.ring.1) rotated-Distinct rotated-Distinct.0
            (ground (arith, has-snoc u a ys)) in
        let e : erase u (ys ++ a ∷ []) ≡ ys =
          subst (λ v. erase v (ys ++ a ∷ []) ≡ ys) (sym same)
            (erase-snoc a ys (ground (arith, s.distinct.0))) in
        subst (λ zs. Linked (write (unlinked k.threads u) u (set_state old)) x zs x) e l

    remove_first :
        (not (u == k.active_thread) || k.locked) ≡ true
        → (k' : Kernel) × Removes k k' u (a ∷ x ∷ ys)
    unfolding erase
    remove_first may =
        let hit : (u == a) ≡ true = (==_iff u a).1 same in
        let first : k.active_thread ≡ a = s.ring.0 in
        remove_with (x ∷ ys) s (ground arith) may (ground (arith, first-next, s.distinct.0))
          (rw hit (ground (arith, first, first-next), first_out))

-- `scheduler_remove` of a thread in the queue, which is the running one only if the scheduler is
-- locked, takes it out of the queue, and changes nothing but the scheduler's fields. If it was the
-- first, the next one is active now.
pub scheduler_remove-Removes :
    (k : Kernel) (u : ThreadUid) (q : List ThreadUid)
    → Schedules k q
    → has u q ≡ true
    → (not (u == k.active_thread) || k.locked) ≡ true
    → (k' : Kernel) × Removes k k' u q
scheduler_remove-Removes k u [] s h may = absurd (false≢true h)
scheduler_remove-Removes k u (a ∷ []) s h may = remove_only k u a s h may
scheduler_remove-Removes k u (a ∷ x ∷ ys) s h may = elim (Bool-cases (u == a)) [
  | inl hit ↦ remove_first k u a x ys s ((==_iff u a).0 hit) may
  | inr ne ↦ remove_behind k u a (x ∷ ys) s h may ne
]
