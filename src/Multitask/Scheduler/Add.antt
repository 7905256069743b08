-- ===== src/Multitask/Scheduler/Add.antt =====
-- `scheduler_add` appends a thread to the queue.
use mathlib.Core.Path.{subst}
use horizon_microkernel.Prelude.Members.{has-snoc, Distinct-snoc}
use horizon_microkernel.Prelude.{
  write, Bool-cases, inl, inr, sym, ==_iff, ◌≡◌, refl, ◌∙◌, true, false, ◌==◌, if◌then◌else◌, arith,
  List, [], ◌∷◌, ◌++◌, has, some,
}
use horizon_microkernel.Prelude.Outcome.{done}
use horizon_microkernel.State.{
  Kernel, ThreadUid, active, is_active, uid_pid, scheduler_timeslice, set_state, set_timeslice,
  set_next, set_prev,
}
use horizon_microkernel.Multitask.Table.{Live, Live-pid, thread_get-Live}
use horizon_microkernel.Multitask.Scheduler.{scheduler_add, link_alone, link_last}
use horizon_microkernel.Multitask.Scheduler.Ring.{
  Threads, Linked, Inserted, Linked-insert, has-prev,
}
use horizon_microkernel.Multitask.Scheduler.Queue.{Schedules, sans_links, sans_links-write}

-- `t` with the writes of `scheduler_add` to the thread itself.
abbrev activated : Threads → ThreadUid → Threads
activated t u = write (write t u (set_state active)) u (set_timeslice scheduler_timeslice)

abbrev alone : Threads → ThreadUid → Threads
alone t u = write (write t u (set_next u)) u (set_prev u)

abbrev last : Threads → ThreadUid → ThreadUid → Threads
last t u first =
    let t1 = write t u (set_next first) in
    let t2 = write t1 u (set_prev (t1 first).sched_info.prev) in
    write (write t2 first (set_prev u)) (t first).sched_info.prev (set_next u)

link_last-call :
    (k : Kernel) (u first : ThreadUid)
    → Live k first
    → Live k (k.threads first).sched_info.prev
    → link_last (some u) u first k ≡ done (tt, record k { threads = last k.threads u first })
unfolding link_last
link_last-call k u first l p =
    rw (thread_get-Live k first l, link_last) (rw (thread_get-Live k _ p) refl)

module _ (k : Kernel) (u : ThreadUid) (live : Live k u)
    (idle : is_active (k.threads u).state ≡ false) where
  add_alone-call :
      k.active_thread ≡ 0
      → scheduler_add u k
        ≡ done (tt, record k { threads = alone (activated k.threads u) u; active_thread = u })
  unfolding scheduler_add link_alone
  add_alone-call e = rw (thread_get-Live k u live, scheduler_add) (rw (idle, e))

  add_last-call :
      (uid_pid k.active_thread == 0) ≡ false
      → Live k k.active_thread
      → Live k ((activated k.threads u) k.active_thread).sched_info.prev
      → scheduler_add u k
        ≡ done (tt, record k { threads = last (activated k.threads u) u k.active_thread })
  unfolding scheduler_add
  add_last-call ne l p =
      let call =
        link_last-call (record k { threads = activated k.threads u }) u k.active_thread l p in
      rw (thread_get-Live k u live, scheduler_add) (rw (idle, ne) call)

  -- The same with a name for the active thread.
  add_last_at :
      (a : ThreadUid)
      → k.active_thread ≡ a
      → Live k a
      → Live k ((activated k.threads u) a).sched_info.prev
      → scheduler_add u k ≡ done (tt, record k { threads = last (activated k.threads u) u a })
  add_last_at a e l p =
      subst
        (λ v.
          scheduler_add u k ≡ done (tt, record k { threads = last (activated k.threads u) u v }))
        e
        (add_last-call (ground (arith, Live-pid k a l)) (subst (λ v. Live k v) (sym e) l)
          (subst (λ v. Live k ((activated k.threads u) v).sched_info.prev) (sym e) p))

-- What the writes come to, thread by thread.
module _ (t : Threads) (u first : ThreadUid) (other : (u == first) ≡ false)
    (behind : (u == (t first).sched_info.prev) ≡ false) where
  last-Inserted : Inserted t (last (activated t u) u first) u first
  last-Inserted = record { next = λ j. ground arith; prev = λ j. ground arith }

state-last :
    (t : Threads) (u first j : ThreadUid)
    → (last (activated t u) u first j).state ≡ (if u == j then active else (t j).state)
state-last t u first j = ground arith

state-alone :
    (t : Threads) (u j : ThreadUid)
    → (alone (activated t u) u j).state ≡ (if u == j then active else (t j).state)
state-alone t u j = ground arith

sans_links-activated :
    (t : Threads) (u j : ThreadUid) → sans_links (activated t u j) ≡ sans_links (t j)
sans_links-activated t u j =
    let t1 = write t u (set_state active) in
    sans_links-write t1 u j (set_timeslice scheduler_timeslice) (λ _. refl)
    ∙ sans_links-write t u j (set_state active) (λ _. refl)

sans_links-last :
    (t : Threads) (u first j : ThreadUid) → sans_links (last t u first j) ≡ sans_links (t j)
sans_links-last t u first j =
    let t1 = write t u (set_next first) in
    let p = (t1 first).sched_info.prev in
    let t2 = write t1 u (set_prev p) in
    let t3 = write t2 first (set_prev u) in
    sans_links-write t3 (t first).sched_info.prev j (set_next u) (λ _. refl)
    ∙ sans_links-write t2 first j (set_prev u) (λ _. refl)
    ∙ sans_links-write t1 u j (set_prev p) (λ _. refl)
    ∙ sans_links-write t u j (set_next first) (λ _. refl)

sans_links-alone : (t : Threads) (u j : ThreadUid) → sans_links (alone t u j) ≡ sans_links (t j)
sans_links-alone t u j =
    let t1 = write t u (set_next u) in
    sans_links-write t1 u j (set_prev u) (λ _. refl)
    ∙ sans_links-write t u j (set_next u) (λ _. refl)

-- What `scheduler_add` leaves behind: the queue with the thread at its end, and everything but the
-- scheduler's own fields as it was.
pub record Adds (k k' : Kernel) (u : ThreadUid) (q : List ThreadUid) : Type 0 where
  pub call : scheduler_add u k ≡ done (tt, k')
  pub queue : Schedules k' (q ++ u ∷ [])
  pub untouched : (j : ThreadUid) → sans_links (k'.threads j) ≡ sans_links (k.threads j)
  pub rest : k ≡ record k' { threads = k.threads; active_thread = k.active_thread }

module _ (k : Kernel) (u : ThreadUid) (live : Live k u)
    (idle : is_active (k.threads u).state ≡ false) where
  private_new : (q : List ThreadUid) → Schedules k q → has u q ≡ false
  private_new q s = ground (arith, s.states u)

  add_to_empty : Schedules k [] → (k' : Kernel) × Adds k k' u []
  add_to_empty s = (
    record k { threads = alone (activated k.threads u) u; active_thread = u },
    record {
      call = add_alone-call k u live idle s.ring;
      queue = record {
        ring = ground arith;
        distinct = ground arith;
        live = λ j h. let e : j ≡ u = ground arith in rw e live;
        states = λ j h. ground (arith, state-alone k.threads u j);
        complete = λ j l h. ground (arith, state-alone k.threads u j, s.complete j);
      };
      untouched =
          λ j. sans_links-alone (activated k.threads u) u j ∙ sans_links-activated k.threads u j;
      rest = refl;
    },
  )

  -- The queue starts with `a`; its last thread is the one before `a`.
  module _ (a : ThreadUid) (xs : List ThreadUid) (s : Schedules k (a ∷ xs)) where
    other : (u == a) ≡ false
    other = ground (arith, private_new (a ∷ xs) s)

    behind : has (k.threads a).sched_info.prev (a ∷ xs) ≡ true
    behind = has-prev k.threads a a xs s.ring.1

    not_behind : (u == (k.threads a).sched_info.prev) ≡ false
    not_behind = ground (arith, private_new (a ∷ xs) s, behind)

    after : Threads
    after = last (activated k.threads u) u a

    after_ring : Linked after a (xs ++ u ∷ []) a
    unfolding after
    after_ring =
        Linked-insert k.threads after u a a xs (last-Inserted k.threads u a other not_behind)
          s.ring.1 s.distinct (private_new (a ∷ xs) s) s.distinct.0 other

    after-call : scheduler_add u k ≡ done (tt, record k { threads = after })
    unfolding after
    after-call =
        let l : Live k a = s.live a (ground arith) in
        let p : (activated k.threads u a).sched_info.prev ≡ (k.threads a).sched_info.prev =
          ground (arith, other) in
        add_last_at k u live idle a s.ring.0 l (rw p (s.live (k.threads a).sched_info.prev behind))

    state-after :
        (j : ThreadUid) → (after j).state ≡ (if u == j then active else (k.threads j).state)
    unfolding after
    state-after j = state-last k.threads u a j

    sans_links-after : (j : ThreadUid) → sans_links (after j) ≡ sans_links (k.threads j)
    unfolding after
    sans_links-after j =
        sans_links-last (activated k.threads u) u a j ∙ sans_links-activated k.threads u j

    Live-after : (j : ThreadUid) → has j (a ∷ xs ++ u ∷ []) ≡ true → Live k j
    Live-after j h = elim (Bool-cases (j == u)) [
      | inl e ↦ subst (λ v. Live k v) (sym ((==_iff j u).0 e)) live
      | inr ne ↦ s.live j (ground (arith, has-snoc j u (a ∷ xs)))
    ]

    add_to_some : (k' : Kernel) × Adds k k' u (a ∷ xs)
    add_to_some = (
      record k { threads = after },
      record {
        call = after-call;
        queue = record {
          ring = (s.ring.0, after_ring);
          distinct = Distinct-snoc u (a ∷ xs) s.distinct (private_new (a ∷ xs) s);
          live = Live-after;
          states = λ j h. ground (arith, state-after j, has-snoc j u (a ∷ xs), s.states j);
          complete = λ j l h. ground (arith, state-after j, has-snoc j u (a ∷ xs), s.complete j);
        };
        untouched = sans_links-after;
        rest = refl;
      },
    )

-- `scheduler_add` of a live thread that is not active appends it to the queue, and changes nothing
-- but the scheduler's fields.
pub scheduler_add-Adds :
    (k : Kernel) (u : ThreadUid) (q : List ThreadUid)
    → Schedules k q
    → Live k u
    → is_active (k.threads u).state ≡ false
    → (k' : Kernel) × Adds k k' u q
scheduler_add-Adds k u [] s live idle = add_to_empty k u live idle s
scheduler_add-Adds k u (a ∷ xs) s live idle = add_to_some k u live idle a xs s
