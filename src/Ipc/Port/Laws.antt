-- ===== src/Ipc/Port/Laws.antt =====
-- A port names one thread at one point of its life.
use mathlib.Core.Path.{subst}
use horizon_microkernel.Prelude.{
  sym, ap, ◌∙◌, inl, inr, ℕ, ◌+◌, ◌^◌, ◌<◌, ◌≡◌, ◌≢◌, ◌↔◌, ◌⊎◌, refl, Bool, true, false, not, ◌&&◌,
  ◌||◌, some, ◌==◌, if◌then◌else◌, arith,
}
use horizon_microkernel.Prelude.Outcome.{Outcome, done, halted, fault}
use horizon_microkernel.State.{Kernel, ThreadUid, uid_pid, uid_tid, thread_uid}
use horizon_microkernel.Multitask.Table.{
  thread_get, Live, Live-process, thread_get-Live, process_get-LiveProcess, thread_live,
}
use horizon_microkernel.Ipc.Port.{
  iport_any, fmt_pid, fmt_pvn, fmt_tid, fmt_tvn, port_fmt, unversioned, port_from_uid,
  check_versions, port_to_uid, port_compare,
}

-- The blocks of a thread carry its IDs, and versions of 8 bits, not both zero.
pub record HasIds (k : Kernel) (u : ThreadUid) : Type 0 where
  pub small : u < 2 ^ 16
  pub pid : (k.processes (uid_pid u)).pid ≡ uid_pid u
  pub tid : (k.threads u).tid ≡ uid_tid u
  pub pvn : (k.processes (uid_pid u)).version < 256
  pub tvn : (k.threads u).version < 256
  pub versioned : 0 < (k.processes (uid_pid u)).version + (k.threads u).version

abbrev port_of : Kernel → ThreadUid → ℕ
port_of k u =
    port_fmt (uid_pid u) (k.processes (uid_pid u)).version (uid_tid u) (k.threads u).version

from_uid-call :
    (k : Kernel) (u : ThreadUid) → Live k u → HasIds k u → port_from_uid u k ≡ done (port_of k u, k)
unfolding port_from_uid
from_uid-call k u l i =
    rw (process_get-LiveProcess k (uid_pid u) (Live-process k u l), port_from_uid)
      (rw (thread_get-Live k u l) (rw (i.pid, i.tid) refl))

to_uid-call :
    (k : Kernel) (port parent : ℕ)
    → unversioned port ≡ false
    → Live k (thread_uid (fmt_pid port) (fmt_tid port))
    → port_to_uid port parent k
      ≡ check_versions port (some (thread_uid (fmt_pid port) (fmt_tid port))) k
unfolding port_to_uid
to_uid-call k port parent v l =
    let special : (port == 1 || port == 2 ^ 18 + 1) ≡ false = ground arith in
    rw (special, v) (rw (thread_get-Live k _ l) refl)

check_versions-call :
    (k : Kernel) (port u : ℕ)
    → Live k u
    → check_versions port (some u) k
      ≡ done (
        (if not ((k.processes (uid_pid u)).version == fmt_pvn port)
              || not ((k.threads u).version == fmt_tvn port)
            then 0
            else thread_uid (fmt_pid port) (fmt_tid port)),
        k,
      )
unfolding check_versions
check_versions-call k port u l =
    rw (process_get-LiveProcess k (uid_pid u) (Live-process k u l), check_versions) refl

-- The fields of the port of a thread.
record Fields (k : Kernel) (u : ThreadUid) : Type 0 where
  versioned : unversioned (port_of k u) ≡ false
  uid : thread_uid (fmt_pid (port_of k u)) (fmt_tid (port_of k u)) ≡ u
  pvn : fmt_pvn (port_of k u) ≡ (k.processes (uid_pid u)).version
  tvn : fmt_tvn (port_of k u) ≡ (k.threads u).version

fields : (k : Kernel) (u : ThreadUid) → HasIds k u → Fields k u
fields k u i = record {
  versioned =
      let a : fmt_pvn (port_of k u) ≡ (k.processes (uid_pid u)).version =
        omega (arith, i.pvn, i.tvn) in
      let b : fmt_tvn (port_of k u) ≡ (k.threads u).version = omega (arith, i.pvn, i.tvn) in
      rw (a, b) (ground (arith, i.versioned));
  uid = omega (arith, i.small, i.pvn, i.tvn);
  pvn = omega (arith, i.pvn, i.tvn);
  tvn = omega (arith, i.pvn, i.tvn);
}

-- The port of a live thread names that thread, whatever process asks.
pub port_to_uid-port_from_uid :
    (k : Kernel) (u : ThreadUid) (parent : ℕ)
    → Live k u
    → HasIds k u
    → (port : ℕ) × (port_from_uid u k ≡ done (port, k)) × (port_to_uid port parent k ≡ done (u, k))
port_to_uid-port_from_uid k u parent l i = (port_of k u, from_uid-call k u l i, back)
  where
    f : Fields k u
    f = fields k u i

    named : Live k (thread_uid (fmt_pid (port_of k u)) (fmt_tid (port_of k u)))
    named = subst (λ v. Live k v) (sym f.uid) l

    checked : check_versions (port_of k u) (some u) k ≡ done (u, k)
    checked =
        check_versions-call k (port_of k u) u l
        ∙ ap (λ v. done (v, k)) (ground (arith, f.pvn, f.tvn, f.uid))

    back : port_to_uid (port_of k u) parent k ≡ done (u, k)
    back =
        to_uid-call k (port_of k u) parent f.versioned named
        ∙ subst (λ v. check_versions (port_of k u) (some v) k ≡ done (u, k)) (sym f.uid) checked

-- A versioned port whose thread cannot be looked up names nothing.
to_uid-dead :
    (k : Kernel) (port parent u : ℕ)
    → unversioned port ≡ false
    → thread_live k.block_map k.processes (thread_uid (fmt_pid port) (fmt_tid port)) ≢ done true
    → port_to_uid port parent k ≡ done (u, k)
    → u ≡ 0
unfolding port_to_uid thread_get check_versions
to_uid-dead k port parent u v dead e = ground arith

live_or_dead : (o : Outcome Bool) → (o ≡ done true) ⊎ (o ≢ done true)
live_or_dead (done true) = inl refl
live_or_dead (done false) = inr (λ e. cc)
live_or_dead halted = inr (λ e. cc)
live_or_dead fault = inr (λ e. cc)

-- What a versioned port that is not stale is.
module _ (k : Kernel) (port parent u : ℕ) (small : port < 2 ^ 32) (v : unversioned port ≡ false)
    (e : port_to_uid port parent k ≡ done (u, k)) (ne : u ≢ 0) where
  abbrev named_uid : ThreadUid
  named_uid = thread_uid (fmt_pid port) (fmt_tid port)

  module _ (l : Live k named_uid) where
    checked_versions :
        (u ≡ named_uid)
        × ((k.processes (uid_pid named_uid)).version ≡ fmt_pvn port)
        × ((k.threads named_uid).version ≡ fmt_tvn port)
    checked_versions =
        let c = sym e ∙ to_uid-call k port parent v l ∙ check_versions-call k port named_uid l in
        ground (arith, c, ne)

resolved :
    (k : Kernel) (port parent u : ℕ)
    → port < 2 ^ 32
    → unversioned port ≡ false
    → port_to_uid port parent k ≡ done (u, k)
    → u ≢ 0
    → HasIds k u
    → Live k (thread_uid (fmt_pid port) (fmt_tid port))
    → Live k u × (port_from_uid u k ≡ done (port, k))
resolved k port parent u small v e ne i l =
    let (same, pvn, tvn) = checked_versions k port parent u small v e ne l in
    let lu : Live k u = subst (λ w. Live k w) (sym same) l in
    let pv : (k.processes (uid_pid u)).version ≡ fmt_pvn port =
      subst (λ w. (k.processes (uid_pid w)).version ≡ fmt_pvn port) (sym same) pvn in
    let tv : (k.threads u).version ≡ fmt_tvn port =
      subst (λ w. (k.threads w).version ≡ fmt_tvn port) (sym same) tvn in
    let whole : port_of k u ≡ port = omega (arith, same, pv, tv) in
    (lu, from_uid-call k u lu i ∙ ap (λ x. done (x, k)) whole)

-- Whatever a versioned port resolves to is a live thread whose own port it is: a port with a stale
-- version resolves to nothing.
pub port_to_uid_sound :
    (k : Kernel) (port parent u : ℕ)
    → port < 2 ^ 32
    → unversioned port ≡ false
    → port_to_uid port parent k ≡ done (u, k)
    → u ≢ 0
    → HasIds k u
    → Live k u × (port_from_uid u k ≡ done (port, k))
port_to_uid_sound k port parent u small v e ne i =
    elim (live_or_dead
      (thread_live k.block_map k.processes (thread_uid (fmt_pid port) (fmt_tid port)))) [
        | inr dead ↦ absurd (ne (to_uid-dead k port parent u v dead e))
        | inl l ↦ resolved k port parent u small v e ne i l
      ]

or_comm : (a b : Bool) → (a || b) ≡ (b || a)
or_comm a b = ground arith

==_comm : (a b : ℕ) → (a == b) ≡ (b == a)
==_comm a b = ground arith

-- The test of `port_compare` behind the wildcards, with the fields of the two ports.
same_place :
    (a b : Bool) (pid pid' tid tid' p q : ℕ)
    → (p ≡ q → (pid ≡ pid') × (tid ≡ tid'))
    → ((if a || b then pid == pid' && tid == tid' else p == q) ≡ true)
      ↔ ((pid ≡ pid') × (tid ≡ tid') × ((a ≡ true) ⊎ (b ≡ true) ⊎ (p ≡ q)))
same_place a b pid pid' tid tid' p q same = (λ h. ground (arith, same), λ h. ground arith)

-- Comparing does not depend on the order.
pub port_compare_comm : (p q : ℕ) → port_compare p q ≡ port_compare q p
unfolding port_compare
port_compare_comm p q = rw (
  or_comm (p == 1) (q == 1),
  or_comm (unversioned p) (unversioned q),
  ==_comm (fmt_pid p) (fmt_pid q),
  ==_comm (fmt_tid p) (fmt_tid q),
  ==_comm p q,
)

-- Two ports other than the wildcard are equivalent exactly when they have the same PID and TID,
-- and are equal unless one of them has no version.
pub port_compare_iff :
    (p q : ℕ)
    → p ≢ iport_any
    → q ≢ iport_any
    → (port_compare p q ≡ true) ↔ (
        (fmt_pid p ≡ fmt_pid q)
        × (fmt_tid p ≡ fmt_tid q)
        × ((unversioned p ≡ true) ⊎ (unversioned q ≡ true) ⊎ (p ≡ q)))
unfolding port_compare
port_compare_iff p q np nq =
    let special : (p == 1 || q == 1) ≡ false = ground arith in
    rw special (
      same_place (unversioned p) (unversioned q) (fmt_pid p) (fmt_pid q) (fmt_tid p) (fmt_tid q) p q
        (λ e. (ap fmt_pid e, ap fmt_tid e)))
