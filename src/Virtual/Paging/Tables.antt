-- ===== src/Virtual/Paging/Tables.antt =====
-- The mapping that a directory and its tables stand for, and how writes to them change it.
use horizon_microkernel.Prelude.{
  ℕ, ◌+◌, ◌*◌, ◌/◌, ◌%◌, ◌<◌, ◌≡◌, ◌≢◌, true, false, ◌&&◌, Option, none, some, ◌==◌, if◌then◌else◌,
  arith, refl, Bool-cases, inl, inr, sym, ◌∙◌, ap,
}
use horizon_microkernel.Virtual.Paging.{Pages, PageEntry, set_page, clear_page}

-- The frame that the page number `n` is mapped to, in the directory in the frame `d`.
abbrev pub lookup : Pages → ℕ → ℕ → Option ℕ
lookup pages d n =
    if (pages d (n / 1024)).present && (pages (pages d (n / 1024)).frame (n % 1024)).present
    then some (pages (pages d (n / 1024)).frame (n % 1024)).frame
    else none

-- The entries of a directory but the last, which points to itself, point to tables in frames of their own.
pub record IsTree (pages : Pages) (d : ℕ) : Type 0 where
  pub apart : (i : ℕ) → i < 1023 → (pages d i).present ≡ true → (pages d i).frame ≢ d
  pub distinct :
      (i j : ℕ)
      → i < 1023
      → j < 1023
      → i ≢ j
      → (pages d i).present ≡ true
      → (pages d j).present ≡ true
      → (pages d i).frame ≢ (pages d j).frame

-- A write to the directory that keeps where the entry points to, and then one to the table.
abbrev pub with_page : Pages → ℕ → ℕ → PageEntry → ℕ → PageEntry → Pages
with_page pages d i de t te = set_page (set_page pages d i de) de.frame t te

-- An entry of the directory other than `i`, seen from the entry `i`.
other_table :
    (pages : Pages) (d i n : ℕ)
    → IsTree pages d
    → i < 1023
    → n < 1023 * 1024
    → (n / 1024 == i) ≡ false
    → (pages d i).present ≡ true
    → (pages d (n / 1024)).present ≡ true
    → ((pages d i).frame == d) ≡ false
      × ((pages d (n / 1024)).frame == d) ≡ false
      × ((pages d i).frame == (pages d (n / 1024)).frame) ≡ false
other_table pages d i n tree h l other here there = (
  ground (arith, tree.apart i h here),
  ground (arith, tree.apart (n / 1024) (omega (arith, l)) there),
  ground (
    arith,
    tree.distinct i (n / 1024) h (omega (arith, l)) (λ z. ground (arith, z, other)) here there,
  ),
)

pub with_page-lookup :
    (pages : Pages) (d i t n : ℕ) (de te : PageEntry)
    → IsTree pages d
    → i < 1023
    → t < 1024
    → n < 1023 * 1024
    → (pages d i).present ≡ true
    → de.present ≡ true
    → de.frame ≡ (pages d i).frame
    → te.present ≡ true
    → lookup (with_page pages d i de t te) d n
      ≡ (if n == i * 1024 + t then some te.frame else lookup pages d n)
with_page-lookup pages d i t n de te tree h k l here p f q = elim (Bool-cases (n / 1024 == i)) [
  | inl same ↦
      let apart = tree.apart i h here in
      let e : n / 1024 ≡ i = ground (arith, same) in ground (arith, apart, e, here, p, f, q, k)
  | inr other ↦ elim (Bool-cases (pages d (n / 1024)).present) [
    | inr absent ↦ let apart = tree.apart i h here in ground (arith, apart, absent, other, f, k)
    | inl there ↦
        let (a, b, c) = other_table pages d i n tree h l other here there in
        ground (arith, a, b, c, there, other, f, k)
  ]
]

-- A write to the directory alone that keeps where the entry points to.
pub with_dirent-lookup :
    (pages : Pages) (d i n : ℕ) (de : PageEntry)
    → IsTree pages d
    → i < 1023
    → n < 1023 * 1024
    → (pages d i).present ≡ true
    → de.present ≡ true
    → de.frame ≡ (pages d i).frame
    → lookup (set_page pages d i de) d n ≡ lookup pages d n
with_dirent-lookup pages d i n de tree h l here p f = elim (Bool-cases (n / 1024 == i)) [
  | inl same ↦
      let apart = tree.apart i h here in
      let e : n / 1024 ≡ i = ground (arith, same) in ground (arith, apart, e, here, p, f)
  | inr other ↦ elim (Bool-cases (pages d (n / 1024)).present) [
    | inr absent ↦ ground (arith, absent, other)
    | inl there ↦
        let (a, b, c) = other_table pages d i n tree h l other here there in
        ground (arith, a, b, c, there, other)
  ]
]

-- The frame `f` is neither the directory nor one of its tables.
pub record IsNew (pages : Pages) (d f : ℕ) : Type 0 where
  pub no_dir : f ≢ d
  pub no_table : (i : ℕ) → i < 1023 → (pages d i).present ≡ true → (pages d i).frame ≢ f

-- A new table in the frame that `de` points to, with one entry.
abbrev pub with_table : Pages → ℕ → ℕ → PageEntry → ℕ → PageEntry → Pages
with_table pages d i de t te = set_page (clear_page (set_page pages d i de) de.frame) de.frame t te

lookup_same :
    (pages new : Pages) (d n : ℕ)
    → new d (n / 1024) ≡ pages d (n / 1024)
    → new (pages d (n / 1024)).frame (n % 1024) ≡ pages (pages d (n / 1024)).frame (n % 1024)
    → lookup new d n ≡ lookup pages d n
lookup_same pages new d n e f = rw (e, f) refl

pub lookup_absent :
    (pages : Pages) (d n : ℕ) → (pages d (n / 1024)).present ≡ false → lookup pages d n ≡ none
lookup_absent pages d n h = rw (h) refl

pub with_table-lookup :
    (pages : Pages) (d i t n : ℕ) (de te : PageEntry)
    → IsTree pages d
    → IsNew pages d de.frame
    → i < 1023
    → t < 1024
    → n < 1023 * 1024
    → (pages d i).present ≡ false
    → de.present ≡ true
    → te.present ≡ true
    → lookup (with_table pages d i de t te) d n
      ≡ (if n == i * 1024 + t then some te.frame else lookup pages d n)
with_table-lookup pages d i t n de te tree new h k l absent p q =
    let nd : (de.frame == d) ≡ false = ground (arith, new.no_dir) in
    elim (Bool-cases (n / 1024 == i)) [
      | inl same ↦
          let e : n / 1024 ≡ i = ground (arith, same) in ground (arith, nd, e, absent, p, q, k)
      | inr other ↦ elim (Bool-cases (pages d (n / 1024)).present) [
        | inr free ↦
            let kept : with_table pages d i de t te d (n / 1024) ≡ pages d (n / 1024) =
              ground (arith, nd, other) in
            let elsewhere : (n == i * 1024 + t) ≡ false = ground (arith, other, k) in
            lookup_absent (with_table pages d i de t te) d n (ap (λ x. x.present) kept ∙ free)
            ∙ sym (rw (elsewhere) (lookup_absent pages d n free))
        | inl there ↦
            let nt : ((pages d (n / 1024)).frame == de.frame) ≡ false =
              ground (arith, new.no_table (n / 1024) (omega (arith, l)) there) in
            let td : ((pages d (n / 1024)).frame == d) ≡ false =
              ground (arith, tree.apart (n / 1024) (omega (arith, l)) there) in
            let kept : with_table pages d i de t te d (n / 1024) ≡ pages d (n / 1024) =
              ground (arith, nd, other) in
            let table = (pages d (n / 1024)).frame in
            let kept_table : with_table pages d i de t te table (n % 1024)
                ≡ pages table (n % 1024) =
              ground (arith, nt, new.no_dir, td) in
            let elsewhere : (n == i * 1024 + t) ≡ false = ground (arith, other, k) in
            lookup_same pages (with_table pages d i de t te) d n kept kept_table
            ∙ rw (elsewhere) refl
      ]
    ]

-- A directory in which the entry `i` becomes one that points to a frame of its own is a tree again.
pub with_dirent-IsTree :
    (pages new : Pages) (d i : ℕ) (de : PageEntry)
    → ((j : ℕ) → new d j ≡ (if i == j then de else pages d j))
    → IsTree pages d
    → de.frame ≢ d
    → ((j : ℕ) → j < 1023 → i ≢ j → (pages d j).present ≡ true → (pages d j).frame ≢ de.frame)
    → IsTree new d
with_dirent-IsTree pages new d i de same tree no_dir no_other = record {
  apart = λ j k e z. elim (Bool-cases (i == j)) [
    | inl hit ↦ no_dir (ground (arith, same j, hit, z))
    | inr other ↦
        tree.apart j k (ground (arith, same j, other, e)) (ground (arith, same j, other, z))
  ];
  distinct = λ j k a b c e g z. elim (Bool-cases (i == j)) [
    | inl hit ↦
        no_other k b (ground (arith, hit, c)) (ground (arith, same k, hit, c, g))
          (ground (arith, same j, same k, hit, c, z))
    | inr other ↦ elim (Bool-cases (i == k)) [
      | inl hit ↦
          no_other j a (ground (arith, other)) (ground (arith, same j, other, e))
            (ground (arith, same j, same k, hit, other, z))
      | inr neither ↦
          tree.distinct j k a b c (ground (arith, same j, other, e))
            (ground (arith, same k, neither, g)) (ground (arith, same j, same k, other, neither, z))
    ]
  ];
}
