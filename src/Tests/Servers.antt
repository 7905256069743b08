-- ===== src/Tests/Servers.antt =====
-- A tree with two nodes below the root, and a table without open files.
use horizon_microkernel.Prelude.{
  ℕ, ◌≡◌, ◌⊎◌, false, none, some, ◌==◌, if◌then◌else◌, arith, refl, List, [], ◌∷◌,
}
use horizon_microkernel.User.Vfs.{
  Tree, node_file, node_dir, node_virt, node_find, FileTable, full, file_open,
}
use horizon_microkernel.User.Vfs.Walk.{Reaches, path_of, node_find-Reaches}
use horizon_microkernel.User.Vfs.Open.{OpensAt, file_open-Opens}

abbrev a_b : Tree
a_b = record {
  nodes = λ i.
      if i == 0
      then record {
        name = [];
        node_type = node_virt;
        owner = 0;
        uid = 0;
        next = none;
        children = some 1;
      }
      else if i == 1
      then record {
        name = 97 ∷ [];
        node_type = node_dir;
        owner = 7;
        uid = 1;
        next = none;
        children = some 2;
      }
      else record {
        name = 98 ∷ [];
        node_type = node_file;
        owner = 7;
        uid = 2;
        next = none;
        children = none;
      };
  allocated = 3;
}

abbrev no_answer : ℕ → ℕ → List ℕ → ℕ × ℕ
no_answer owner uid name = (0, 0)

a_b-Reaches : Reaches a_b 0 ((97 ∷ []) ∷ (98 ∷ []) ∷ []) 2
a_b-Reaches = (
  (refl, tt),
  (
    1,
    0,
    omega arith,
    (([], refl), refl),
    ((refl, tt), (2, 0, omega arith, (([], refl), refl), refl)),
  ),
)

node_find-Reaches_example :
    node_find no_answer 3 a_b 0 (path_of (97 ∷ []) ((98 ∷ []) ∷ [])) false ≡ some (some 2, a_b)
node_find-Reaches_example =
    node_find-Reaches no_answer a_b false 3 0 2 97 [] ((98 ∷ []) ∷ []) a_b-Reaches (omega arith)

abbrev none_open : FileTable
none_open = record { count = 0; nodes = λ i. none }

file_open-Opens_example :
    ((none_open.count ≡ 8) × (file_open none_open 2 ≡ full))
    ⊎ ((k : ℕ) × (now : FileTable) × OpensAt none_open 2 k now)
file_open-Opens_example = file_open-Opens none_open 2 refl
