-- ===== src/User/Vfs.antt =====
-- user/vfsd-all: the tree of nodes and the tables of open files of the file system server. A pointer to a
-- node is the number of its allocation, `none` for NULL. A path is the list of its bytes. A file system
-- answers a request about a name with a message: what it answers is the parameter `ask`, which gives the
-- result code and the first argument for an owner, the UID of the directory and the name.
pub mod Walk
pub mod Open
use horizon_microkernel.Prelude.{
  ℕ, zero, suc, ◌+◌, ◌-◌, ◌%◌, ◌^◌, Bool, true, false, not, ◌&&◌, Option, none, some, ◌==◌, ltb,
  leb, if◌then◌else◌, update, List, [], ◌∷◌,
}

pub data NodeType : Type 0 where
  node_file node_dir node_virt node_mount : NodeType

abbrev pub is_virt : NodeType → Bool
is_virt node_virt = true
is_virt t = false

pub record Node : Type 0 where
  pub name : List ℕ
  pub node_type : NodeType
  pub owner : ℕ
  pub uid : ℕ
  pub next : Option ℕ
  pub children : Option ℕ

-- The nodes, and how many have been allocated.
pub record Tree : Type 0 where
  pub nodes : ℕ → Node
  pub allocated : ℕ

abbrev pub slash : ℕ
slash = 47

-- `memset` makes the type 0, that of a file, and the UID 0.
unfoldable pub node_add : Tree → ℕ → List ℕ → ℕ × Tree
node_add t parent name =
    let node : Node = record {
      name = name;
      node_type = node_file;
      owner = (t.nodes parent).owner;
      uid = 0;
      next = (t.nodes parent).children;
      children = none;
    } in
    let added = update t.nodes t.allocated node in
    (
      t.allocated,
      record {
        nodes = update added parent (record (added parent) { children = some t.allocated });
        allocated = t.allocated + 1;
      },
    )

abbrev pub set_node : Tree → ℕ → Node → Tree
set_node t i node = record t { nodes = update t.nodes i node }

-- `memcmp(curr->name, path, complen) == 0`, where the bytes of the component are not zero.
unfoldable pub same_start : List ℕ → List ℕ → Bool
same_start name [] = true
same_start [] (c ∷ cs) = false
same_start (b ∷ bs) (c ∷ cs) = (b == c) && same_start bs cs

-- The loop over the children; one that goes on for ever runs out of fuel.
unfoldable pub find_child : ℕ → Tree → Option ℕ → List ℕ → Option (Option ℕ)
unfolding same_start
find_child zero t curr component = none
find_child (suc fuel) t none component = some none
find_child (suc fuel) t (some i) component =
    let rest = find_child fuel t (t.nodes i).next component in
    if same_start (t.nodes i).name component then some (some i) else rest

-- The component that a path begins with, and the path behind the slash, `none` if there is no slash.
unfoldable pub split_path : List ℕ → List ℕ × Option (List ℕ)
split_path [] = ([], none)
split_path (c ∷ cs) =
    let rest = split_path cs in if c == slash then ([], some cs) else (c ∷ rest.0, rest.1)

module _ (ask : ℕ → ℕ → List ℕ → ℕ × ℕ) where
  unfoldable pub node_request : Tree → ℕ → List ℕ → Bool → Option ℕ × Tree
  unfolding node_add
  node_request t parent name virt =
      let (node, added) = node_add t parent name in
      let (code, arg) = ask (t.nodes parent).owner (t.nodes parent).uid name in
      let type = if arg == 0 then node_file else node_dir in
      if virt && is_virt (t.nodes parent).node_type
      then (some node, set_node added node (record (added.nodes node) { node_type = node_virt }))
      else if (t.nodes parent).owner == 0
      then (none, t)
      else if code == 2 ^ 32 - 1
      then (none, t)
      else (
        some node,
        set_node added node (record (added.nodes node) { uid = code; node_type = type }),
      )

  -- The child that a round of `node_find` goes on with.
  abbrev pub found_or_asked :
      Tree → ℕ → List ℕ → Bool → Option (Option ℕ) → Option (Option ℕ × Tree)
  found_or_asked t parent component virt none = none
  found_or_asked t parent component virt (some (some i)) = some (some i, t)
  found_or_asked t parent component virt (some none) = some (node_request t parent component virt)

  -- `while (parent && path != path_end + 1)`
  unfoldable pub walk : ℕ → Tree → Option ℕ → Option (List ℕ) → Bool → Option (Option ℕ × Tree)
  unfolding node_request
  walk zero t parent path virt = none
  walk (suc fuel) t none path virt = some (none, t)
  walk (suc fuel) t (some p) none virt = some (some p, t)
  walk (suc fuel) t (some p) (some path) virt =
      let part = split_path path in
      elim (found_or_asked t p part.0 virt
        (find_child (t.allocated + 1) t (t.nodes p).children part.0)) [
          | none ↦ none
          | some (curr, now) ↦ walk fuel now curr part.1 virt
        ]

  unfoldable pub node_find : ℕ → Tree → ℕ → List ℕ → Bool → Option (Option ℕ × Tree)
  node_find fuel t parent [] virt = some (some parent, t)
  node_find fuel t parent (c ∷ cs) virt = walk fuel t (some parent) (some (c ∷ cs)) virt

  abbrev pub mounted : Option (Option ℕ × Tree) → List ℕ → ℕ → Option (Option ℕ × Tree)
  mounted none name owner = none
  mounted (some (none, t)) name owner = some (none, t)
  mounted (some (some parent, t)) name owner =
      let (node, added) = node_add t parent name in
      let made = record (added.nodes node) { node_type = node_mount; owner = owner } in
      some (
        if is_virt (t.nodes parent).node_type
        then (some node, set_node added node made)
        else (none, t))

  -- The path is the part behind the first slash; `root` is the number of the root node.
  unfoldable pub mount_add : ℕ → Tree → ℕ → List ℕ → List ℕ → ℕ → Option (Option ℕ × Tree)
  unfolding node_find
  mount_add fuel t root path name owner = mounted (node_find fuel t root path true) name owner

-- The open files of a process.
pub record FileTable : Type 0 where
  pub count : ℕ
  pub nodes : ℕ → Option ℕ

abbrev pub is_open : Option ℕ → Bool
is_open none = false
is_open (some i) = true

-- The first slot from `i` on that is free, with the number of slots that are left.
unfoldable pub free_slot : ℕ → FileTable → ℕ → Option ℕ
free_slot zero t i = none
free_slot (suc left) t i =
    let rest = free_slot left t (i + 1) in if is_open (t.nodes i) then rest else some i

-- The result is `none` for -1. Without a free slot the write goes to the slot before the array, which is
-- the count; it is `broken` then.
pub data Opened : Type 0 where
  slot : ℕ → FileTable → Opened
  full : Opened
  broken : Opened

unfoldable pub file_open : FileTable → ℕ → Opened
unfolding free_slot
file_open t node = if leb 8 t.count then full else elim (free_slot 8 t 0) [
  | none ↦ broken
  | some i ↦ slot i (record { count = t.count + 1; nodes = update t.nodes i (some node) })
]
