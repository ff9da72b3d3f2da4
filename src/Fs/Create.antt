-- ===== src/Fs/Create.antt =====
-- src/kernel/fs/vfs.cpp: `mount`, `init_std` and `create`, which make nodes.
pub mod Rest
pub mod Grown
pub mod Found
use umbra_os.Prelude.{
  ℕ, zero, suc, ◌+◌, ◌-◌, ◌%◌, ◌^◌, Bool, true, false, Option, none, some, ◌==◌, if◌then◌else◌,
  List, [], ◌∷◌, ◌++◌, Outcome, done, fault, out_of_fuel, ◌>>=◌, length,
}
use umbra_os.Prelude.Maps.{update}
use umbra_os.Utils.HashMap
use umbra_os.Utils.HashMap.{StringHashMap}
use umbra_os.Libc.Strings.{Bytes, strcmp}
use umbra_os.Net.Ipv4.{place}
use umbra_os.Fs.Vfs.{
  Vfs, Node, NodeType, file, directory, OpenMode, read_only, write_only, FileDescriptor, FileSystem,
  until_slash, skip_slashes,
}

-- The file system with the static `next_inode`, and the fields `name` and `parent` of each node.
pub record Tree : Type 0 where
  pub vfs : Vfs
  pub next_inode : ℕ
  pub names : ℕ → List ℕ
  pub parents : ℕ → ℕ

-- What the memory that `new` returns holds: the address of the node with an inode number, the table of its
-- children, and what stands behind the empty literal.
pub record Heap : Type 0 where
  pub fresh : ℕ → ℕ
  pub table : ℕ → StringHashMap ℕ
  pub behind : Bytes

-- `strcmp(rest, "")`. The first string ends, and with it the comparison.
unfoldable pub is_last : Bytes → List ℕ → Outcome Bool
is_last behind rest =
    strcmp (length rest + 1) (place (rest ++ 0 ∷ 0 ∷ []) behind) 0 (length rest + 1)

abbrev pub new_node : NodeType → Option (StringHashMap ℕ) → ℕ → Node
new_node type children inode = record {
  type = type;
  children = children;
  file_data = 0;
  file_size = 0;
  capacity = 0;
  inode = inode;
}

abbrev pub children_of : NodeType → StringHashMap ℕ → Option (StringHashMap ℕ)
children_of directory table = some table
children_of file table = none

-- A new node below a parent, whose table is given.
abbrev pub grown : Heap → NodeType → ℕ → StringHashMap ℕ → List ℕ → Tree → ℕ × Tree
grown h type parent children name t =
    let inode = t.next_inode in
    let node = h.fresh inode in
    let made = update t.vfs.nodes node (new_node type (children_of type (h.table inode)) inode) in
    let inserted = record (t.vfs.nodes parent) {
      children = some (HashMap.insert 256 children name node);
    } in
    (
      node,
      record {
        vfs = record (t.vfs) {
          nodes = update made parent inserted;
          fs_of = update t.vfs.fs_of node (t.vfs.fs_of t.vfs.root_mountpoint);
        };
        next_inode = (inode + 1) % 2 ^ 64;
        names = update t.names node name;
        parents = update t.parents node parent;
      },
    )

-- The loop of `create`, from a parent down. Where the parent is a file, the pointer to its children is null.
unfoldable pub create_from : ℕ → Heap → NodeType → ℕ → List ℕ → Tree → Outcome (ℕ × Tree)
create_from zero h type parent path t = out_of_fuel
create_from (suc fuel) h type parent [] t = done (parent, t)
create_from (suc fuel) h type parent (c ∷ path) t =
    let (name, rest) = until_slash (c ∷ path) in
    let sub_path = skip_slashes rest in
    elim (t.vfs.nodes parent).children [
      | none ↦ fault
      | some children ↦ elim (HashMap.get 256 children name) [
        | some node ↦ create_from fuel h type node sub_path t
        | none ↦ is_last h.behind sub_path >>= λ last.
            let made = grown h (if last then type else directory) parent children name t in
            create_from fuel h type made.0 sub_path made.1
      ]
    ]

-- The node, or null when there is no root.
unfoldable pub create : Heap → List ℕ → NodeType → Tree → Outcome (ℕ × Tree)
create h path type t =
    let made = create_from (suc (length path)) h type t.vfs.root_mountpoint path t in
    if t.vfs.root_mountpoint == 0 then done (0, t) else made

-- `mount`: without a node, it makes the root. The other fields of a node that exists stay.
unfoldable pub mount : Heap → ℕ → FileSystem → Tree → Tree
mount h node fs t =
    let inode = t.next_inode in
    let root = h.fresh inode in
    let p = if node == 0 then root else node in
    let old = if node == 0 then new_node directory none inode else t.vfs.nodes node in
    record {
      vfs = record (t.vfs) {
        nodes =
            update t.vfs.nodes p
              (record old { type = directory; children = some (h.table inode); inode = inode });
        fs_of = update t.vfs.fs_of p fs;
        root_mountpoint = if node == 0 then root else t.vfs.root_mountpoint;
      };
      next_inode = (inode + 1) % 2 ^ 64;
      names = if node == 0 then update t.names root (b'/' ∷ []) else t.names;
      parents = if node == 0 then update t.parents root 0 else t.parents;
    }

-- The constructor of `FileDescriptor` with a size: `fd`, `node` and `bytes` are the addresses that the three
-- `new` return. The type and the inode number of the node stay what the memory held.
abbrev pub made_descriptor : Node → ℕ → ℕ → ℕ → ℕ → OpenMode → ℕ → FileSystem → Vfs → Vfs
made_descriptor unset fd node bytes id mode size fs v = record v {
  nodes =
      update v.nodes node
        (record unset { children = none; file_data = bytes; file_size = size; capacity = size });
  fs_of = update v.fs_of node fs;
  descriptors =
      update v.descriptors fd (record { id = id; node = node; mode = mode; rw_position = 0 });
}

-- `init_std`, with three addresses for each descriptor.
unfoldable pub init_std : Node → (ℕ → ℕ × ℕ × ℕ) → FileSystem → Vfs → Vfs
init_std unset at fs v =
    let put : ℕ → OpenMode → ℕ → Vfs → Vfs =
      λ id mode size. made_descriptor unset (at id).0 (at id).1 (at id).2 id mode size fs in
    record (put 2 write_only 0 (put 1 write_only 0 (put 0 read_only 4096 v))) { stdin = (at 0).0 }
