-- ===== src/Fs/Vfs.antt =====
-- src/kernel/fs/vfs.cpp, vfs.hpp and tmpfs.cpp: nodes, descriptors and their operations. Nodes and
-- descriptors stand at addresses, and all bytes in one memory. A path is the bytes before its NUL.
pub mod Grow
pub mod Files
use umbra_os.Prelude.{
  ℕ, zero, suc, ◌+◌, ◌-◌, ◌*◌, ◌%◌, ◌^◌, Bool, true, false, ◌||◌, Option, none, some, ◌==◌, ltb,
  leb, if◌then◌else◌, List, [], ◌∷◌, Outcome, done, fault, out_of_fuel, ◌>>=◌, length,
}
use umbra_os.Prelude.Maps.{update}
use umbra_os.Utils.HashMap
use umbra_os.Utils.HashMap.{StringHashMap}
use umbra_os.Libc.Strings.{Bytes, memcpy}

pub data NodeType : Type 0 where
  file directory : NodeType

pub data OpenMode : Type 0 where
  read_only write_only read_write : OpenMode

pub data SeekMode : Type 0 where
  from_start from_here from_end : SeekMode

abbrev pub is_directory : NodeType → Bool
is_directory directory = true
is_directory file = false

abbrev pub is_read_only : OpenMode → Bool
is_read_only read_only = true
is_read_only _ = false

abbrev pub is_write_only : OpenMode → Bool
is_write_only write_only = true
is_write_only _ = false

-- `children` is none where the pointer is null.
pub record Node : Type 0 where
  pub type : NodeType
  pub children : Option (StringHashMap ℕ)
  pub file_data : ℕ
  pub file_size : ℕ
  pub capacity : ℕ
  pub inode : ℕ

pub record FileDescriptor : Type 0 where
  pub id : ℕ
  pub node : ℕ
  pub mode : OpenMode
  pub rw_position : ℕ

-- The virtual functions: memory, node, buffer, offset and length to the result and memory after it.
pub record FileSystem : Type 0 where
  pub read : Bytes → Node → ℕ → ℕ → ℕ → ℕ × Bytes
  pub write : Bytes → Node → ℕ → ℕ → ℕ → ℕ × Bytes

-- `fs_of` is the `fs` of each node.
pub record Vfs : Type 0 where
  pub memory : Bytes
  pub nodes : ℕ → Node
  pub fs_of : ℕ → FileSystem
  pub descriptors : ℕ → FileDescriptor
  pub root_mountpoint : ℕ
  pub stdin : ℕ

-- `Tmpfs`.
unfoldable pub tmpfs_read : Bytes → Node → ℕ → ℕ → ℕ → ℕ × Bytes
tmpfs_read m node buffer offset length =
    if is_directory node.type
    then (0, m)
    else (length, memcpy m buffer (node.file_data + offset) length)

unfoldable pub tmpfs_write : Bytes → Node → ℕ → ℕ → ℕ → ℕ × Bytes
tmpfs_write m node buffer offset length =
    if is_directory node.type
    then (0, m)
    else (length, memcpy m (node.file_data + offset) buffer length)

abbrev pub tmpfs : FileSystem
tmpfs = record { read = tmpfs_read; write = tmpfs_write }

-- `while (*p != 0 && *p != '/') p++`: the name before the slash, and what stands from there on.
unfoldable pub until_slash : List ℕ → List ℕ × List ℕ
until_slash [] = ([], [])
until_slash (c ∷ path) =
    let (name, rest) = until_slash path in if c == b'/' then ([], c ∷ path) else (c ∷ name, rest)

unfoldable pub skip_slashes : List ℕ → List ℕ
skip_slashes [] = []
skip_slashes (c ∷ path) = if c == b'/' then skip_slashes path else c ∷ path

-- The loop of `get_node`, from a parent down. The null pointer says that there is no such node.
unfoldable pub node_from : ℕ → (ℕ → Node) → ℕ → List ℕ → Outcome ℕ
node_from zero nodes parent path = out_of_fuel
node_from (suc fuel) nodes parent [] = done parent
node_from (suc fuel) nodes parent (c ∷ path) =
    let (name, rest) = until_slash (c ∷ path) in
    elim (nodes parent).children [
      | none ↦ fault
      | some children ↦ elim (HashMap.get 256 children name) [
        | none ↦ done 0
        | some node ↦ node_from fuel nodes node (skip_slashes rest)
      ]
    ]

unfoldable pub get_node : Vfs → List ℕ → Outcome ℕ
get_node v path =
    let found = node_from (suc (length path)) v.nodes v.root_mountpoint (skip_slashes path) in
    if v.root_mountpoint == 0 then done 0 else found

-- `fd` is the address that `new FileDescriptor` returns. The answer is the descriptor, or null.
unfoldable pub open_file : ℕ → List ℕ → OpenMode → Vfs → Outcome (ℕ × Vfs)
open_file fd path mode v = do
  node ← get_node v path
  done (
      if node == 0 then (0, v) else (
        fd,
        record v {
          descriptors =
              update v.descriptors fd
                (record { id = 2 ^ 32 - 1; node = node; mode = mode; rw_position = 0 });
        },
      ))

abbrev pub node_of : Vfs → ℕ → Node
node_of v fd = v.nodes (v.descriptors fd).node

abbrev pub set_position : Vfs → ℕ → ℕ → Vfs
set_position v fd pos = record v {
  descriptors = update v.descriptors fd (record (v.descriptors fd) { rw_position = pos });
}

abbrev pub set_node : Vfs → ℕ → Node → Vfs
set_node v p node = record v { nodes = update v.nodes p node }

-- -1, as a word.
abbrev pub failure : ℕ
failure = 2 ^ 64 - 1

unfoldable pub read : ℕ → ℕ → ℕ → Vfs → ℕ × Vfs
read fd buffer length v =
    let d = v.descriptors fd in
    let node = v.nodes d.node in
    let (bytes_read, memory) = (v.fs_of d.node).read v.memory node buffer d.rw_position length in
    let v' = record v { memory = memory } in
    if fd == 0 || leb node.file_size d.rw_position || is_write_only d.mode || is_directory node.type
    then (failure, v)
    else if fd == v.stdin
    then (bytes_read, v')
    else (bytes_read, set_position v' fd ((d.rw_position + length) % 2 ^ 64))

-- `while (needed > new_capacity) new_capacity *= 2`.
unfoldable pub grow : ℕ → ℕ → ℕ → Outcome ℕ
grow zero needed capacity = out_of_fuel
grow (suc fuel) needed capacity =
    let on = grow fuel needed (capacity * 2 % 2 ^ 64) in
    if ltb capacity needed then on else done capacity

-- The file gets room for the bytes, or none when the new data is null. `fresh` is the address that
-- `new uint8_t[]` returns. What the old data held is not copied.
unfoldable pub make_room : ℕ → ℕ → ℕ → ℕ → Node → Outcome (Option Node)
make_room fuel fresh position length node =
    let needed = (position + length) % 2 ^ 64 in
    let grown = grow fuel needed node.capacity in
    if node.file_size == 0
    then done (some (record node { file_data = fresh; file_size = length; capacity = length }))
    else if ltb node.capacity needed
    then (grown >>= λ c.
        done (if fresh == 0 then none else some (record node { file_data = fresh; capacity = c })))
    else done (some node)

-- The write proper, to a node with room.
unfoldable pub write_at : ℕ → ℕ → ℕ → Node → Vfs → ℕ × Vfs
write_at fd buffer length node v =
    let d = v.descriptors fd in
    let (bytes_written, memory) =
      (v.fs_of d.node).write v.memory node buffer d.rw_position length in
    let end = (d.rw_position + length) % 2 ^ 64 in
    let size = if ltb node.file_size end then end else node.file_size in
    (
      bytes_written,
      set_position
          (set_node (record v { memory = memory }) d.node (record node { file_size = size })) fd
          end,
    )

unfoldable pub write : ℕ → ℕ → ℕ → ℕ → ℕ → Vfs → Outcome (ℕ × Vfs)
write fuel fresh fd buffer length v =
    let d = v.descriptors fd in
    let room = make_room fuel fresh d.rw_position length (v.nodes d.node) in
    if fd == 0 || is_read_only d.mode || is_directory (v.nodes d.node).type
    then done (0, v)
    else (room >>= λ r. elim r [
      | none ↦ done (failure, v)
      | some node ↦ done (write_at fd buffer length node v)
    ])

unfoldable pub seek_position : ℕ → SeekMode → ℕ → ℕ → ℕ
seek_position offset from_start pos size = offset
seek_position offset from_here pos size = (pos + offset) % 2 ^ 64
seek_position offset from_end pos size = (size + offset) % 2 ^ 64

unfoldable pub seek : ℕ → ℕ → SeekMode → Vfs → Vfs
seek fd offset mode v =
    let pos = seek_position offset mode (v.descriptors fd).rw_position (node_of v fd).file_size in
    if fd == 0 then v else set_position v fd pos
