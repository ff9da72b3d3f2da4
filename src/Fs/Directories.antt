-- ===== src/Fs/Directories.antt =====
-- src/kernel/syscalls/fs.cpp: the calls on paths and on directories. Paths are lists; the room behind a
-- copied path, which `strcat` writes to, is not asked for.
use umbra_os.Prelude.{
  ℕ, ◌+◌, ◌%◌, ◌^◌, Bool, not, ◌&&◌, Option, none, some, ◌==◌, if◌then◌else◌, List, [], ◌∷◌, ◌++◌,
  Outcome, done, fault, ◌>>=◌,
}
use umbra_os.Utils.HashMap
use umbra_os.Fs.Vfs.{Vfs, Node, directory, is_directory, get_node, open_file, set_position, node_of}
use umbra_os.Fs.Handles.{Task, add_file_handle, get_file_handle}
use umbra_os.Fs.Syscalls.{
  Errno, success, ebadf, enosys, enotdir, Headers, Reply, ids_of, with_ids, open_mode,
}
use umbra_os.Fs.Create.{Tree, Heap, create}

-- The numbers of <fcntl.h> and <dirent.h> that the calls compare with or return, and the size of a directory's
-- entry.
pub record Paths : Type 0 where
  pub at_fdcwd : ℕ
  pub o_directory : ℕ → Bool
  pub dirent_size : ℕ

-- The file system, the current task, and its `working_dir`.
pub record System : Type 0 where
  pub tree : Tree
  pub task : Task
  pub working_dir : List ℕ

abbrev pub put_vfs : Vfs → System → System
put_vfs v s = record s { tree = record (s.tree) { vfs = v } }

-- What `sys_stat` writes: whether the mode says a directory, the size and the inode number.
pub record Stat : Type 0 where
  pub st_directory : Bool
  pub st_size : ℕ
  pub st_ino : ℕ

-- What `sys_read_entries` writes.
pub record Dirent : Type 0 where
  pub d_name : List ℕ
  pub d_ino : ℕ
  pub d_directory : Bool

module _ (p : Paths) where
  -- The absolute path is made and not used. A descriptor of the wrong type is not freed. `fresh` and `list_node`
  -- are the addresses of the new descriptor and of the list's new node.
  unfoldable pub sys_openat :
      Headers → ℕ → ℕ → ℕ → List ℕ → ℕ → ℕ → System → Outcome (Reply × System)
  sys_openat c fresh list_node dirfd path flags mode s =
      let opened : Outcome (Reply × System) =
        open_file fresh path (open_mode c flags) s.tree.vfs >>= λ r.
        let (id, ids, task) = add_file_handle list_node r.0 (ids_of r.1) s.task in
        done (
          if r.0 == 0
          then ((ebadf, none), put_vfs r.1 s)
          else if p.o_directory flags && not (is_directory (node_of r.1 r.0).type)
          then ((enotdir, none), put_vfs r.1 s)
          else ((success, some id), record (put_vfs (with_ids ids r.1) s) { task = task })) in
      if mode == 0
      then (if dirfd == p.at_fdcwd then opened else done ((enosys, none), s))
      else done ((enosys, none), s)

  abbrev pub stat_of : Node → Stat
  stat_of n = record { st_directory = is_directory n.type; st_size = n.file_size; st_ino = n.inode }

  -- A path that leads to no node gives a null pointer, whose fields are read.
  unfoldable pub sys_stat : ℕ → ℕ → List ℕ → System → Outcome (Errno × Option Stat)
  sys_stat steps fd path s =
      let v = s.tree.vfs in
      let by_path : Outcome (Errno × Option Stat) = get_node v (s.working_dir ++ path) >>= λ node.
      if node == 0 then fault else done (success, some (stat_of (v.nodes node))) in
      let by_handle : Outcome (Errno × Option Stat) =
        get_file_handle steps (ids_of v) fd s.task >>= λ handle.
        done
          (if handle == 0 then (ebadf, none) else (success, some (stat_of (node_of v handle)))) in
      if fd == p.at_fdcwd then by_path else by_handle

  -- The error, the bytes read where they are written, and the entry.
  unfoldable pub sys_read_entries :
      ℕ → ℕ → System → Outcome ((Errno × Option ℕ × Option Dirent) × System)
  sys_read_entries steps fd s = do
    handle ← get_file_handle steps (ids_of s.tree.vfs) fd s.task
    let v = s.tree.vfs
    let pos = (v.descriptors handle).rw_position
    let entry_of : ℕ → Dirent = λ node. record {
      d_name = s.tree.names node;
      d_ino = (v.nodes node).inode;
      d_directory = is_directory (v.nodes node).type;
    }
    let listed : Outcome ((Errno × Option ℕ × Option Dirent) × System) =
        elim (node_of v handle).children [
          | none ↦ fault
          | some children ↦ elim (HashMap.get_nth 256 children pos) [
            | none ↦ done ((success, some 0, none), s)
            | some node ↦ done (
              (success, some p.dirent_size, some (entry_of node)),
              put_vfs (set_position v handle ((pos + 1) % 2 ^ 64)) s,
            )
          ]
        ]
    if handle == 0
        then done ((ebadf, none, none), s)
        else if is_directory (node_of v handle).type
        then listed
        else done ((enotdir, none, none), s)

-- What is copied to the buffer.
unfoldable pub sys_get_cwd : System → List ℕ
sys_get_cwd s = s.working_dir

unfoldable pub sys_chdir : List ℕ → System → System
sys_chdir [] s = record s { working_dir = s.working_dir ++ b'/' ∷ [] }
sys_chdir (c ∷ path) s = record s {
  working_dir = if c == b'/' then c ∷ path else s.working_dir ++ b'/' ∷ c ∷ path;
}

-- What `create` comes to is not looked at.
unfoldable pub sys_mkdir : Heap → List ℕ → System → Outcome (Errno × System)
sys_mkdir h path s = do
  (node, tree) ← create h path directory s.tree
  done (success, record s { tree = tree })
