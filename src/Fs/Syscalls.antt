-- ===== src/Fs/Syscalls.antt =====
-- src/kernel/syscalls/fs.cpp and clock.cpp: the system calls on open files and on the clock. The
-- numbers of the C library's headers are a parameter. An `int` is a 32-bit word.
pub mod Close
use umbra_os.Prelude.{
  ℕ, ◌+◌, ◌-◌, ◌*◌, ◌/◌, ◌%◌, ◌^◌, Option, none, some, ◌==◌, ltb, if◌then◌else◌, ◌||◌, List,
  Outcome, done, ◌>>=◌,
}
use umbra_os.Utils.LinkedList
use umbra_os.Fs.Vfs.{
  Vfs, FileDescriptor, OpenMode, read_only, write_only, read_write, SeekMode, from_start, from_here,
  from_end,
}
use umbra_os.Fs.Vfs
use umbra_os.Fs.Handles.{Task, add_file_handle, get_file_handle}

-- What a call returns: 0, or the negative of an error number.
pub data Errno : Type 0 where
  success ebadf einval enosys enotdir : Errno

-- The numbers of <fcntl.h> and <time.h> that the calls compare with.
pub record Headers : Type 0 where
  pub seek_set : ℕ
  pub seek_cur : ℕ
  pub seek_end : ℕ
  pub o_rdonly : ℕ
  pub o_wronly : ℕ
  pub realtime : ℕ
  pub realtime_coarse : ℕ
  pub boottime : ℕ
  pub monotonic : ℕ
  pub monotonic_raw : ℕ
  pub monotonic_coarse : ℕ
  pub process_cputime : ℕ
  pub thread_cputime : ℕ

-- The file system, and the current task.
pub record Kernel : Type 0 where
  pub vfs : Vfs
  pub task : Task

-- The error, and what is written through the pointer to the result, if anything is.
abbrev pub Reply : Type 0
Reply = Errno × Option ℕ

abbrev pub ids_of : Vfs → ℕ → ℕ
ids_of v fd = (v.descriptors fd).id

abbrev pub with_ids : (ℕ → ℕ) → Vfs → Vfs
with_ids ids v = record v { descriptors = λ fd. record (v.descriptors fd) { id = ids fd } }

-- `int bytes = ...; if (bytes == -1) return -EBADF; *result = bytes`: the result is cut to 32 bits
-- and its sign extended.
abbrev pub sign_extend : ℕ → ℕ
sign_extend w = if ltb w (2 ^ 31) then w else 2 ^ 64 - 2 ^ 32 + w

unfoldable pub int_reply : ℕ → Reply
int_reply bytes =
    let w = bytes % 2 ^ 32 in
    if w == 2 ^ 32 - 1 then (ebadf, none) else (success, some (sign_extend w))

-- `steps` is fuel for the walk over the handles, `fuel` for the growth of the file.
unfoldable pub sys_write : ℕ → ℕ → ℕ → ℕ → ℕ → ℕ → Kernel → Outcome (Reply × Kernel)
sys_write steps fuel fresh fd buf count k = do
  vfs_fd ← get_file_handle steps (ids_of k.vfs) fd k.task
  let wrote : Outcome (Reply × Kernel) = Vfs.write fuel fresh vfs_fd buf count k.vfs >>= λ r.
      done (int_reply r.0, record k { vfs = r.1 })
  if vfs_fd == 0 then done ((ebadf, none), k) else wrote

unfoldable pub sys_read : ℕ → ℕ → ℕ → ℕ → Kernel → Outcome (Reply × Kernel)
sys_read steps fd buf count k = do
  vfs_fd ← get_file_handle steps (ids_of k.vfs) fd k.task
  let (bytes, v) = Vfs.read vfs_fd buf count k.vfs
  done (if vfs_fd == 0 then ((ebadf, none), k) else (int_reply bytes, record k { vfs = v }))

module _ (c : Headers) where
  unfoldable pub seek_mode : ℕ → Option SeekMode
  seek_mode whence =
      if whence == c.seek_set
      then some from_start
      else if whence == c.seek_cur
      then some from_here
      else if whence == c.seek_end
      then some from_end
      else none

  unfoldable pub sys_seek : ℕ → ℕ → ℕ → ℕ → Kernel → Outcome (Reply × Kernel)
  sys_seek steps fd offset whence k = do
    vfs_fd ← get_file_handle steps (ids_of k.vfs) fd k.task
    let sought : Reply × Kernel = elim (seek_mode whence) [
      | none ↦ ((einval, none), k)
      | some mode ↦
          let v = Vfs.seek vfs_fd offset mode k.vfs in
          ((success, some (v.descriptors vfs_fd).rw_position), record k { vfs = v })
    ]
    done (if vfs_fd == 0 then ((ebadf, none), k) else sought)

  unfoldable pub open_mode : ℕ → OpenMode
  open_mode flags =
      if flags == c.o_rdonly
      then read_only
      else if flags == c.o_wronly
      then write_only
      else read_write

  -- `fresh` and `node` are the addresses of the new descriptor and of the list's new node.
  unfoldable pub sys_open : ℕ → ℕ → List ℕ → ℕ → Kernel → Outcome (Reply × Kernel)
  sys_open fresh node path flags k = do
    (vfs_fd, v) ← Vfs.open_file fresh path (open_mode flags) k.vfs
    let (id, ids, task) = add_file_handle node vfs_fd (ids_of v) k.task
    done (
        if vfs_fd == 0
        then ((ebadf, none), record k { vfs = v })
        else ((success, some id), record { vfs = with_ids ids v; task = task }))

  -- `sys_clock_get`: the error, and the seconds and nanoseconds that are written, if they are.
  unfoldable pub sys_clock_get : ℕ → ℕ → Errno × Option (ℕ × ℕ)
  sys_clock_get ms clock =
      if clock == c.realtime || clock == c.realtime_coarse
      then (success, some (ms / 1000, ms * 1000000 % 2 ^ 64))
      else if clock == c.boottime
          || clock == c.monotonic
          || clock == c.monotonic_raw
          || clock == c.monotonic_coarse
      then (success, none)
      else if clock == c.process_cputime || clock == c.thread_cputime
      then (success, some (0, 0))
      else (enosys, none)

-- The descriptor goes back to the heap.
unfoldable pub sys_close : ℕ → ℕ → Kernel → Outcome (Errno × Kernel)
sys_close steps fd k = do
  vfs_fd ← get_file_handle steps (ids_of k.vfs) fd k.task
  let closed : Outcome (Errno × Kernel) =
      LinkedList.remove steps vfs_fd k.task.handles >>= λ handles.
      done (success, record k { task = record (k.task) { handles = handles } })
  if vfs_fd == 0 then done (ebadf, k) else closed
