-- ===== src/Tests/Files.antt =====
-- One empty file with a descriptor, and a task with two handles.
use umbra_os.Prelude.{
  ℕ, ◌+◌, ◌*◌, ◌<◌, ◌≤◌, ◌≡◌, ◌≢◌, refl, List, [], ◌∷◌, arith, done, fault, ◌⊎◌, inl, inr, none,
  ◌==◌, if◌then◌else◌,
}
use umbra_os.Utils.LinkedList.{Node}
use umbra_os.Utils.LinkedList.Prev.{pushes, pushes-Chain, Distinct}
use umbra_os.Fs.Vfs
use umbra_os.Fs.Vfs.{Vfs, FileDescriptor, file, read_write, from_start, tmpfs, grow}
use umbra_os.Fs.Vfs.Grow.{grow_lem}
use umbra_os.Fs.Vfs.Files.{Empty, read-write}
use umbra_os.Fs.Handles.{Task, add_file_handle, get_file_handle}
use umbra_os.Fs.Handles.Lookup.{get_file_handle-add_file_handle}
use umbra_os.Fs.Syscalls.{Kernel, sys_close}
use umbra_os.Fs.Syscalls.Close.{sys_close_faults}

grow_lem_example : (c : ℕ) × (grow 6 100 4 ≡ done c) × (100 ≤ c) × ((c ≡ 4) ⊎ (c < 2 * 100))
grow_lem_example = grow_lem 5 100 4 (omega arith) (omega arith) (omega arith)

-- The descriptor at 40, of the file at 80. The ids of the descriptors at 40 and 48 are 5 and 6.
abbrev vfs : Vfs
vfs = record {
  memory = λ a. a;
  nodes = λ p. record {
    type = file;
    children = none;
    file_data = 0;
    file_size = 0;
    capacity = 0;
    inode = 7;
  };
  fs_of = λ p. tmpfs;
  descriptors = λ fd. record {
    id = if fd == 40 then 5 else 6;
    node = 80;
    mode = read_write;
    rw_position = 0;
  };
  root_mountpoint = 16;
  stdin = 24;
}

vfs-Empty : Empty vfs 40
vfs-Empty = record {
  some_fd = omega arith;
  not_stdin = omega arith;
  both = refl;
  start = refl;
  in_tmpfs = refl;
  is_file = refl;
  no_bytes = refl;
}

read-write_example :
    (w r : Vfs) × (Vfs.write 3 4096 40 200 10 vfs ≡ done (10, w))
    × (Vfs.read 40 300 10 (Vfs.seek 40 0 from_start w) ≡ (10, r))
    × ((i : ℕ) → i < 10 → r.memory (300 + i) ≡ vfs.memory (200 + i))
read-write_example =
    read-write vfs 40 4096 200 300 10 vfs-Empty 3 (omega arith) (omega arith) (inr (omega arith))
      (inl (omega arith))

abbrev nodes : ℕ → Node
nodes a = record { value = 0; prev = 0; next = 0 }

abbrev task : List (ℕ × ℕ) → Task
task cells = record { handles = pushes nodes cells; socket_handles = pushes nodes []; next_id = 7 }

abbrev held : List (ℕ × ℕ)
held = (112, 40) ∷ (96, 48) ∷ []

held-Distinct : Distinct held
held-Distinct = (omega arith, (omega arith, tt), (omega arith, tt, tt))

-- The ids before the descriptor at 56 is added, which has none.
abbrev ids : ℕ → ℕ
ids fd = if fd == 56 then 4294967295 else (vfs.descriptors fd).id

get_file_handle-add_file_handle_example :
    let (given, ids', t') = add_file_handle 128 56 ids (task held) in
    (get_file_handle 4 ids' given t' ≡ done 56)
    × ((id : ℕ) → id ≢ given → get_file_handle 4 ids' id t' ≡ get_file_handle 4 ids id (task held))
get_file_handle-add_file_handle_example =
    get_file_handle-add_file_handle 4 128 56 ids (task held) held
      (pushes-Chain nodes held held-Distinct) (omega arith) (omega arith, (omega arith, tt))
      (omega arith) (omega arith) (omega arith, (omega arith, tt))

abbrev kernel : Kernel
kernel = record { vfs = vfs; task = task held }

-- The descriptor with id 6 was added before the one with id 5.
sys_close_faults_example : sys_close 3 6 kernel ≡ fault
sys_close_faults_example =
    sys_close_faults nodes kernel 1 6 112 40 96 48 [] refl held-Distinct (omega arith) (omega arith)
      refl (omega arith)
