-- ===== src/Fs/Vfs/Files.antt =====
-- src/kernel/fs/vfs.cpp and tmpfs.cpp: a file that is written and read back.
use umbra_os.Prelude.{
  ℕ, ◌+◌, ◌%◌, ◌^◌, ◌<◌, ◌≤◌, ◌≡◌, ◌≢◌, refl, ap, ◌∙◌, arith, done, ◌⊎◌, ==_of_ne, ==_refl, ltb,
  leb, false,
}
use umbra_os.Libc.Strings.{memcpy, Bytes}
use umbra_os.Libc.Strings.Copy.{copied, memcpy_lem}
use umbra_os.Fs.Vfs.{
  Vfs, Node, file, read_write, from_start, tmpfs, tmpfs_read, tmpfs_write, write, read, seek,
  seek_position, write_at, make_room, is_read_only, is_write_only, is_directory, node_of,
  set_position, set_node,
}

-- A descriptor at the start of an empty file of the in-memory file system, open for both.
pub record Empty (v : Vfs) (fd : ℕ) : Type 0 where
  pub some_fd : fd ≢ 0
  pub not_stdin : fd ≢ v.stdin
  pub both : (v.descriptors fd).mode ≡ read_write
  pub start : (v.descriptors fd).rw_position ≡ 0
  pub in_tmpfs : v.fs_of (v.descriptors fd).node ≡ tmpfs
  pub is_file : (v.nodes (v.descriptors fd).node).type ≡ file
  pub no_bytes : (v.nodes (v.descriptors fd).node).file_size ≡ 0

tmpfs_reads :
    (w : Vfs) (fd dst length : ℕ)
    → fd ≢ 0
    → leb (node_of w fd).file_size (w.descriptors fd).rw_position ≡ false
    → is_write_only (w.descriptors fd).mode ≡ false
    → is_directory (node_of w fd).type ≡ false
    → fd ≢ w.stdin
    → w.fs_of (w.descriptors fd).node ≡ tmpfs
    → read fd dst length w ≡ (
      length,
      set_position
          (record w {
            memory =
                memcpy w.memory dst
                  ((node_of w fd).file_data + (w.descriptors fd).rw_position)
                  length;
          })
          fd
          (((w.descriptors fd).rw_position + length) % 2 ^ 64),
    )
unfolding read tmpfs_read
tmpfs_reads w fd dst length z more readable is_file ne in_tmpfs =
    rw (==_of_ne fd 0 z, more, readable, is_file, ==_of_ne fd w.stdin ne, in_tmpfs, is_file) refl

copied_at : (m : Bytes) (dest src n i : ℕ) → i < n → copied m dest src n (dest + i) ≡ m (src + i)
copied_at m dest src n i small = ground (arith, small)

module _ (v : Vfs) (fd fresh src dst length : ℕ) (e : Empty v fd) where
  -- The file's new node, with the bytes at the fresh address.
  abbrev filled : Node
  filled = record (v.nodes (v.descriptors fd).node) {
    file_data = fresh;
    file_size = length;
    capacity = length;
  }

  abbrev written : Vfs
  written =
      set_position
        (set_node (record v { memory = memcpy v.memory fresh src length }) (v.descriptors fd).node
          filled)
        fd length

  write-eq :
      (fuel : ℕ) → length < 2 ^ 64 → write fuel fresh fd src length v ≡ done (length, written)
  unfolding write make_room write_at tmpfs_write
  write-eq fuel fits =
      let whole : (0 + length) % 2 ^ 64 ≡ length = omega (arith, fits) in
      let at : fresh + 0 ≡ fresh = omega arith in
      let same : ltb length length ≡ false = ground arith in
      rw
        (
          ==_of_ne fd 0 e.some_fd,
          ap is_read_only e.both,
          ap is_directory e.is_file,
          e.no_bytes,
          e.in_tmpfs,
          ap is_directory e.is_file,
          e.start,
          whole,
          at,
          same,
        )
        refl

  abbrev sought : Vfs
  sought = set_position written fd 0

  seek-eq : seek fd 0 from_start written ≡ sought
  unfolding seek seek_position
  seek-eq = rw (==_of_ne fd 0 e.some_fd) refl

  here : (sought.descriptors fd).node ≡ (v.descriptors fd).node
  here = rw (==_refl fd) refl

  filled_node : node_of sought fd ≡ filled
  filled_node = ap sought.nodes here ∙ rw (==_refl (v.descriptors fd).node) refl

  at_start : (sought.descriptors fd).rw_position ≡ 0
  at_start = rw (==_refl fd) refl

  still_both : (sought.descriptors fd).mode ≡ read_write
  still_both = rw (==_refl fd) e.both

  data_at : (node_of sought fd).file_data + (sought.descriptors fd).rw_position ≡ fresh
  data_at = rw (filled_node, at_start) (omega arith)

  read_back :
      0 < length
      → read fd dst length sought ≡ (
        length,
        set_position
            (record sought {
              memory =
                  memcpy
                    (memcpy v.memory fresh src length)
                    dst
                    ((node_of sought fd).file_data + (sought.descriptors fd).rw_position)
                    length;
            })
            fd
            (((sought.descriptors fd).rw_position + length) % 2 ^ 64),
      )
  read_back pos =
      tmpfs_reads sought fd dst length e.some_fd (rw (filled_node, at_start) (ground (arith, pos)))
        (ap is_write_only still_both)
        (ap (λ n. is_directory n.type) filled_node ∙ ap is_directory e.is_file) e.not_stdin
        (ap sought.fs_of here ∙ e.in_tmpfs)

  -- From a descriptor that is not `stdin`, open for both at the start of an empty file of the
  -- in-memory file system: a write of `length` bytes, at least one and fewer than 2 ^ 64, writes
  -- them all; after a seek to the start, a read of `length` bytes reads them all, and the target
  -- holds what the source held. The new data may overlap neither the source nor the target where
  -- `memcpy` would copy bytes that it has already written.
  pub read-write :
      (fuel : ℕ)
      → 0 < length
      → length < 2 ^ 64
      → fresh ≤ src ⊎ src + length ≤ fresh
      → dst ≤ fresh ⊎ fresh + length ≤ dst
      → (w r : Vfs) × (write fuel fresh fd src length v ≡ done (length, w))
        × (read fd dst length (seek fd 0 from_start w) ≡ (length, r))
        × ((i : ℕ) → i < length → r.memory (dst + i) ≡ v.memory (src + i))
  read-write fuel pos fits from to = (
    written,
    _,
    write-eq fuel fits,
    ap (read fd dst length) seek-eq ∙ read_back pos,
    λ i small.
        ap (λ s. memcpy written.memory dst s length (dst + i)) data_at
        ∙ memcpy_lem written.memory dst fresh length (dst + i) to
        ∙ copied_at written.memory dst fresh length i small
        ∙ memcpy_lem v.memory fresh src length (fresh + i) from
        ∙ copied_at v.memory fresh src length i small,
  )
