-- ===== src/Fs/Initramfs.antt =====
-- src/kernel/fs/initramfs.cpp: the files of an archive in memory, made as nodes.
pub mod Octal
use umbra_os.Prelude.{
  ℕ, zero, suc, ◌+◌, ◌-◌, ◌*◌, ◌/◌, ◌%◌, ◌^◌, ◌<◌, ◌≡◌, refl, ◌∙◌, sym, ap, Bool, true, false, ◌==◌,
  if◌then◌else◌, List, [], ◌∷◌, ◌++◌, Outcome, done, fault, out_of_fuel, ◌>>=◌, arith, length,
  ==_of_ne,
}
use umbra_os.Prelude.Maps.{update}
use umbra_os.Libc.Strings.{Bytes, memcpy, strncmp}
use umbra_os.Net.Ipv4.{place}
use umbra_os.Fs.Vfs.{Vfs, Node, file, directory}
use umbra_os.Fs.Create.{Tree, Heap, create}

-- The loop of `oct_to_dec` at a string, with the result so far.
unfoldable pub oct_from : ℕ → Bytes → ℕ → ℕ → Outcome ℕ
oct_from zero m str res = out_of_fuel
oct_from (suc fuel) m str res =
    let on = oct_from fuel m (str + 1) ((res * 8 + m str + 2 ^ 64 - b'0') % 2 ^ 64) in
    if m str == 0 then done res else on

unfoldable pub oct_to_dec : ℕ → Bytes → ℕ → Outcome ℕ
oct_to_dec fuel m str = oct_from fuel m str 0

-- A C string as a list.
unfoldable pub string_at : ℕ → Bytes → ℕ → Outcome (List ℕ)
string_at zero m str = out_of_fuel
string_at (suc fuel) m str =
    let on = string_at fuel m (str + 1) in
    if m str == 0 then done [] else (on >>= λ rest. done (m str ∷ rest))

-- The offsets of `size`, `type_flag` and `magic` in a header, and the size of a block.
abbrev pub size_offset : ℕ
size_offset = 124

abbrev pub type_offset : ℕ
type_offset = 156

abbrev pub magic_offset : ℕ
magic_offset = 257

abbrev pub block : ℕ
block = 512

-- `strncmp(archive->magic, "ustar", 5)`.
unfoldable pub is_ustar : Bytes → ℕ → Bool
is_ustar m archive =
    strncmp (place (b'u' ∷ b's' ∷ b't' ∷ b'a' ∷ b'r' ∷ []) (λ k. m (archive + magic_offset + k))) 5
      0 5

-- `ALIGN_UP(size, 512)`.
abbrev pub align_up : ℕ → ℕ
align_up size = (size + (block - 1)) % 2 ^ 64 / block * block

-- A file's data, copied to the address that `new` returns for a node.
abbrev pub filled : ℕ → ℕ → ℕ → ℕ → Tree → Tree
filled archive fresh size node t = record t {
  vfs = record (t.vfs) {
    nodes =
        update t.vfs.nodes node (record (t.vfs.nodes node) { file_data = fresh; file_size = size });
    memory = memcpy t.vfs.memory fresh (archive + block) size;
  };
}

-- The body of the `switch` for a header. `data_of` is the address of a node's new data.
unfoldable pub unpack : ℕ → Heap → (ℕ → ℕ) → ℕ → ℕ → Tree → Outcome Tree
unpack fuel h data_of archive size t =
    let m = t.vfs.memory in
    let normal : Outcome Tree = string_at fuel m archive >>= λ name. create h name file t >>= λ r.
    if r.0 == 0 then fault else done (filled archive (data_of r.0) size r.0 r.1) in
    let folder : Outcome Tree =
      string_at fuel m archive >>= λ name. create h name directory t >>= λ r. done r.1 in
    if m (archive + type_offset) == b'0'
    then normal
    else if m (archive + type_offset) == b'5'
    then folder
    else done t

-- The loop of `init` from a header on. `steps` bounds it, `fuel` the strings.
unfoldable pub init_from : ℕ → ℕ → Heap → (ℕ → ℕ) → ℕ → Tree → Outcome Tree
init_from zero fuel h data_of archive t = out_of_fuel
init_from (suc steps) fuel h data_of archive t =
    let on : Outcome Tree = oct_to_dec fuel t.vfs.memory (archive + size_offset) >>= λ size.
    unpack fuel h data_of archive size t >>= λ t'.
    init_from steps fuel h data_of ((archive + block + align_up size) % 2 ^ 64) t' in
    if is_ustar t.vfs.memory archive then on else done t
