-- ===== src/Tests/Trees.antt =====
-- A tree with an empty root, and an archive's number.
use umbra_os.Prelude.{
  ℕ, ◌+◌, ◌≡◌, ◌≢◌, refl, List, [], ◌∷◌, none, some, ◌==◌, if◌then◌else◌, arith, done,
}
use umbra_os.Utils.HashMap
use umbra_os.Utils.HashMap.{StringHashMap}
use umbra_os.Fs.Vfs.{file, directory, tmpfs, get_node, skip_slashes, read_only}
use umbra_os.Fs.Create.{Tree, Heap, new_node, create}
use umbra_os.Fs.Create.Grown.{IsHeap, missing, Free}
use umbra_os.Fs.Create.Found.{get_node-create}
use umbra_os.Fs.Initramfs.{oct_to_dec}
use umbra_os.Fs.Initramfs.Octal.{oct_to_dec_lem}

abbrev no_children : StringHashMap ℕ
no_children = record { entries = λ i. [] }

abbrev heap : Heap
heap = record { fresh = λ i. 100 + i; table = λ i. no_children; behind = λ k. 1 }

no_child : (name : List ℕ) → HashMap.get 256 no_children name ≡ none
unfolding HashMap.get HashMap.get_chain
no_child name = refl

heap-IsHeap : IsHeap heap
heap-IsHeap = record {
  distinct = λ i j e. omega (arith, e);
  set = λ i e. omega (arith, e);
  blank = λ i. no_child;
}

-- The root stands at address 8.
abbrev tree : Tree
tree = record {
  vfs = record {
    memory = λ a. 0;
    nodes = λ p. if p == 8 then new_node directory (some no_children) 0 else new_node file none 0;
    fs_of = λ p. tmpfs;
    descriptors = λ d. record { id = 0; node = 0; mode = read_only; rw_position = 0 };
    root_mountpoint = 8;
    stdin = 0;
  };
  next_inode = 1;
  names = λ p. [];
  parents = λ p. 0;
}

abbrev path : List ℕ
path = b'a' ∷ b'/' ∷ b'b' ∷ []

path_plain : skip_slashes path ≡ path
unfolding skip_slashes
path_plain = refl

tree-Free : Free heap tree
tree-Free i late = ground arith

get_node-create_example :
    (p : ℕ) × (t' : Tree) × (create heap path file tree ≡ done (p, t'))
    × (p ≢ 0)
    × (get_node t'.vfs path ≡ done p)
    × ((other : List ℕ) (q : ℕ)
        → q ≢ 0
        → get_node tree.vfs other ≡ done q
        → get_node t'.vfs other ≡ done q)
get_node-create_example =
    get_node-create heap path file tree heap-IsHeap (omega arith)
      (missing 8 b'a' (b'/' ∷ b'b' ∷ []) no_children refl (no_child _)) tree-Free (omega arith)
      (λ k l. omega arith) (omega arith, (omega arith, (omega arith, tt))) path_plain

-- "017", which is 15.
oct_to_dec_lem_example :
    oct_to_dec 4
      (λ a. if a == 0 then b'0' else if a == 1 then b'1' else if a == 2 then b'7' else 0)
      0
    ≡ done 15
oct_to_dec_lem_example =
    oct_to_dec_lem
      (λ a. if a == 0 then b'0' else if a == 1 then b'1' else if a == 2 then b'7' else 0) 15 3 4 0
      (omega arith) (omega arith) (omega arith) (refl, (refl, (refl, refl)))
