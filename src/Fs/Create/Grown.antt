-- ===== src/Fs/Create/Grown.antt =====
-- src/kernel/fs/vfs.cpp: the file system after `create` has made one node.
use umbra_os.Prelude.{
  ℕ, ◌+◌, ◌^◌, ◌<◌, ◌≤◌, ◌≡◌, ◌≢◌, refl, sym, ◌∙◌, ap, Option, none, some, ◌==◌, List, [], ◌∷◌,
  arith, Bool-cases, inl, inr, ==_iff, ==→ne, ==_refl,
}
use umbra_os.Prelude.Maps.{update, update_self, update_ne}
use umbra_os.Utils.HashMap
use umbra_os.Utils.HashMap.{StringHashMap, hash_key}
use umbra_os.Utils.HashMap.Lookup.{get-insert}
use umbra_os.Fs.Vfs.{Node, NodeType, until_slash}
use umbra_os.Fs.Create.{Tree, Heap, new_node, children_of, grown}
use umbra_os.Fs.Create.Rest.{sub_path}

-- From a node, a path leads through directories, whose children on it are not null, to its end, or to one
-- that misses the next name.
pub data Way (nodes : ℕ → Node) : ℕ → List ℕ → Type 0 where
  arrived : (p : ℕ) → Way nodes p []
  through :
      (p c : ℕ) (path : List ℕ) (children : StringHashMap ℕ) (x : ℕ)
      → (nodes p).children ≡ some children
      → HashMap.get 256 children (until_slash (c ∷ path)).0 ≡ some x
      → x ≢ 0
      → Way nodes x (sub_path c path)
      → Way nodes p (c ∷ path)
  missing :
      (p c : ℕ) (path : List ℕ) (children : StringHashMap ℕ)
      → (nodes p).children ≡ some children
      → HashMap.get 256 children (until_slash (c ∷ path)).0 ≡ none
      → Way nodes p (c ∷ path)

-- Each child of a directory stays its child under its name.
abbrev pub Extends : (ℕ → Node) → (ℕ → Node) → Type 0
Extends nodes nodes' =
    (q : ℕ) (children : StringHashMap ℕ) (name : List ℕ) (x : ℕ)
    → (nodes q).children ≡ some children
    → HashMap.get 256 children name ≡ some x
    → (children' : StringHashMap ℕ) × ((nodes' q).children ≡ some children')
      × (HashMap.get 256 children' name ≡ some x)

-- Memory for new nodes: their addresses differ and are not null, and their tables are empty.
pub record IsHeap (h : Heap) : Type 0 where
  pub distinct : (i j : ℕ) → h.fresh i ≡ h.fresh j → i ≡ j
  pub set : (i : ℕ) → h.fresh i ≢ 0
  pub blank : (i : ℕ) (name : List ℕ) → HashMap.get 256 (h.table i) name ≡ none

-- No node stands at the addresses to come.
abbrev pub Free : Heap → Tree → Type 0
Free h t = (i : ℕ) → t.next_inode ≤ i → (t.vfs.nodes (h.fresh i)).children ≡ none

get-hash :
    (m : StringHashMap ℕ) (a b : List ℕ)
    → hash_key a ≡ hash_key b
    → HashMap.get 256 m a ≡ HashMap.get 256 m b
unfolding HashMap.get
get-hash m a b e = rw e refl

module _ (h : Heap) (ok : IsHeap h) (type : NodeType) (parent : ℕ) (children : StringHashMap ℕ)
    (name : List ℕ) (t : Tree) (e : (t.vfs.nodes parent).children ≡ some children)
    (g : HashMap.get 256 children name ≡ none) (free : Free h t) where
  abbrev x : ℕ
  x = (grown h type parent children name t).0

  abbrev after : Tree
  after = (grown h type parent children name t).1

  -- The nodes before the parent's table is written, and the parent with it.
  abbrev with_new : ℕ → Node
  with_new =
      update t.vfs.nodes x (new_node type (children_of type (h.table t.next_inode)) t.next_inode)

  abbrev grown_parent : Node
  grown_parent = record (t.vfs.nodes parent) {
    children = some (HashMap.insert 256 children name x);
  }

  no_directory : (i : ℕ) → t.next_inode ≤ i → h.fresh i ≢ parent
  no_directory i late q =
      let empty = free i late in let same = ap (λ p. (t.vfs.nodes p).children) q in cc

  apart : parent ≢ x
  apart q = no_directory t.next_inode (omega arith) (sym q)

  pub inserted : (after.vfs.nodes parent).children ≡ some (HashMap.insert 256 children name x)
  inserted = ap (λ n. n.children) (update_self with_new parent grown_parent)

  pub looked_up : HashMap.get 256 (HashMap.insert 256 children name x) name ≡ some x
  looked_up = get-insert 256 children name x name ∙ rw (==_refl (hash_key name), g) refl

  pub made : (after.vfs.nodes x).children ≡ children_of type (h.table t.next_inode)
  made =
      ap (λ n. n.children)
        (update_ne with_new parent x grown_parent apart
          ∙ update_self t.vfs.nodes x
              (new_node type (children_of type (h.table t.next_inode)) t.next_inode))

  untouched : (q : ℕ) → parent ≢ q → x ≢ q → after.vfs.nodes q ≡ t.vfs.nodes q
  untouched q other old =
      update_ne with_new parent q grown_parent other
      ∙ update_ne t.vfs.nodes x q
          (new_node type (children_of type (h.table t.next_inode)) t.next_inode) old

  pub grown-Free : t.next_inode + 1 < 2 ^ 64 → Free h after
  grown-Free fits i late =
      let later : t.next_inode + 1 ≤ i = omega (arith, late, fits) in
      let other : x ≢ h.fresh i =
        λ q. let same = ok.distinct t.next_inode i q in omega (arith, same, later) in
      ap (λ n. n.children)
        (untouched (h.fresh i) (λ q. no_directory i (omega (arith, later)) (sym q)) other)
      ∙ free i (omega (arith, later))

  found_still :
      (other : List ℕ) (y : ℕ)
      → HashMap.get 256 children other ≡ some y
      → HashMap.get 256 (HashMap.insert 256 children name x) other ≡ some y
  found_still other y g' =
      get-insert 256 children name x other ∙ elim (Bool-cases (hash_key name == hash_key other)) [
        | inl same ↦
            let one =
              get-hash children name other ((==_iff (hash_key name) (hash_key other)).0 same) in
            absurd (none_some (sym g ∙ one ∙ g'))
        | inr differ ↦ rw differ g'
      ]
    where
      none_some : ◌≡◌ {A = Option ℕ} none (some y) → ⊥
      none_some q = cc

  pub grown-Extends : Extends t.vfs.nodes after.vfs.nodes
  grown-Extends q ch other y e' g' = elim (Bool-cases (parent == q)) [
    | inl here ↦ at_parent ((==_iff parent q).0 here)
    | inr away ↦ elim (Bool-cases (x == q)) [
      | inl new ↦
          let same = ap (λ p. (t.vfs.nodes p).children) ((==_iff x q).0 new) in
          let empty = free t.next_inode (omega arith) in absurd (none_some (sym empty ∙ same ∙ e'))
      | inr old ↦
          (ch, ap (λ n. n.children) (untouched q (==→ne parent q away) (==→ne x q old)) ∙ e', g')
    ]
  ]
    where
      none_some : ◌≡◌ {A = Option (StringHashMap ℕ)} none (some ch) → ⊥
      none_some q' = cc

      at_parent :
          parent ≡ q
          → (children' : StringHashMap ℕ) × ((after.vfs.nodes q).children ≡ some children')
            × (HashMap.get 256 children' other ≡ some y)
      at_parent same =
          let one : children ≡ ch = unwrap (sym e ∙ ap (λ p. (t.vfs.nodes p).children) same ∙ e') in
          (
            HashMap.insert 256 children name x,
            ap (λ p. (after.vfs.nodes p).children) (sym same) ∙ inserted,
            found_still other y (ap (λ m. HashMap.get 256 m other) one ∙ g'),
          )
        where
          unwrap : ◌≡◌ {A = Option (StringHashMap ℕ)} (some children) (some ch) → children ≡ ch
          unwrap p = cc
