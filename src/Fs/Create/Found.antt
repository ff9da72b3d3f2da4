-- ===== src/Fs/Create/Found.antt =====
-- src/kernel/fs/vfs.cpp: `get_node` finds what `create` made.
use umbra_os.Prelude.{
  ℕ, zero, suc, ◌+◌, ◌^◌, ◌<◌, ◌≡◌, ◌≢◌, refl, some, if◌then◌else◌, List, [], ◌∷◌, Outcome, done,
  fault, length, arith, All, inl, inr, ==_of_ne, Option-cases,
}
use umbra_os.Utils.HashMap
use umbra_os.Utils.HashMap.{StringHashMap}
use umbra_os.Fs.Vfs.{Node, NodeType, directory, until_slash, skip_slashes, node_from, get_node}
use umbra_os.Fs.Create.{Tree, Heap, children_of, grown, create_from, create}
use umbra_os.Fs.Create.Rest.{is_empty, is_last_lem, sub_path, length-sub_path, All-sub_path}
use umbra_os.Fs.Create.Grown.{
  Way, arrived, through, missing, Extends, IsHeap, Free, inserted, looked_up, made, grown-Free,
  grown-Extends,
}

module _ (h : Heap) (ok : IsHeap h) (type : NodeType) where
  -- What `create` comes to from a parent down.
  abbrev Makes : ℕ → ℕ → List ℕ → Tree → Type 0
  Makes fuel parent path t =
      (p : ℕ) × (t' : Tree) × (create_from fuel h type parent path t ≡ done (p, t'))
      × (p ≢ 0)
      × (t'.vfs.root_mountpoint ≡ t.vfs.root_mountpoint)
      × Extends t.vfs.nodes t'.vfs.nodes
      × ((steps : ℕ) → length path < steps → node_from steps t'.vfs.nodes parent path ≡ done p)

  -- The type of a new node, by what is left of the path.
  abbrev type_for : List ℕ → NodeType
  type_for rest = if is_empty rest then type else directory

  way_on :
      (x : ℕ) (nodes : ℕ → Node) (inode : ℕ) (rest : List ℕ)
      → (nodes x).children ≡ children_of (type_for rest) (h.table inode)
      → Way nodes x rest
  way_on x nodes inode [] e = arrived x
  way_on x nodes inode (c ∷ rest) e =
      missing x c rest (h.table inode) e (ok.blank inode (until_slash (c ∷ rest)).0)

  at_end : (steps : ℕ) (nodes : ℕ → Node) (p : ℕ) → 0 < steps → node_from steps nodes p [] ≡ done p
  unfolding node_from
  at_end zero nodes p l = absurd (omega (arith, l))
  at_end (suc steps) nodes p l = refl

  on_path :
      (steps p c : ℕ) (path : List ℕ) (children : StringHashMap ℕ) (x : ℕ) (nodes : ℕ → Node)
      (end : ℕ)
      → suc (length path) < steps
      → (nodes p).children ≡ some children
      → HashMap.get 256 children (until_slash (c ∷ path)).0 ≡ some x
      → ((steps' : ℕ)
          → length (sub_path c path) < steps'
          → node_from steps' nodes x (sub_path c path) ≡ done end)
      → node_from steps nodes p (c ∷ path) ≡ done end
  unfolding node_from
  on_path zero p c path children x nodes end l e g on = absurd (omega (arith, l))
  on_path (suc steps) p c path children x nodes end l e g on =
      rw (e, node_from, g) (on steps (omega (arith, l, length-sub_path c path)))

  create_from_lem :
      (fuel parent : ℕ) (path : List ℕ) (t : Tree)
      → Way t.vfs.nodes parent path
      → parent ≢ 0
      → length path < fuel
      → Free h t
      → t.next_inode + length path < 2 ^ 64
      → ((k : ℕ) → k < length path → h.behind k ≢ 0)
      → All (λ c. c ≢ 0) path
      → Makes fuel parent path t
  unfolding create_from node_from
  create_from_lem zero parent path t w nz f free fits behind a = absurd (omega (arith, f))
  create_from_lem (suc fuel) _ _ t (arrived p) nz f free fits behind a =
      (p, t, refl, nz, refl, λ q ch name x e g. (ch, e, g), λ steps l. at_end steps t.vfs.nodes p l)
  create_from_lem (suc fuel) _ _ t (through p c path children x e g set w) nz f free fits behind a =
      let short = length-sub_path c path in
      let (end, t', made, some_node, root, kept, walk) =
        create_from_lem fuel x (sub_path c path) t w set (omega (arith, f, short)) free
          (omega (arith, fits, short)) (λ k l. behind k (omega (arith, l, short)))
          (All-sub_path (λ c. c ≢ 0) c path a) in
      let (children', e', g') = kept p children (until_slash (c ∷ path)).0 x e g in
      (
        end,
        t',
        rw (e, create_from, g) made,
        some_node,
        root,
        kept,
        λ steps l. on_path steps p c path children' x t'.vfs.nodes end l e' g' walk,
      )
  create_from_lem (suc fuel) _ _ t (missing p c path children e g) nz f free fits behind a =
      let short = length-sub_path c path in
      let rest = sub_path c path in
      let name = (until_slash (c ∷ path)).0 in
      let nonzero : (k : ℕ) → k < length rest → h.behind k ≢ 0 =
        λ k l. behind k (omega (arith, l, short)) in
      let chars = All-sub_path (λ c. c ≢ 0) c path a in
      let last = is_last_lem h.behind rest nonzero chars in
      let (x, t1) = grown h (type_for rest) p children name t in
      let way =
        way_on x t1.vfs.nodes t.next_inode rest
          (made h ok (type_for rest) p children name t e g free) in
      let (end, t', more, some_node, root, kept, walk) =
        create_from_lem fuel x rest t1 way (ok.set t.next_inode) (omega (arith, f, short))
          (grown-Free h ok (type_for rest) p children name t e g free (omega (arith, fits)))
          (omega (arith, fits, short)) nonzero chars in
      let first = grown-Extends h ok (type_for rest) p children name t e g free in
      let (children', e', g') =
        kept p (HashMap.insert 256 children name x) name x
          (inserted h ok (type_for rest) p children name t e g free)
          (looked_up h ok (type_for rest) p children name t e g free) in
      (
        end,
        t',
        rw (e, create_from, g, last) more,
        some_node,
        root,
        λ q ch other y e'' g''.
            let (ch1, e1, g1) = first q ch other y e'' g'' in kept q ch1 other y e1 g1,
        λ steps l. on_path steps p c path children' x t'.vfs.nodes end l e' g' walk,
      )

-- A path that leads to a node still does when directories have more children.
node_from-Extends :
    (steps : ℕ) (nodes nodes' : ℕ → Node) (p q : ℕ) (path : List ℕ)
    → Extends nodes nodes'
    → q ≢ 0
    → node_from steps nodes p path ≡ done q
    → node_from steps nodes' p path ≡ done q
unfolding node_from
node_from-Extends zero nodes nodes' p q path x nz e = cc
node_from-Extends (suc steps) nodes nodes' p q [] x nz e = e
node_from-Extends (suc steps) nodes nodes' p q (c ∷ path) x nz e =
    elim (Option-cases (nodes p).children) [
      | inl none_e ↦ absurd (no_fault (rw (none_e, node_from) at e))
      | inr some_e ↦
          let (children, ce) = some_e in
          elim (Option-cases (HashMap.get 256 children (until_slash (c ∷ path)).0)) [
            | inl ge ↦ absurd (nz (null (rw (ce, node_from, ge) at e)))
            | inr some_g ↦
                let (y, ge) = some_g in
                let (children', ce', ge') = x p children (until_slash (c ∷ path)).0 y ce ge in
                rw (ce', node_from, ge')
                  (node_from-Extends steps nodes nodes' y q (sub_path c path) x nz
                    (rw (ce, node_from, ge) at e))
          ]
    ]
  where
    no_fault : ◌≡◌ {A = Outcome ℕ} fault (done q) → ⊥
    no_fault e' = cc

    null : ◌≡◌ {A = Outcome ℕ} (done 0) (done q) → q ≡ 0
    null e' = cc

-- When the root is not null, a path does not start with a slash, holds no byte 0, and leads from
-- the root through directories, whose children on it are not null, to its end or to a directory
-- that misses the next name; when the addresses of new nodes are not null and differ from one
-- another, no directory stands at them and their tables are empty; when the inode numbers do not
-- run out; and when as many bytes behind the empty literal as the path is long are not 0: then
-- `create` returns a node that is not null, `get_node` finds it under the path, and every other
-- path that led to a node still leads to it.
pub get_node-create :
    (h : Heap) (path : List ℕ) (type : NodeType) (t : Tree)
    → IsHeap h
    → t.vfs.root_mountpoint ≢ 0
    → Way t.vfs.nodes t.vfs.root_mountpoint path
    → Free h t
    → t.next_inode + length path < 2 ^ 64
    → ((k : ℕ) → k < length path → h.behind k ≢ 0)
    → All (λ c. c ≢ 0) path
    → skip_slashes path ≡ path
    → (p : ℕ) × (t' : Tree) × (create h path type t ≡ done (p, t'))
      × (p ≢ 0)
      × (get_node t'.vfs path ≡ done p)
      × ((other : List ℕ) (q : ℕ)
          → q ≢ 0
          → get_node t.vfs other ≡ done q
          → get_node t'.vfs other ≡ done q)
unfolding create get_node
get_node-create h path type t ok root way free fits behind chars plain =
    let (p, t', e, some_node, same, kept, walk) =
      create_from_lem h ok type (suc (length path)) t.vfs.root_mountpoint path t way root
        (omega arith) free fits behind chars in
    let here = ==_of_ne t.vfs.root_mountpoint 0 root in
    (
      p,
      t',
      rw (here, e) refl,
      some_node,
      rw (same, here, plain) (walk (suc (length path)) (omega arith)),
      λ other q nz found.
          rw (same, here)
            (node_from-Extends (suc (length other)) t.vfs.nodes t'.vfs.nodes t.vfs.root_mountpoint q
              (skip_slashes other) kept nz (rw here at found)),
    )
