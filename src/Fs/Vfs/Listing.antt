-- ===== src/Fs/Vfs/Listing.antt =====
-- `root_readdir` of Kernel/CrecentKernel/src/fs/vfs.cpp: the root lists the mount points but itself, and
-- then the overlay nodes without a slash in their names.
use amazing_os.Base.{
  ℕ, suc, ◌+◌, ◌-◌, ◌≤◌, ◌≡◌, refl, ◌∙◌, ap, sym, ◌⊎◌, inl, inr, true, false, Option, none, some,
  List, [], ◌∷◌, ◌++◌, arith, ◌==◌, if◌then◌else◌, get_elem?, drop, Bool-cases, Option-cases,
}
use amazing_os.Fs.CString.{char_at, str_equal, str_copy}
use amazing_os.Fs.Node.{VfsNode, MountPoint, file, directory}
use amazing_os.Fs.Tarfs.{slash, slash_index}
use amazing_os.Fs.Vfs.{blank}

-- The entry of a mount point; that of "/" is left out.
pub mount_entry : MountPoint → Option VfsNode
mount_entry m =
    if str_equal m.path (slash ∷ [])
    then none
    else some (record blank {
      name = str_copy (if char_at m.path 0 == slash then drop 1 m.path else m.path) 128;
      type = directory;
    })

pub node_entry : VfsNode → Option VfsNode
node_entry n = elim (slash_index n.name) [ none ↦ some n | some i ↦ none ]

-- The first loop: the entry, or `current_idx` at its end.
pub yield_mounts : (index : ℕ) → List MountPoint → (current : ℕ) → VfsNode ⊎ ℕ
yield_mounts index [] current = inr current
yield_mounts index (m ∷ ms) current = elim (mount_entry m) [
  | none ↦ yield_mounts index ms current
  | some e ↦ elim (current == index) [ true ↦ inl e | false ↦ yield_mounts index ms (current + 1) ]
]

pub yield_nodes : (index : ℕ) → List VfsNode → (current : ℕ) → Option VfsNode
yield_nodes index [] current = none
yield_nodes index (n ∷ ns) current = elim (node_entry n) [
  | none ↦ yield_nodes index ns current
  | some e ↦ elim (current == index) [ true ↦ some e | false ↦ yield_nodes index ns (current + 1) ]
]

-- The C function returns -1 (`none`), 0 (`some none`) or 1 with an entry.
pub root_readdir : VfsNode → ℕ → List MountPoint → List VfsNode → Option (Option VfsNode)
root_readdir node index mounts nodes = elim node.type [
  | file ↦ none
  | directory ↦ some (elim (yield_mounts index mounts 0) [
    | inl e ↦ some e
    | inr current ↦ yield_nodes index nodes current
  ])
]

-- The entries of all that has one, in order.
pub entries_of : {A : Type 0} → (A → Option VfsNode) → List A → List VfsNode
entries_of entry [] = []
entries_of entry (x ∷ xs) = elim (entry x) [
  | none ↦ entries_of entry xs
  | some e ↦ e ∷ entries_of entry xs
]

yield_nodes-entries :
    (index : ℕ) (ns : List VfsNode) (current : ℕ)
    → current ≤ index
    → yield_nodes index ns current ≡ get_elem? (entries_of node_entry ns) (index - current)
unfolding yield_nodes entries_of
yield_nodes-entries index [] current le = refl
yield_nodes-entries index (n ∷ ns) current le = elim (Option-cases (node_entry n)) [
  | inl e ↦ rw (e, yield_nodes, entries_of) (yield_nodes-entries index ns current le)
  | inr (x, e) ↦ elim (Bool-cases (current == index)) [
    | inl at ↦
        let z : index - current ≡ 0 = ground arith in
        rw (e, yield_nodes, entries_of, z) (rw (at, yield_nodes))
    | inr later ↦
        let s : index - current ≡ suc (index - (current + 1)) = ground arith in
        rw (e, yield_nodes, entries_of, s)
          (rw (later, yield_nodes) (yield_nodes-entries index ns (current + 1) (ground arith)))
  ]
]

-- What the first loop finds, with the entries that other nodes add behind.
yield_mounts-entries :
    (index : ℕ) (ms : List MountPoint) (current : ℕ) (others : List VfsNode)
    → current ≤ index
    → ((e : VfsNode) × (yield_mounts index ms current ≡ inl e)
        × (get_elem? (entries_of mount_entry ms ++ others) (index - current) ≡ some e))
      ⊎ ((c : ℕ) × (yield_mounts index ms current ≡ inr c)
          × (c ≤ index)
          × (get_elem? (entries_of mount_entry ms ++ others) (index - current)
              ≡ get_elem? others (index - c)))
unfolding yield_mounts entries_of
yield_mounts-entries index [] current others le = inr (current, refl, le, refl)
yield_mounts-entries index (m ∷ ms) current others le = elim (Option-cases (mount_entry m)) [
  | inl e ↦ rw (e, yield_mounts, entries_of) (yield_mounts-entries index ms current others le)
  | inr (x, e) ↦ elim (Bool-cases (current == index)) [
    | inl at ↦
        let z : index - current ≡ 0 = ground arith in
        inl (x, rw (e, yield_mounts) (rw (at, yield_mounts)), rw (e, entries_of, z) refl)
    | inr later ↦
        let s : index - current ≡ suc (index - (current + 1)) = ground arith in
        rw (e, yield_mounts, entries_of, s)
          (rw (later, yield_mounts)
            (yield_mounts-entries index ms (current + 1) others (ground arith)))
  ]
]

-- Asking the root for entry 0, 1, 2, … lists the mount points but "/" and then the overlay nodes whose
-- names have no slash, once each and in order, and the next call says that there are no more.
root_readdir-entries :
    (node : VfsNode) (index : ℕ) (mounts : List MountPoint) (nodes : List VfsNode)
    → node.type ≡ directory
    → root_readdir node index mounts nodes
      ≡ some (get_elem? (entries_of mount_entry mounts ++ entries_of node_entry nodes) index)
unfolding root_readdir
root_readdir-entries node index mounts nodes is_dir =
    let all = entries_of mount_entry mounts ++ entries_of node_entry nodes in
    let first : get_elem? all (index - 0) ≡ get_elem? all index =
      ap (get_elem? all) {x = index - 0} {y = index} (omega arith) in
    rw (is_dir, root_readdir)
      (ap some
        (elim (yield_mounts-entries index mounts 0 (entries_of node_entry nodes) (omega arith)) [
          | inl (e, found, same) ↦ rw found (sym same ∙ first)
          | inr (c, ended, le, same) ↦
              rw ended (yield_nodes-entries index nodes c le ∙ sym same ∙ first)
        ]))
