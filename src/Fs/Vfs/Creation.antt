-- ===== src/Fs/Vfs/Creation.antt =====
-- `VFS::create_file` and `VFS::open` together.
use amazing_os.Base.{
  ℕ, ◌+◌, ◌<◌, ◌≡◌, refl, ◌∙◌, ◌||◌, ap, sym, inl, inr, ◌≢◌, ◌⊎◌, Bool, false, Option, some, none,
  List, [], ◌∷◌, ◌++◌, arith, ◌==◌, leb, if◌then◌else◌, length, drop, get_or, Bool-cases,
  Option-cases, ≢→==_false, lt→leb_false, nil_of-length,
}
use amazing_os.Fs.CString.{
  CString, char_at, str_len, str_equal, str_equal_iff, str_copy, str_copy_lem,
}
use amazing_os.Fs.Node.{VfsNode, NodeRef, MountPoint, child_node, Handler, ram, tarfs, exfat}
use amazing_os.Fs.Tarfs.{slash}
use amazing_os.Fs.Tarfs.Init.{skip_slashes}
use amazing_os.Fs.Vfs.{
  Exfat, World, blank, find_child, best_mount, parse_filename, open_path, open_below, call_finddir,
  create_file, ram_node, deref,
}

find_child-append :
    (rel : CString) (ns : List VfsNode) (n : VfsNode) (i : ℕ)
    → find_child rel ns i ≡ none
    → n.name ≡ rel
    → find_child rel (ns ++ n ∷ []) i ≡ some (i + length ns)
unfolding find_child
find_child-append rel [] n i e same =
    rw (same, (str_equal_iff rel rel).1 refl) (ap some (omega arith))
find_child-append rel (x ∷ ns) n i e same = elim (Bool-cases (str_equal x.name rel)) [
  | inl hit ↦ cc (sym (ap (λ (b : Bool). if b then some i else find_child rel ns (i + 1)) hit) ∙ e)
  | inr miss ↦
      rw miss (find_child-append rel ns n (i + 1) (rw miss at e) same ∙ ap some (omega arith))
]

get_or-append : {A : Type 0} (xs : List A) (x d : A) → get_or (xs ++ x ∷ []) (length xs) d ≡ x
get_or-append [] x d = refl
get_or-append (y ∷ xs) x d = get_or-append xs x d

-- The name under which the overlay keeps a path.
abbrev pub relative : CString → CString
relative path = if char_at path 0 == slash then drop 1 path else path

handler :
    (h : Option Handler)
    → (h ≡ none) ⊎ ((h ≡ some ram) ⊎ ((h ≡ some tarfs) ⊎ ((i : ℕ) × (h ≡ some (exfat i)))))
handler none = inl refl
handler (some ram) = inr (inl refl)
handler (some tarfs) = inr (inr (inl refl))
handler (some (exfat i)) = inr (inr (inr (i, refl)))

module _ {E : Type 0} (ex : Exfat E) where
  call_finddir-child_nodes :
      (root : NodeRef) (name : CString) (w : World E)
      → (call_finddir ex root name w).1.child_nodes ≡ w.child_nodes
  unfolding call_finddir
  call_finddir-child_nodes root name w = elim (handler (deref ex w root).finddir) [
    | inl e ↦ rw (e, call_finddir)
    | inr (inl e) ↦ rw (e, call_finddir)
    | inr (inr (inl e)) ↦ rw (e, call_finddir)
    | inr (inr (inr (i, e))) ↦ rw (e, call_finddir)
  ]

  open_below-child_nodes :
      (m : MountPoint) (subpath : CString) (w : World E)
      → (open_below ex m subpath w).1.child_nodes ≡ w.child_nodes
  unfolding open_below
  open_below-child_nodes m subpath w = elim (Bool-cases (str_len subpath == 0)) [
    | inl whole ↦ rw whole
    | inr part ↦ rw part (call_finddir-child_nodes m.root subpath w)
  ]

  -- Opening a file adds nothing to the overlay and takes nothing from it.
  open_path-child_nodes :
      (path : CString) (w : World E) → (open_path ex (some path) w).1.child_nodes ≡ w.child_nodes
  unfolding open_path open_below
  open_path-child_nodes [] w = refl
  open_path-child_nodes (c ∷ s) w =
      elim (Option-cases (find_child (relative (c ∷ s)) w.child_nodes 0)) [
        | inr (i, e) ↦ rw (e, open_path)
        | inl e ↦
            rw (e, open_path)
              (elim (Option-cases (best_mount (c ∷ s) w.mounts none 0)) [
                | inl b ↦ rw (b, open_path)
                | inr (m, b) ↦
                    rw (b, open_path)
                      (open_below-child_nodes m (skip_slashes (drop m.path_len (c ∷ s))) w)
              ])
      ]

  -- A name in the overlay is found before any mount point is looked at.
  open_overlay :
      (path : CString) (i : ℕ) (w : World E)
      → path ≢ []
      → find_child (relative path) w.child_nodes 0 ≡ some i
      → open_path ex (some path) w ≡ (some (child_node i), w)
  unfolding open_path
  open_overlay [] i w ne e = absurd (ne refl)
  open_overlay (c ∷ s) i w ne e = rw (e, open_path)

  not_in_overlay :
      (path : CString) (w w' : World E)
      → path ≢ []
      → open_path ex (some path) w ≡ (none, w')
      → find_child (relative path) w.child_nodes 0 ≡ none
  not_in_overlay path w w' ne e = elim (Option-cases (find_child (relative path) w.child_nodes 0)) [
    | inl absent ↦ absent
    | inr (i, at) ↦ cc (open_overlay path i w ne at)
  ]

  module _ (path : CString) (buffer : Option ℕ) (capacity : ℕ) (w : World E)
      (named : relative path ≢ []) (room : length w.child_nodes < 64) where
    go_on : (str_len (relative path) == 0 || leb 64 (length w.child_nodes)) ≡ false
    unfolding str_len
    go_on =
        rw (≢→==_false _ _ (λ z. named (nil_of-length (relative path) z)), lt→leb_false _ _ room)

    -- What a creation adds: a node at the end of the overlay, with the name that `open` looks for.
    created :
        (w' : World E)
        → open_path ex (some path) w ≡ (none, w')
        → create_file ex (some path) buffer capacity w ≡ (
          some (child_node (length w'.child_nodes)),
          record w' {
            child_nodes = w'.child_nodes ++ ram_node (relative path) buffer capacity ∷ [];
          },
        )
    unfolding create_file parse_filename
    created w' e = rw go_on (rw e)

    -- While the overlay has room, a file that cannot be opened and whose name is not empty and fits is
    -- created at the end of the overlay; from then
    -- on its path opens that node, which has the given buffer and capacity and no contents yet.
    pub open_path-create_file :
        (w' : World E)
        → length (relative path) < 128
        → open_path ex (some path) w ≡ (none, w')
        → let (made, after) = create_file ex (some path) buffer capacity w in
          (made ≡ some (child_node (length w.child_nodes)))
          × (open_path ex (some path) after ≡ (made, after))
          × (deref ex after (child_node (length w.child_nodes))
              ≡ record (ram_node [] buffer capacity) { name = relative path })
    unfolding deref
    open_path-create_file w' fits e =
        let kept : w'.child_nodes ≡ w.child_nodes =
          sym (ap (λ (r : Option NodeRef × World E). r.1.child_nodes) e)
          ∙ open_path-child_nodes path w in
        let whole : str_copy (relative path) 128 ≡ relative path = str_copy_lem _ 128 fits in
        let node = ram_node (relative path) buffer capacity in
        let absent = not_in_overlay path w w' (λ z. named (ap relative z)) e in
        rw (created w' e, kept)
          (
            refl,
            open_overlay path (length w.child_nodes)
                (record w' { child_nodes = w.child_nodes ++ node ∷ [] })
                (λ z. named (ap relative z))
                (find_child-append (relative path) w.child_nodes node 0 absent whole
                  ∙ ap some (omega arith)),
            get_or-append w.child_nodes node blank ∙ ap (λ n. record node { name = n }) whole,
          )
