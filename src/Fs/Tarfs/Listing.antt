-- ===== src/Fs/Tarfs/Listing.antt =====
-- `tarfs_readdir` against the list of a directory's entries.
pub mod Distinct
pub mod Complete
use amazing_os.Base.{
  ℕ, zero, suc, sym, subst, take, ◌+◌, ◌-◌, ◌≤◌, ◌≡◌, refl, ◌∙◌, ap, inl, inr, List, [], ◌∷◌, ◌++◌,
  some, none, arith, ◌==◌, Bool-cases, Option-cases, get_elem?,
}
use mathlib.Core.Option.{some-injective}
use amazing_os.Fs.CString.{CString}
use amazing_os.Fs.Node.{VfsNode, directory}
use amazing_os.Fs.Tarfs.{slash, slash_index, dir_prefix, listed, readdir_loop, tarfs_readdir}

-- All entries of a directory, in the order of the nodes that give rise to them.
unfoldable pub entries : (name prefix : CString) (earlier rest : List VfsNode) → List VfsNode
entries name prefix earlier [] = []
entries name prefix earlier (n ∷ rest) =
    let more = entries name prefix (earlier ++ n ∷ []) rest in
    elim (listed name prefix earlier n) [ none ↦ more | some e ↦ e ∷ more ]

readdir_loop-entries :
    (name prefix : CString) (index : ℕ) (earlier rest : List VfsNode) (unique : ℕ)
    → unique ≤ index
    → readdir_loop name prefix index earlier rest unique
      ≡ get_elem? (entries name prefix earlier rest) (index - unique)
unfolding readdir_loop entries
readdir_loop-entries name prefix index earlier [] unique le = refl
readdir_loop-entries name prefix index earlier (n ∷ rest) unique le =
    elim (Option-cases (listed name prefix earlier n)) [
      | inl e ↦
          rw (e, readdir_loop, entries)
            (readdir_loop-entries name prefix index (earlier ++ n ∷ []) rest unique le)
      | inr (x, e) ↦ elim (Bool-cases (unique == index)) [
        | inl at ↦
            let z : index - unique ≡ 0 = ground arith in
            rw (e, readdir_loop, entries, z) (rw (at, readdir_loop))
        | inr later ↦
            let s : index - unique ≡ suc (index - (unique + 1)) = ground arith in
            rw (e, readdir_loop, entries, s)
              (rw (later, readdir_loop)
                (readdir_loop-entries name prefix index (earlier ++ n ∷ []) rest (unique + 1)
                  (ground arith)))
      ]
    ]

pub tarfs_readdir-entries :
    (node : VfsNode) (index : ℕ) (nodes : List VfsNode)
    → node.type ≡ directory
    → tarfs_readdir node index nodes
      ≡ some (get_elem? (entries node.name (dir_prefix node.name) [] nodes) index)
unfolding tarfs_readdir
tarfs_readdir-entries node index nodes is_dir =
    rw (is_dir, tarfs_readdir)
      (ap some (
        readdir_loop-entries node.name (dir_prefix node.name) index [] nodes 0 (omega arith)
        ∙ ap (get_elem? _) {x = index - 0} {y = index} (omega arith)))
