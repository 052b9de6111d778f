-- ===== src/Fs/Tarfs/Listing/Complete.antt =====
-- Every subdirectory that the names of the table imply is listed by `tarfs_readdir`.
use mathlib.Core.List.{append_assoc}
use mathlib.Core.Option.{some-injective}
use amazing_os.Base.{
  ℕ, zero, suc, ◌≤◌, ◌<◌, ◌≡◌, ◌≢◌, refl, sym, ◌∙◌, ap, subst, inl, inr, true, false, ◌&&◌, not,
  List, [], ◌∷◌, ◌++◌, Option, some, none, arith, ◌==◌, ltb, Bool-cases, Option-cases, get_elem?,
  length, take, drop, All, length-append, ≢→==_false,
}
use amazing_os.Fs.CString.{
  CString, str_len, str_copy, str_copy_lem, str_equal, str_equal_iff, str_starts_with,
  str_starts_with_iff,
}
use amazing_os.Fs.Node.{VfsNode, directory, tarfs}
use amazing_os.Fs.Tarfs.{
  slash, slash_index, any_under, ends_with_slash, dir_prefix, dir_entry, listed, tarfs_readdir,
}
use amazing_os.Fs.Tarfs.Lookup.{IsTable}
use amazing_os.Fs.Tarfs.Listing.{entries, tarfs_readdir-entries}
use amazing_os.Fs.Tarfs.Listing.Distinct.{key, starts-append, length-dir_prefix}

slash_index-append :
    (dir rest : CString)
    → All (λ c. c ≢ slash) dir
    → slash_index (dir ++ slash ∷ rest) ≡ some (length dir)
unfolding slash_index
slash_index-append [] rest h = refl
slash_index-append (c ∷ dir) rest h =
    rw (≢→==_false c slash h.0) (rw (slash_index-append dir rest h.1) refl)

take-length : (xs ys : CString) → take (length xs) (xs ++ ys) ≡ xs
take-length [] ys = refl
take-length (x ∷ xs) ys = ap (λ (t : CString). x ∷ t) (take-length xs ys)

drop-length : (xs ys : CString) → drop (length xs) (xs ++ ys) ≡ ys
drop-length [] ys = refl
drop-length (x ∷ xs) ys = drop-length xs ys

str_equal-ne : (s t : CString) → s ≢ t → str_equal s t ≡ false
str_equal-ne s t ne = elim (Bool-cases (str_equal s t)) [
  | inl e ↦ absurd (ne ((str_equal_iff s t).0 e))
  | inr e ↦ e
]

-- What is listed for a node whose name goes on from the prefix with a directory and a slash.
listed-key :
    (name prefix dir rest : CString) (earlier : List VfsNode) (n : VfsNode)
    → length prefix < 270
    → All (λ c. c ≢ slash) dir
    → n.name ≡ prefix ++ (dir ++ slash ∷ rest)
    → n.name ≢ name
    → any_under (key prefix dir) earlier ≡ false
    → listed name prefix earlier n ≡ some (dir_entry dir)
unfolding listed str_len
listed-key name prefix dir rest earlier n short plain at ne first =
    let whole : str_copy prefix 270 ≡ prefix = str_copy_lem prefix 270 short in
    let child : drop (length prefix) n.name ≡ dir ++ slash ∷ rest =
      ap (drop (length prefix)) at ∙ drop-length prefix (dir ++ slash ∷ rest) in
    let below : str_starts_with n.name prefix ≡ true =
      ap (λ (s : CString). str_starts_with s prefix) at
      ∙ starts-append prefix (dir ++ slash ∷ rest) in
    let inside : (ltb 0 (length prefix) && not (str_starts_with n.name prefix)) ≡ false =
      ground (arith, below) in
    let some_child : (length (dir ++ slash ∷ rest) == 0) ≡ false =
      ground (arith, length-append dir (slash ∷ rest)) in
    let taken : take (length dir) (drop (length prefix) n.name) ≡ dir =
      ap (take (length dir)) child ∙ take-length dir (slash ∷ rest) in
    let seen : any_under (key (str_copy prefix 270) dir) earlier ≡ false =
      ap (λ (p : CString). any_under (key p dir) earlier) whole ∙ first in
    rw (str_equal-ne n.name name ne, listed)
      (rw (inside) (
        rw (ap (λ (c : CString). length c == 0) child ∙ some_child) (
          rw (ap slash_index child ∙ slash_index-append dir rest plain) (rw taken (rw seen refl)))))

any_under-last_false :
    (p : CString) (ns : List VfsNode) (n : VfsNode)
    → any_under p ns ≡ false
    → str_starts_with n.name p ≡ false
    → any_under p (ns ++ n ∷ []) ≡ false
unfolding any_under
any_under-last_false p [] n h last = rw last refl
any_under-last_false p (x ∷ ns) n h last = elim (Bool-cases (str_starts_with x.name p)) [
  | inl here ↦ cc (sym (rw here at h))
  | inr not_here ↦ rw not_here (any_under-last_false p ns n (rw not_here at h) last)
]

entries_complete :
    (name prefix dir : CString) (earlier rest : List VfsNode)
    → length prefix < 270
    → All (λ c. c ≢ slash) dir
    → ((tail : CString) → key prefix dir ++ tail ≢ name)
    → any_under (key prefix dir) earlier ≡ false
    → any_under (key prefix dir) rest ≡ true
    → (k : ℕ) × (get_elem? (entries name prefix earlier rest) k ≡ some (dir_entry dir))
unfolding entries any_under
entries_complete name prefix dir earlier [] short plain ne none_yet some_later = cc
entries_complete name prefix dir earlier (n ∷ rest) short plain ne none_yet some_later =
    elim (Bool-cases (str_starts_with n.name (key prefix dir))) [
      | inl here ↦
          let tail = drop (length (key prefix dir)) n.name in
          let split : n.name ≡ key prefix dir ++ tail =
            (str_starts_with_iff n.name (key prefix dir)).0 here in
          let at : n.name ≡ prefix ++ (dir ++ slash ∷ tail) =
            split
            ∙ append_assoc (prefix ++ dir) (slash ∷ []) tail
            ∙ append_assoc prefix dir (slash ∷ tail) in
          let made =
            listed-key name prefix dir tail earlier n short plain at (λ e. ne tail (sym split ∙ e))
              none_yet in
          (0, rw (made, entries) refl)
      | inr elsewhere ↦
          let (k, found) =
            entries_complete name prefix dir (earlier ++ n ∷ []) rest short plain ne
              (any_under-last_false (key prefix dir) earlier n none_yet elsewhere)
              (rw elsewhere at some_later) in
          elim (Option-cases (listed name prefix earlier n)) [
            | inl over ↦ (k, rw (over, entries) found)
            | inr (x, made) ↦ (suc k, rw (made, entries) found)
          ]
    ]

abbrev tar : CString
tar = b't' ∷ b'a' ∷ b'r' ∷ []

has_slash : (dir tail : CString) → (i : ℕ) × (slash_index (key [] dir ++ tail) ≡ some i)
unfolding slash_index
has_slash [] tail = (0, refl)
has_slash (c ∷ dir) tail = elim (Bool-cases (c == slash)) [
  | inl hit ↦ (0, rw hit refl)
  | inr miss ↦ let (i, found) = has_slash dir tail in (suc i, rw miss (rw found refl))
]

tar-slash_index : slash_index tar ≡ none
unfolding slash_index
tar-slash_index = refl

tar-ne : (dir tail : CString) → key [] dir ++ tail ≢ tar
tar-ne dir tail = λ e.
    let (i, found) = has_slash dir tail in
    absurd (some-ne_none i (sym found ∙ ap slash_index e ∙ tar-slash_index))
  where
    some-ne_none : (i : ℕ) → ◌≢◌ {A = Option ℕ} (some i) none
    some-ne_none i = λ e. cc

-- The prefix is not shorter than the directory's own name, unless that is "tar".
key-ne : (name dir tail : CString) → length name < 128 → key (dir_prefix name) dir ++ tail ≢ name
unfolding dir_prefix
key-ne name dir tail short = elim (Bool-cases (str_equal name tar)) [
  | inl t ↦ rw t (λ e. tar-ne dir tail (e ∙ (str_equal_iff name tar).0 t))
  | inr f ↦
      let whole = str_copy_lem name 256 (omega arith) in
      rw (f, whole)
        (elim (Bool-cases (ltb 0 (str_len name) && not (ends_with_slash name))) [
          | inl t ↦
              rw t (longer (name ++ slash ∷ []) (omega (arith, length-append name (slash ∷ []))))
          | inr g ↦ rw g (longer name (omega arith))
        ])
]
  where
    longer : (p : CString) → length name ≤ length p → key p dir ++ tail ≢ name
    longer p le = λ e. absurd (
        omega (
          arith,
          ap length e,
          length-append (key p dir) tail,
          length-append (p ++ dir) (slash ∷ []),
          length-append p dir,
        ))

any_under-at :
    (p : CString) (ns : List VfsNode) (k : ℕ) (n : VfsNode)
    → get_elem? ns k ≡ some n
    → str_starts_with n.name p ≡ true
    → any_under p ns ≡ true
unfolding any_under
any_under-at p [] k n at h = cc
any_under-at p (x ∷ ns) zero n at h =
    let here : str_starts_with x.name p ≡ true =
      ap (λ (y : VfsNode). str_starts_with y.name p) (some-injective x n at) ∙ h in
    rw here refl
any_under-at p (x ∷ ns) (suc k) n at h = elim (Bool-cases (str_starts_with x.name p)) [
  | inl here ↦ rw here refl
  | inr miss ↦ rw miss (any_under-at p ns k n at h)
]

name-at :
    (ns : List VfsNode) (k : ℕ) (n : VfsNode)
    → All (λ n. length n.name < 128) ns
    → get_elem? ns k ≡ some n
    → length n.name < 128
name-at [] k n h at = cc
name-at (x ∷ ns) zero n h at =
    subst (λ (y : VfsNode). length y.name < 128) (some-injective x n at) h.0
name-at (x ∷ ns) (suc k) n h at = name-at ns k n h.1 at

-- In a table within its bounds, where the name of a node is the prefix of a directory, whose own name has
-- fewer than 128 bytes, and then some bytes without a slash, a slash, and anything, some call of
-- `tarfs_readdir` for that directory lists a subdirectory that has those bytes as its name.
pub tarfs_readdir_complete :
    (node : VfsNode) (nodes : List VfsNode) (k : ℕ) (n : VfsNode) (dir tail : CString)
    → IsTable nodes
    → node.type ≡ directory
    → length node.name < 128
    → get_elem? nodes k ≡ some n
    → All (λ c. c ≢ slash) dir
    → n.name ≡ dir_prefix node.name ++ (dir ++ slash ∷ tail)
    → (i : ℕ) × (e : VfsNode) × (tarfs_readdir node i nodes ≡ some (some e))
      × (e.name ≡ dir)
      × (e.finddir ≡ some tarfs)
unfolding any_under dir_entry
tarfs_readdir_complete node nodes k n dir tail t is_dir short at plain below =
    let prefix = dir_prefix node.name in
    let whole : n.name ≡ key prefix dir ++ tail =
      below
      ∙ sym (append_assoc prefix dir (slash ∷ tail))
      ∙ sym (append_assoc (prefix ++ dir) (slash ∷ []) tail) in
    let begins : str_starts_with n.name (key prefix dir) ≡ true =
      ap (λ (s : CString). str_starts_with s (key prefix dir)) whole
      ∙ starts-append (key prefix dir) tail in
    let (i, found) =
      entries_complete node.name prefix dir [] nodes (length-dir_prefix node.name) plain
        (λ tail. key-ne node.name dir tail short) refl
        (any_under-at (key prefix dir) nodes k n at begins) in
    (
      i,
      dir_entry dir,
      tarfs_readdir-entries node i nodes is_dir ∙ ap some found,
      str_copy_lem dir 128 (
          omega (
            arith,
            name-at nodes k n t.names at,
            ap length below,
            length-append prefix (dir ++ slash ∷ tail),
            length-append dir (slash ∷ tail),
          )),
      refl,
    )
