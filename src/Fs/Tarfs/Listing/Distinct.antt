-- ===== src/Fs/Tarfs/Listing/Distinct.antt =====
-- The subdirectories that `tarfs_readdir` lists are listed once each.
use mathlib.Core.List.{append_assoc}
use mathlib.Core.Option.{some-injective}
use amazing_os.Base.{
  ℕ, zero, suc, ◌<◌, ◌≡◌, ◌≢◌, refl, sym, ◌∙◌, ap, subst, ◌⊎◌, inl, inr, true, false, ◌&&◌, not,
  List, [], ◌∷◌, ◌++◌, some, none, arith, ◌==◌, ltb, if◌then◌else◌, Bool-cases, Option-cases,
  get_elem?, length, take, drop, All, length-append,
}
use amazing_os.Fs.CString.{
  CString, str_len, str_copy, str_copy_lem, str_copy-length, str_equal, str_starts_with,
  str_starts_with_iff,
}
use amazing_os.Fs.Node.{VfsNode, directory, tarfs}
use amazing_os.Fs.Tarfs.{
  slash, slash_index, any_under, ends_with_slash, dir_prefix, dir_entry, file_entry, listed,
  tarfs_readdir,
}
use amazing_os.Fs.Tarfs.Lookup.{IsTable}
use amazing_os.Fs.Tarfs.Listing.{entries, tarfs_readdir-entries}

slash_index-split :
    (s : CString) (i : ℕ)
    → slash_index s ≡ some i
    → (rest : CString) × (s ≡ take i s ++ slash ∷ rest)
unfolding slash_index
slash_index-split [] i e = cc
slash_index-split (c ∷ s) i e = elim (Bool-cases (c == slash)) [
  | inl hit ↦
      let first : c ≡ slash = ground arith in
      let at : 0 ≡ i = some-injective 0 i (rw hit at e) in
      (s, subst (λ k. c ∷ s ≡ take k (c ∷ s) ++ slash ∷ s) at (ap (λ x. x ∷ s) first))
  | inr miss ↦ elim (Option-cases (slash_index s)) [
    | inl over ↦ cc (sym (rw (miss, over) at e))
    | inr (k, found) ↦
        let at : suc k ≡ i = some-injective (suc k) i (rw (miss, found) at e) in
        let (rest, split) = slash_index-split s k found in
        (
          rest,
          subst (λ k. c ∷ s ≡ take k (c ∷ s) ++ slash ∷ rest) at
              (ap (λ (x : CString). c ∷ x) split),
        )
  ]
]

pub any_under-append :
    (p : CString) (ns : List VfsNode) (n : VfsNode)
    → (any_under p ns ≡ true) ⊎ (str_starts_with n.name p ≡ true)
    → any_under p (ns ++ n ∷ []) ≡ true
unfolding any_under
any_under-append p [] n (inl h) = cc
any_under-append p [] n (inr h) = rw h refl
any_under-append p (x ∷ ns) n h = elim (Bool-cases (str_starts_with x.name p)) [
  | inl here ↦ rw here refl
  | inr not_here ↦ rw not_here (
      any_under-append p ns n
        (elim h [ inl some_earlier ↦ inl (rw not_here at some_earlier) | inr last ↦ inr last ]))
]

pub starts-append : (p rest : CString) → str_starts_with (p ++ rest) p ≡ true
unfolding str_starts_with
starts-append [] rest = refl
starts-append (c ∷ p) rest = ground (arith, starts-append p rest)

-- The name of a subdirectory with the prefix and a slash.
abbrev pub key : (prefix dir : CString) → CString
key prefix dir = (prefix ++ dir) ++ slash ∷ []

-- An entry for a subdirectory: the node's name goes on from the prefix with that directory and a slash,
-- and no earlier node's does.
record IsDirEntry (prefix : CString) (earlier : List VfsNode) (n e : VfsNode) : Type 0 where
  dir : CString
  rest : CString
  entry : e ≡ dir_entry dir
  below : n.name ≡ key prefix dir ++ rest
  first : any_under (key prefix dir) earlier ≡ false

prefix_split :
    (s p : CString)
    → (ltb 0 (str_len p) && not (str_starts_with s p)) ≡ false
    → s ≡ p ++ drop (length p) s
unfolding str_len
prefix_split s [] h = refl
prefix_split s (c ∷ p) h = (str_starts_with_iff s (c ∷ p)).0 (ground arith)

-- A part of the name behind the prefix that has a slash, at `i`.
directory-IsDirEntry :
    (prefix child : CString) (i : ℕ) (earlier : List VfsNode) (n e : VfsNode)
    → length prefix < 270
    → n.name ≡ prefix ++ child
    → slash_index child ≡ some i
    → (if any_under (str_copy prefix 270 ++ take i child ++ slash ∷ []) earlier
        then none
        else some (dir_entry (take i child)))
      ≡ some e
    → IsDirEntry prefix earlier n e
directory-IsDirEntry prefix child i earlier n e short name at h =
    let whole : str_copy prefix 270 ≡ prefix = str_copy_lem prefix 270 short in
    let (rest, split) = slash_index-split child i at in
    elim (Bool-cases (any_under (key (str_copy prefix 270) (take i child)) earlier)) [
      | inl t ↦ cc (rw t at h)
      | inr f ↦ record {
        dir = take i child;
        rest = rest;
        entry = sym (some-injective (dir_entry (take i child)) e (rw f at h));
        below =
            name
            ∙ ap (λ (x : CString). prefix ++ x) split
            ∙ sym (append_assoc prefix (take i child) (slash ∷ rest))
            ∙ sym (append_assoc (prefix ++ take i child) (slash ∷ []) rest);
        first = ap (λ (p : CString). any_under (key p (take i child)) earlier) (sym whole) ∙ f;
      }
    ]

file_entry-finddir : (child : CString) (n : VfsNode) → (file_entry child n).finddir ≡ none
unfolding file_entry
file_entry-finddir child n = refl

listed-IsDirEntry :
    (name prefix : CString) (earlier : List VfsNode) (n e : VfsNode)
    → length prefix < 270
    → listed name prefix earlier n ≡ some e
    → e.finddir ≡ some tarfs
    → IsDirEntry prefix earlier n e
unfolding listed str_len
listed-IsDirEntry name prefix earlier n e short h is_dir =
    let child = drop (str_len prefix) n.name in
    elim (Bool-cases (str_equal n.name name)) [
      | inl t ↦ cc (rw t at h)
      | inr f ↦ elim (Bool-cases (ltb 0 (str_len prefix) && not (str_starts_with n.name prefix))) [
        | inl t ↦ cc (rw (f, t) at h)
        | inr g ↦ elim (Bool-cases (str_len child == 0)) [
          | inl t ↦ cc (rw (f, g, t) at h)
          | inr k ↦ elim (Option-cases (slash_index child)) [
            | inl e1 ↦
                let made : file_entry child n ≡ e =
                  some-injective (file_entry child n) e (rw (f, g, k, e1) at h) in
                cc
                  (sym (file_entry-finddir child n) ∙ ap (λ (x : VfsNode). x.finddir) made ∙ is_dir)
            | inr (i, e1) ↦
                directory-IsDirEntry prefix child i earlier n e short (prefix_split n.name prefix g)
                  e1 (rw (f, g, k, e1) at h)
          ]
        ]
      ]
    ]

-- The entry's name is the directory's, as nodes have names of fewer than 128 bytes.
entry-name :
    (prefix : CString) (earlier : List VfsNode) (n e : VfsNode) (d : IsDirEntry prefix earlier n e)
    → length n.name < 128
    → e.name ≡ d.dir
unfolding dir_entry
entry-name prefix earlier n e d short =
    ap (λ (x : VfsNode). x.name) d.entry
    ∙ str_copy_lem d.dir 128 (
        omega (
          arith,
          ap length d.below,
          length-append (key prefix d.dir) d.rest,
          length-append (prefix ++ d.dir) (slash ∷ []),
          length-append prefix d.dir,
        ))

module _ (name prefix : CString) (short : length prefix < 270) where
  -- Once a node gave rise to a subdirectory, no later one lists it again.
  never_again :
      (earlier rest : List VfsNode) (k : ℕ) (dir : CString) (e : VfsNode)
      → All (λ n. length n.name < 128) rest
      → any_under (key prefix dir) earlier ≡ true
      → get_elem? (entries name prefix earlier rest) k ≡ some e
      → e.finddir ≡ some tarfs
      → e.name ≢ dir
  unfolding entries
  never_again earlier [] k dir e names seen at is_dir = cc
  never_again earlier (n ∷ rest) k dir e names seen at is_dir =
      let seen_next = any_under-append (key prefix dir) earlier n (inl seen) in
      elim (Option-cases (listed name prefix earlier n)) [
        | inl over ↦
            never_again (earlier ++ n ∷ []) rest k dir e names.1 seen_next
              (rw (over, entries) at at) is_dir
        | inr (x, made) ↦
            here_or_later k x made (rw (made, entries) at at)
              (λ j h. never_again (earlier ++ n ∷ []) rest j dir e names.1 seen_next h is_dir)
      ]
    where
      here_or_later :
          (k : ℕ) (x : VfsNode)
          → listed name prefix earlier n ≡ some x
          → get_elem? (x ∷ entries name prefix (earlier ++ n ∷ []) rest) k ≡ some e
          → ((j : ℕ)
              → get_elem? (entries name prefix (earlier ++ n ∷ []) rest) j ≡ some e
              → e.name ≢ dir)
          → e.name ≢ dir
      here_or_later zero x made h later = λ same.
          let d = listed-IsDirEntry name prefix earlier n e short (made ∙ h) is_dir in
          let named = entry-name prefix earlier n e d names.0 in
          cc (
            sym d.first
            ∙ ap (λ (c : CString). any_under (key prefix c) earlier) (sym named ∙ same)
            ∙ seen)
      here_or_later (suc j) x made h later = later j h

  entries-distinct :
      (earlier rest : List VfsNode) (i j : ℕ) (e1 e2 : VfsNode)
      → All (λ n. length n.name < 128) rest
      → i < j
      → get_elem? (entries name prefix earlier rest) i ≡ some e1
      → get_elem? (entries name prefix earlier rest) j ≡ some e2
      → e1.finddir ≡ some tarfs
      → e2.finddir ≡ some tarfs
      → e1.name ≢ e2.name
  unfolding entries
  entries-distinct earlier [] i j e1 e2 names lt at1 at2 dir1 dir2 = cc
  entries-distinct earlier (n ∷ rest) i j e1 e2 names lt at1 at2 dir1 dir2 =
      elim (Option-cases (listed name prefix earlier n)) [
        | inl over ↦
            entries-distinct (earlier ++ n ∷ []) rest i j e1 e2 names.1 lt
              (rw (over, entries) at at1) (rw (over, entries) at at2) dir1 dir2
        | inr (x, made) ↦
            here_or_later i j x lt made (rw (made, entries) at at1) (rw (made, entries) at at2)
              (λ i j lt h1 h2.
                entries-distinct (earlier ++ n ∷ []) rest i j e1 e2 names.1 lt h1 h2 dir1 dir2)
      ]
    where
      more : List VfsNode
      more = entries name prefix (earlier ++ n ∷ []) rest

      here_or_later :
          (i j : ℕ) (x : VfsNode)
          → i < j
          → listed name prefix earlier n ≡ some x
          → get_elem? (x ∷ more) i ≡ some e1
          → get_elem? (x ∷ more) j ≡ some e2
          → ((i j : ℕ)
              → i < j
              → get_elem? more i ≡ some e1
              → get_elem? more j ≡ some e2
              → e1.name ≢ e2.name)
          → e1.name ≢ e2.name
      here_or_later i zero x lt made h1 h2 later = absurd (omega arith)
      here_or_later zero (suc j) x lt made h1 h2 later =
          let d = listed-IsDirEntry name prefix earlier n e1 short (made ∙ h1) dir1 in
          let named = entry-name prefix earlier n e1 d names.0 in
          let begins =
            ap (λ (s : CString). str_starts_with s (key prefix d.dir)) d.below
            ∙ starts-append (key prefix d.dir) d.rest in
          let seen = any_under-append (key prefix d.dir) earlier n (inr begins) in
          λ same.
            never_again (earlier ++ n ∷ []) rest j d.dir e2 names.1 seen h2 dir2 (sym same ∙ named)
      here_or_later (suc i) (suc j) x lt made h1 h2 later = later i j (omega arith) h1 h2

pub length-dir_prefix : (name : CString) → length (dir_prefix name) < 270
unfolding dir_prefix str_len
length-dir_prefix name =
    let bound = str_copy-length name 256 (omega arith) in
    elim (Bool-cases (str_equal name (b't' ∷ b'a' ∷ b'r' ∷ []))) [
      | inl t ↦ rw t (omega arith)
      | inr f ↦
          rw f
            (elim (Bool-cases
              (ltb 0 (length (str_copy name 256)) && not (ends_with_slash (str_copy name 256)))) [
                | inl t ↦ rw t (omega (arith, length-append (str_copy name 256) (slash ∷ [])))
                | inr g ↦ rw g (omega arith)
              ])
    ]

-- In a table within its bounds, two different calls of `tarfs_readdir` for a directory that both list a
-- subdirectory, which is an entry with a `finddir`, list two of different names.
pub tarfs_readdir-distinct :
    (node : VfsNode) (i j : ℕ) (nodes : List VfsNode) (e1 e2 : VfsNode)
    → IsTable nodes
    → node.type ≡ directory
    → i < j
    → tarfs_readdir node i nodes ≡ some (some e1)
    → tarfs_readdir node j nodes ≡ some (some e2)
    → e1.finddir ≡ some tarfs
    → e2.finddir ≡ some tarfs
    → e1.name ≢ e2.name
tarfs_readdir-distinct node i j nodes e1 e2 t is_dir lt at1 at2 dir1 dir2 =
    entries-distinct node.name (dir_prefix node.name) (length-dir_prefix node.name) [] nodes i j e1
      e2 t.names lt (some-injective _ _ (sym (tarfs_readdir-entries node i nodes is_dir) ∙ at1))
      (some-injective _ _ (sym (tarfs_readdir-entries node j nodes is_dir) ∙ at2)) dir1 dir2
