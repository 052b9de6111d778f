-- ===== src/Fs/Tarfs/Lookup.antt =====
-- `tarfs_finddir`: what it finds, what it adds to the table, and that it adds it once.
use amazing_os.Base.{
  ℕ, suc, ◌+◌, ◌-◌, Option, ◌≤◌, ◌<◌, ◌≡◌, refl, ◌∙◌, ap, sym, inl, inr, Bool, true, false, List,
  [], ◌∷◌, ◌++◌, some, none, arith, if◌then◌else◌, length, length-append, ltb, Bool-cases,
  Option-cases, tests, All, ≢→==_false, ◌⊎◌, get_elem?,
}
use mathlib.Core.Option.{some-injective}
use amazing_os.Fs.CString.{
  CString, str_copy, str_copy_lem, str_copy-length, str_len, str_equal, str_equal_iff,
  str_starts_with, str_starts_with_iff,
}
use amazing_os.Fs.Node.{VfsNode, NodeRef, tar_node, synth_node}
use amazing_os.Fs.Tarfs.{
  slash, strip_slash, clean_name, find_clean, any_under, synth_name, synth, tarfs_finddir,
}

-- Of the table: at most 128 nodes, whose names fit their arrays.
pub record IsTable (nodes : List VfsNode) : Type 0 where
  pub count : length nodes ≤ 128
  pub names : All (λ n. length n.name < 128) nodes

strip_slash-append : (s : CString) → strip_slash (s ++ slash ∷ []) ≡ s
unfolding strip_slash
strip_slash-append [] = refl
strip_slash-append (c ∷ []) = refl
strip_slash-append (c ∷ d ∷ s) = ap (◌∷◌ c) (strip_slash-append (d ∷ s))

length-strip_slash : (s : CString) → length (strip_slash s) ≤ length s
unfolding strip_slash
length-strip_slash [] = omega arith
length-strip_slash (c ∷ []) = ground arith
length-strip_slash (c ∷ d ∷ s) = omega (arith, length-strip_slash (d ∷ s))

length-clean_name : (s : CString) → length (clean_name s) < 256
unfolding clean_name
length-clean_name s =
    omega (arith, length-strip_slash (str_copy s 256), str_copy-length s 256 (omega arith))

-- A name with a slash behind it is cleaned to the name.
clean_name-append : (s : CString) → length s < 255 → clean_name (s ++ slash ∷ []) ≡ s
unfolding clean_name
clean_name-append s h =
    rw (str_copy_lem (s ++ slash ∷ []) 256 (omega (arith, length-append s (slash ∷ []))))
      (strip_slash-append s)

length-prefix : (s p : CString) → str_starts_with s p ≡ true → length p ≤ length s
length-prefix s p h = omega (arith, ap length ((str_starts_with_iff s p).0 h), length-append p _)

any_under-length :
    (p : CString) (nodes : List VfsNode)
    → All (λ n. length n.name < 128) nodes
    → any_under p nodes ≡ true
    → length p < 128
unfolding any_under
any_under-length p [] names h = cc
any_under-length p (n ∷ ns) names h = elim (Bool-cases (str_starts_with n.name p)) [
  | inl here ↦ omega (arith, length-prefix n.name p here, names.0)
  | inr later ↦ any_under-length p ns names.1 (rw later at h)
]

find_clean-append :
    (c : CString) (ns : List VfsNode) (n : VfsNode) (i : ℕ)
    → find_clean c ns i ≡ none
    → clean_name n.name ≡ c
    → find_clean c (ns ++ n ∷ []) i ≡ some (i + length ns)
unfolding find_clean
find_clean-append c [] n i e same = rw (same, (str_equal_iff c c).1 refl) (ap some (omega arith))
find_clean-append c (x ∷ ns) n i e same = elim (Bool-cases (str_equal (clean_name x.name) c)) [
  | inl hit ↦ cc (sym (ap (λ (b : Bool). if b then some i else find_clean c ns (i + 1)) hit) ∙ e)
  | inr miss ↦
      rw miss (find_clean-append c ns n (i + 1) (rw miss at e) same ∙ ap some (omega arith))
]

All-append_last :
    (ns : List VfsNode) (n : VfsNode)
    → All (λ n. length n.name < 128) ns
    → length n.name < 128
    → All (λ n. length n.name < 128) (ns ++ n ∷ [])
All-append_last [] n h k = (k, tt)
All-append_last (x ∷ ns) n h k = (h.0, All-append_last ns n h.1 k)

-- A directory is made only for a name with which the name of a node goes on.
synth-name :
    (c : CString) (nodes : List VfsNode)
    → All (λ n. length n.name < 128) nodes
    → length c < 256
    → any_under (str_copy c 256 ++ slash ∷ []) nodes ≡ true
    → ((synth c).name ≡ c ++ slash ∷ []) × (length (c ++ slash ∷ []) < 128)
unfolding synth synth_name str_len
synth-name c nodes names short under =
    let all : str_copy c 256 ≡ c = str_copy_lem c 256 short in
    let bound : length (c ++ slash ∷ []) < 128 = any_under-length _ nodes names (rw all at under) in
    let fits : length c < 127 = omega (arith, bound, length-append c (slash ∷ [])) in
    rw (str_copy_lem c 128 (omega arith), ≢→==_false (length c) 127 (omega arith)) (refl, bound)

-- The four ways a lookup can end.
finddir_cases :
    (name : CString) (nodes others : List VfsNode)
    → let c = clean_name name in
      let under = any_under (str_copy c 256 ++ slash ∷ []) nodes in
      ((i : ℕ) × (find_clean c nodes 0 ≡ some i)
        × (tarfs_finddir name nodes others ≡ (some (tar_node i), (nodes, others))))
      ⊎ ((find_clean c nodes 0 ≡ none)
          × (((under ≡ true)
                × (length nodes < 128)
                × (tarfs_finddir name nodes others
                    ≡ (some (tar_node (length nodes)), (nodes ++ synth c ∷ [], others))))
              ⊎ ((under ≡ true)
                  × (128 ≤ length nodes)
                  × (tarfs_finddir name nodes others
                      ≡ (some (synth_node (length others)), (nodes, others ++ synth c ∷ []))))
              ⊎ ((under ≡ false) × (tarfs_finddir name nodes others ≡ (none, (nodes, others))))))
unfolding tarfs_finddir
finddir_cases name nodes others = elim (Option-cases (find_clean (clean_name name) nodes 0)) [
  | inr (i, e) ↦ inl (i, e, rw (e, tarfs_finddir))
  | inl e ↦ inr (
    e,
    elim (Bool-cases (any_under (str_copy (clean_name name) 256 ++ slash ∷ []) nodes)) [
      | inr bare ↦ inr (inr (bare, rw (e, tarfs_finddir) (rw bare)))
      | inl under ↦ elim (Bool-cases (ltb (length nodes) 128)) [
        | inl room ↦ inl (under, omega tests, rw (e, tarfs_finddir) (rw (under, room)))
        | inr full ↦ inr (inl (under, ground arith, rw (e, tarfs_finddir) (rw (under, full))))
      ]
    ],
  )
]

again :
    (name : CString) (i : ℕ) (nodes others : List VfsNode)
    → find_clean (clean_name name) nodes 0 ≡ some i
    → tarfs_finddir name nodes others ≡ (some (tar_node i), (nodes, others))
unfolding tarfs_finddir
again name i nodes others e = rw (e, tarfs_finddir)

-- The node that the search of the table ends at has the name.
find_clean-get_elem? :
    (c : CString) (ns : List VfsNode) (i k : ℕ)
    → find_clean c ns k ≡ some i
    → (n : VfsNode) × (get_elem? ns (i - k) ≡ some n) × (clean_name n.name ≡ c) × (k ≤ i)
unfolding find_clean
find_clean-get_elem? c [] i k e = cc
find_clean-get_elem? c (x ∷ ns) i k e = elim (Bool-cases (str_equal (clean_name x.name) c)) [
  | inl hit ↦
      let at : some k ≡ some i =
        sym (ap (λ (b : Bool). if b then some k else find_clean c ns (k + 1)) hit) ∙ e in
      let same : k ≡ i = some-injective k i at in
      let z : i - k ≡ 0 = omega arith in
      (x, ap (get_elem? (x ∷ ns)) z, (str_equal_iff _ c).0 hit, omega arith)
  | inr miss ↦
      let (n, got, named, le) = find_clean-get_elem? c ns i (k + 1) (rw miss at e) in
      let s : i - k ≡ suc (i - (k + 1)) = omega arith in
      (n, ap (get_elem? (x ∷ ns)) s ∙ got, named, omega arith)
]

get_elem?-last : (ns : List VfsNode) (n : VfsNode) → get_elem? (ns ++ n ∷ []) (length ns) ≡ some n
get_elem?-last [] n = refl
get_elem?-last (x ∷ ns) n = get_elem?-last ns n

-- A lookup that leaves the table with a node of the name, if it finds one at all.
abbrev pub InTable : CString → Option NodeRef → List VfsNode → Type 0
InTable name found after =
    (found ≡ none)
    ⊎ ((i : ℕ) × (n : VfsNode) × (found ≡ some (tar_node i))
        × (get_elem? after i ≡ some n)
        × (clean_name n.name ≡ clean_name name))

InTable-find_clean :
    (name : CString) (nodes : List VfsNode) (i : ℕ)
    → find_clean (clean_name name) nodes 0 ≡ some i
    → InTable name (some (tar_node i)) nodes
InTable-find_clean name nodes i f =
    let (n, got, named, le) = find_clean-get_elem? (clean_name name) nodes i 0 f in
    let at : i ≡ i - 0 = omega arith in inr (i, n, refl, ap (get_elem? nodes) at ∙ got, named)

-- While the table has room, what a lookup finds is in the table after it, under a name that differs from
-- the one asked for by a slash at the end at most, also where it is a directory that is only implied by
-- the names below it; nothing is left outside of the table, and a second lookup of the same name finds
-- the same node, and adds none.
pub tarfs_finddir_again :
    (name : CString) (nodes others : List VfsNode)
    → IsTable nodes
    → length nodes < 128
    → let (found, (after, others')) = tarfs_finddir name nodes others in
      InTable name found after
      × (others' ≡ others)
      × (tarfs_finddir name after others' ≡ (found, (after, others')))
tarfs_finddir_again name nodes others t room = elim (finddir_cases name nodes others) [
  | inl (i, f, e) ↦ rw e (InTable-find_clean name nodes i f, refl, e)
  | inr (f, inr (inl (u, full, e))) ↦ absurd (omega arith)
  | inr (f, inr (inr (u, e))) ↦ rw e (inl refl, refl, e)
  | inr (f, inl (under, left, e)) ↦
      let c = clean_name name in
      let (named, bound) = synth-name c nodes t.names (length-clean_name name) under in
      let cleaned : clean_name (synth c).name ≡ c =
        ap clean_name named
        ∙ clean_name-append c (omega (arith, bound, length-append c (slash ∷ []))) in
      rw e (
        inr (length nodes, synth c, refl, get_elem?-last nodes (synth c), cleaned),
        refl,
        again name (length nodes) (nodes ++ synth c ∷ []) others
            (find_clean-append c nodes (synth c) 0 f cleaned ∙ ap some (omega arith)),
      )
]
