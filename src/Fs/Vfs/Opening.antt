-- ===== src/Fs/Vfs/Opening.antt =====
-- How `VFS::open` chooses the mount point, and which paths a mount point covers.
use amazing_os.Base.{
  ℕ, zero, suc, ap, sym, subst, ◌∙◌, drop, if◌then◌else◌, ◌≤◌, ◌<◌, ◌≡◌, refl, ◌↔◌, ◌⊎◌, inl, inr,
  ◌≢◌, Bool, true, false, ◌&&◌, ◌||◌, Option, some, none, List, [], ◌∷◌, ◌++◌, arith, ◌==◌, ltb,
  length, get_elem?, All, Bool-cases,
}
use amazing_os.Fs.CString.{CString, char_at, str_starts_with}
use amazing_os.Fs.Node.{NodeRef, MountPoint}
use amazing_os.Fs.Tarfs.{slash}
use amazing_os.Fs.Vfs.{Exfat, World, find_child, mount_covers, best_mount, open_below, open_path}
use amazing_os.Fs.Tarfs.Init.{skip_slashes}
use mathlib.Core.Option.{some-injective}

-- No mount point of `ms` that covers the path is longer than `bound`.
abbrev pub NoLonger : CString → List MountPoint → ℕ → Type 0
NoLonger path ms bound = All (λ m. mount_covers path m ≡ true → m.path_len ≤ bound) ms

-- What the loop returns: what it had, or a longer mount point that covers the path.
abbrev pub Best : CString → List MountPoint → Option MountPoint → ℕ → Option MountPoint → Type 0
Best path ms matched longest r =
    ((r ≡ matched) × NoLonger path ms longest)
    ⊎ ((k : ℕ) × (m : MountPoint) × (get_elem? ms k ≡ some m)
        × (r ≡ some m)
        × (mount_covers path m ≡ true)
        × (longest < m.path_len)
        × NoLonger path ms m.path_len)

best_mount-Best :
    (path : CString) (ms : List MountPoint) (matched : Option MountPoint) (longest : ℕ)
    → Best path ms matched longest (best_mount path ms matched longest)
unfolding best_mount
best_mount-Best path [] matched longest = inl (refl, tt)
best_mount-Best path (m ∷ ms) matched longest =
    elim (Bool-cases (mount_covers path m && ltb longest m.path_len)) [
      | inr no_better ↦ rw no_better (elim (best_mount-Best path ms matched longest) [
        | inl (e, all) ↦ inl (e, (λ c. ground arith, all))
        | inr (k, m', at, e, covers, longer, all) ↦
            inr (suc k, m', at, e, covers, longer, (λ c. ground arith, all))
      ])
      | inl better ↦ rw better (elim (best_mount-Best path ms (some m) m.path_len) [
        | inl (e, all) ↦ inr (0, m, refl, e, ground arith, ground arith, (λ c. omega arith, all))
        | inr (k, m', at, e, covers, longer, all) ↦
            inr (suc k, m', at, e, covers, ground arith, (λ c. omega arith, all))
      ])
    ]

abbrev under : CString → CString → Bool
under path p =
    str_starts_with path p && (char_at path (length p) == 0 || char_at path (length p) == slash)

under-split :
    (path p : CString)
    → All (λ c. c ≢ 0) path
    → under path p ≡ true
    → (path ≡ p) ⊎ ((rest : CString) × (path ≡ p ++ slash ∷ rest))
unfolding str_starts_with
under-split [] [] nz h = inl refl
under-split (c ∷ s) [] nz h = inr (s, ground arith)
under-split [] (q ∷ p) nz h = cc
under-split (c ∷ s) (q ∷ p) nz h = elim (Bool-cases (c == q)) [
  | inr ne ↦ cc (rw ne at h)
  | inl eq ↦ elim (under-split s p nz.1 (rw eq at h)) [
    | inl e ↦ inl (ground arith)
    | inr (rest, e) ↦ inr (rest, ground arith)
  ]
]

under_self : (p : CString) → under p p ≡ true
unfolding str_starts_with
under_self [] = refl
under_self (q ∷ p) = ground (arith, under_self p)

under-slash : (p rest : CString) → under (p ++ slash ∷ rest) p ≡ true
unfolding str_starts_with
under-slash [] rest = refl
under-slash (q ∷ p) rest = ground (arith, under-slash p rest)

-- A path is covered by "/", if it begins with a slash, by itself, and by what it goes on from with a slash.
abbrev pub Covers : (path p : CString) → Type 0
Covers path p =
    ((p ≡ slash ∷ []) × (rest : CString) × (path ≡ slash ∷ rest))
    ⊎ (path ≡ p)
    ⊎ ((rest : CString) × (path ≡ p ++ slash ∷ rest))

-- Its length is right, and it begins with a slash.
abbrev pub IsMount : MountPoint → Type 0
IsMount m = (m.path_len ≡ length m.path) × (t : CString) × (m.path ≡ slash ∷ t)

abbrev covers : (path p : CString) (len : ℕ) → Bool
covers path p len =
    str_starts_with path p && (len == 1 || char_at path len == 0 || char_at path len == slash)

covers_root : (path : CString) → (covers path (slash ∷ []) 1 ≡ true) ↔ Covers path (slash ∷ [])
unfolding str_starts_with
covers_root [] =
    ((λ h. cc), elim [ inl (e, rest, h) ↦ cc | inr (inl h) ↦ cc | inr (inr (rest, h)) ↦ cc ])
covers_root (c ∷ s) = (
  (λ h. let first : c ≡ slash = ground arith in inl (refl, s, ap (λ x. x ∷ s) first)),
  elim [
    | inl (e, rest, h) ↦ ap (λ p. covers p (slash ∷ []) 1) h
    | inr (inl h) ↦ ap (λ p. covers p (slash ∷ []) 1) h
    | inr (inr (rest, h)) ↦ ap (λ p. covers p (slash ∷ []) 1) h
  ],
)

covers_below :
    (path t : CString) (c : ℕ)
    → All (λ c. c ≢ 0) path
    → (covers path (slash ∷ c ∷ t) (length (slash ∷ c ∷ t)) ≡ true) ↔ Covers path (slash ∷ c ∷ t)
covers_below path t c nz =
    let p : CString = slash ∷ c ∷ t in
    let long : (length p == 1) ≡ false = ground arith in
    rw long (
      (λ h. inr (under-split path p nz h)),
      elim [
        | inl (e, rest, h) ↦ cc
        | inr (inl e) ↦ rw e (under_self p)
        | inr (inr (rest, e)) ↦ rw e (under-slash p rest)
      ],
    )

covers_iff :
    (path p t : CString)
    → All (λ c. c ≢ 0) path
    → p ≡ slash ∷ t
    → (covers path p (length p) ≡ true) ↔ Covers path p
covers_iff path p [] nz e =
    subst (λ p. (covers path p (length p) ≡ true) ↔ Covers path p) (sym e) (covers_root path)
covers_iff path p (c ∷ t) nz e =
    subst (λ p. (covers path p (length p) ≡ true) ↔ Covers path p) (sym e)
      (covers_below path t c nz)

mount_covers_iff :
    (path : CString) (m : MountPoint)
    → All (λ c. c ≢ 0) path
    → IsMount m
    → (mount_covers path m ≡ true) ↔ Covers path m.path
unfolding mount_covers
mount_covers_iff path m nz (len, t, e) =
    let iff = covers_iff path m.path t nz e in
    let same : covers path m.path m.path_len ≡ covers path m.path (length m.path) =
      ap (covers path m.path) len in
    ((λ h. iff.0 (sym same ∙ h)), λ h. same ∙ iff.1 h)

-- No mount point covers the path; none that does is longer than `bound`.
abbrev pub Uncovered : CString → List MountPoint → Type 0
Uncovered path ms = All (λ m. ¬ Covers path m.path) ms

abbrev pub AtMost : CString → List MountPoint → ℕ → Type 0
AtMost path ms bound = All (λ m. (¬ Covers path m.path) ⊎ (length m.path ≤ bound)) ms

Uncovered-NoLonger :
    (path : CString) (ms : List MountPoint)
    → All (λ c. c ≢ 0) path
    → All IsMount ms
    → NoLonger path ms 0
    → Uncovered path ms
Uncovered-NoLonger path [] nz good h = tt
Uncovered-NoLonger path (m ∷ ms) nz good h = (
  (λ c.
      let le = h.0 ((mount_covers_iff path m nz good.0).1 c) in
      let len = good.0.0 in
      let first = ap length good.0.2 in absurd (omega (arith, le, len, first))),
  Uncovered-NoLonger path ms nz good.1 h.1,
)

AtMost-NoLonger :
    (path : CString) (ms : List MountPoint) (bound : ℕ)
    → All (λ c. c ≢ 0) path
    → All IsMount ms
    → NoLonger path ms bound
    → AtMost path ms bound
AtMost-NoLonger path [] bound nz good h = tt
AtMost-NoLonger path (m ∷ ms) bound nz good h = (
  elim (Bool-cases (mount_covers path m)) [
    | inl t ↦ let le = h.0 t in inr (omega (arith, le, good.0.0))
    | inr f ↦ inl (λ c. cc (sym f ∙ (mount_covers_iff path m nz good.0).1 c))
  ],
  AtMost-NoLonger path ms bound nz good.1 h.1,
)

IsMount-at :
    (ms : List MountPoint) (k : ℕ) (m : MountPoint)
    → All IsMount ms
    → get_elem? ms k ≡ some m
    → IsMount m
IsMount-at [] k m good at = cc
IsMount-at (x ∷ ms) zero m good at = subst IsMount (some-injective x m at) good.0
IsMount-at (x ∷ ms) (suc k) m good at = IsMount-at ms k m good.1 at

-- Where no overlay node has the name of a path, which has no 0 in it, and all mount points begin with a
-- slash and have their lengths right, `open` goes through the longest mount point that covers the path: it
-- opens what is behind that mount point, without the slashes that come next, and fails where no mount
-- point covers the path. "/" covers what begins with a slash; another mount point covers its own path and
-- those that go on from it with a slash, so that "/tar" does not cover "/target".
pub open_path-longest :
    {E : Type 0} (ex : Exfat E) (c : ℕ) (s : CString) (w : World E)
    → All (λ c. c ≢ 0) (c ∷ s)
    → All IsMount w.mounts
    → find_child (if c == slash then s else c ∷ s) w.child_nodes 0 ≡ none
    → ((open_path ex (some (c ∷ s)) w ≡ (none, w)) × Uncovered (c ∷ s) w.mounts)
      ⊎ ((k : ℕ) × (m : MountPoint) × (get_elem? w.mounts k ≡ some m)
          × (open_path ex (some (c ∷ s)) w
              ≡ open_below ex m (skip_slashes (drop (length m.path) (c ∷ s))) w)
          × Covers (c ∷ s) m.path
          × AtMost (c ∷ s) w.mounts (length m.path))
unfolding open_path
open_path-longest {E} ex c s w nz good none_there =
    let path : CString = c ∷ s in
    let behind : Option MountPoint → Option NodeRef × World E = λ r. elim r [
      | none ↦ (none, w)
      | some m ↦ open_below ex m (skip_slashes (drop m.path_len path)) w
    ] in
    let start : open_path ex (some path) w ≡ behind (best_mount path w.mounts none 0) =
      rw (none_there, open_path) refl in
    elim (best_mount-Best path w.mounts none 0) [
      | inl (e, all) ↦ inl (start ∙ ap behind e, Uncovered-NoLonger path w.mounts nz good all)
      | inr (k, m, at, e, covering, longer, all) ↦
          let mount = IsMount-at w.mounts k m good at in
          inr (
            k,
            m,
            at,
            start ∙ ap behind e ∙ ap (λ n. open_below ex m (skip_slashes (drop n path)) w) mount.0,
            (mount_covers_iff path m nz mount).0 covering,
            subst (AtMost path w.mounts) mount.0
                (AtMost-NoLonger path w.mounts m.path_len nz good all),
          )
    ]
