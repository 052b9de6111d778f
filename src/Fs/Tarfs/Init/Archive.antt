-- ===== src/Fs/Tarfs/Init/Archive.antt =====
-- `tarfs_init` against the tar format: what a writer puts into memory is what the table then holds.
use amazing_os.Base.{
  ℕ, zero, suc, ◌+◌, ◌-◌, ◌^◌, ◌≤◌, ◌<◌, ◌≡◌, refl, ◌∙◌, ap, inl, inr, ◌≢◌, Bool, true, false, List,
  [], ◌∷◌, ◌++◌, some, none, arith, if◌then◌else◌, ◌==◌, length, length-append, take, leb,
  ≢→==_false, All, Bool-cases, tests, sym, ◌||◌, take-nil, ltb,
}
use amazing_os.Base.Memory.{Memory}
use amazing_os.Fs.CString.{CString, str_copy_lem}
use amazing_os.Fs.Node.{file, directory, VfsNode, tarfs}
use amazing_os.Fs.Tarfs.{slash}
use amazing_os.Fs.Tarfs.Init.{
  read_string, skip_slashes, skip_dot, header_name, header_size, next_header, align_512,
  member_node, add_node, absorb, init_loop, tarfs_init,
}
use amazing_os.Fs.Tarfs.Init.Fields.{
  octal, parse_octal-octal, BytesAt, read_string_lem, read_bytes_lem, length-octal, IsPlain,
  skip-IsPlain, skip_slashes-IsPlain,
}
use native.Mathlib.Nat.{mod-eq_of_lt}
use mathlib.Core.List.{append_assoc, append-nil}

-- A member as `tar` writes it: `./` may stand in front of the name.
pub record Member : Type 0 where
  pub dotted : Bool
  pub name : CString
  pub size : ℕ
  pub typeflag : ℕ

abbrev pub with_dot : Bool → CString → CString
with_dot true name = b'.' ∷ slash ∷ name
with_dot false name = name

pub record MemberAt (m : Memory) (curr : ℕ) (e : Member) : Type 0 where
  pub named : BytesAt m curr (with_dot e.dotted e.name ++ 0 ∷ [])
  pub sized : BytesAt m (curr + 124) (octal 11 e.size ++ 0 ∷ [])
  pub typed : m (curr + 156) ≡ e.typeflag
  pub plain : IsPlain e.name
  pub no_nul : All (λ c. c ≢ 0) e.name
  pub short : length e.name < 98
  pub small : e.size < 8 ^ 11

named_lem :
    (m : Memory) (curr : ℕ) (dotted : Bool) (name : CString)
    → IsPlain name
    → All (λ c. c ≢ 0) name
    → length name < 98
    → BytesAt m curr (with_dot dotted name ++ 0 ∷ [])
    → header_name m curr ≡ name
unfolding header_name skip_dot
named_lem m curr true name plain nz short b =
    rw
      (read_string_lem 512 m curr (b'.' ∷ slash ∷ name) (omega arith)
        (omega arith, (omega arith, nz)) b)
      (skip_slashes-IsPlain name plain)
named_lem m curr false name plain nz short b =
    rw (read_string_lem 512 m curr name (omega arith) nz b) (skip-IsPlain name plain)

header_name_lem :
    (m : Memory) (curr : ℕ) (e : Member) → MemberAt m curr e → header_name m curr ≡ e.name
header_name_lem m curr e at = named_lem m curr e.dotted e.name at.plain at.no_nul at.short at.named

header_name-nil : (m : Memory) (curr : ℕ) → m curr ≡ 0 → header_name m curr ≡ []
unfolding header_name read_string skip_slashes skip_dot
header_name-nil m curr z = rw (z, read_string)

header_size_lem :
    (m : Memory) (curr : ℕ) (e : Member) → MemberAt m curr e → header_size m curr ≡ e.size
unfolding header_size
header_size_lem m curr e at =
    let field = octal 11 e.size ++ 0 ∷ [] in
    let width : length field ≡ 12 =
      length-append (octal 11 e.size) (0 ∷ []) ∙ ap (λ n. n + 1) (length-octal 11 e.size) in
    rw (← width, read_bytes_lem m (curr + 124) field at.sized)
      (parse_octal-octal 11 e.size [] at.small (omega (arith, at.small)))

abbrev node_of : ℕ → Member → VfsNode
node_of curr e = record {
  name = e.name;
  type = if e.typeflag == b'5' then directory else file;
  size = e.size;
  capacity = e.size;
  contents = some (curr + 512);
  read = some tarfs;
  write = none;
  finddir = none;
  readdir = none;
}

member_node_lem :
    (m : Memory) (curr : ℕ) (e : Member) → MemberAt m curr e → member_node m curr ≡ node_of curr e
unfolding member_node
member_node_lem m curr e at = rw (
  header_name_lem m curr e at,
  header_size_lem m curr e at,
  at.typed,
  str_copy_lem e.name 128 (omega (arith, at.short)),
)

-- The archive from `curr` on: members one after another, each padded to 512 bytes, up to the end
-- of the range or a block that begins with 0. The list holds the node of each member.
pub data Archive (m : Memory) (end : ℕ) : ℕ → List VfsNode → Type 0 where
  finish : {curr : ℕ} → end ≤ curr → Archive m end curr []
  zero_block : {curr : ℕ} → curr < end → m curr ≡ 0 → Archive m end curr []
  member :
      {curr : ℕ} {ns : List VfsNode} (e : Member)
      → curr < end
      → MemberAt m curr e
      → Archive m end (curr + (512 + align_512 e.size)) ns
      → Archive m end curr (node_of curr e ∷ ns)

abbrev add_all : List VfsNode → List VfsNode → List VfsNode
add_all acc [] = acc
add_all acc (n ∷ ns) = add_all (add_node n acc) ns

add_all-take :
    (acc ns : List VfsNode) → length acc ≤ 128 → add_all acc ns ≡ acc ++ take (128 - length acc) ns
add_all-take acc [] h = sym (ap (λ xs. acc ++ xs) (take-nil (128 - length acc)) ∙ append-nil acc)
add_all-take acc (n ∷ ns) h = elim (Bool-cases (ltb (length acc) 128)) [
  | inl room ↦
      let left : 128 - length acc ≡ suc (128 - length (acc ++ n ∷ [])) =
        omega (tests, length-append acc (n ∷ [])) in
      rw (room, left)
        (add_all-take (acc ++ n ∷ []) ns (omega (tests, length-append acc (n ∷ [])))
          ∙ append_assoc acc (n ∷ []) _)
  | inr full ↦
      let none_left : 128 - length acc ≡ 0 = ground arith in
      rw (full, none_left, add_all-take acc ns h) (rw none_left)
]

absorb-IsPlain :
    (s : CString) (n : VfsNode) (acc : List VfsNode) → IsPlain s → absorb s n acc ≡ add_node n acc
unfolding absorb
absorb-IsPlain [] n acc h = absurd h
absorb-IsPlain (c ∷ t) n acc h = refl

ne_nil_of-IsPlain : (s : CString) → IsPlain s → s ≢ []
ne_nil_of-IsPlain [] h = absurd h
ne_nil_of-IsPlain (c ∷ t) h = cc

next_lem :
    (m : Memory) (curr end : ℕ) (e : Member)
    → MemberAt m curr e
    → curr < end
    → end ≤ 2 ^ 63
    → next_header m curr ≡ curr + (512 + align_512 e.size)
unfolding next_header
next_lem m curr end e at under wide =
    rw (header_size_lem m curr e at) (mod-eq_of_lt (omega (arith, at.small)))

init_loop-Archive :
    (fuel : ℕ) (m : Memory) (curr end : ℕ) (acc ns : List VfsNode)
    → Archive m end curr ns
    → end ≤ 2 ^ 63
    → end - curr < fuel
    → init_loop fuel m curr end acc ≡ some (add_all acc ns)
unfolding init_loop
init_loop-Archive zero m curr end acc ns a wide fuel = absurd (omega arith)
init_loop-Archive (suc k) m curr end acc ns (finish over) wide fuel =
    let e : leb end curr ≡ true = ground arith in rw e
init_loop-Archive (suc k) m curr end acc ns (zero_block under stop) wide fuel =
    let e : leb end curr ≡ false = ground arith in rw (e, stop)
init_loop-Archive (suc k) m curr end acc ns (member {ns = ns'} e under at rest) wide fuel =
    let below : leb end curr ≡ false = ground arith in
    let live : (m curr == 0) ≡ false = ≢→==_false _ _ (λ z.
      ne_nil_of-IsPlain e.name at.plain
        (sym (header_name_lem m curr e at) ∙ header_name-nil m curr z)) in
    rw
      (
        below,
        live,
        next_lem m curr end e at under wide,
        header_name_lem m curr e at,
        member_node_lem m curr e at,
        absorb-IsPlain e.name (node_of curr e) acc at.plain,
      )
      (init_loop-Archive k m _ end _ ns' rest wide (omega arith))

-- An archive that stands in memory from `start` to `end`, a range above 0 and up to 2 ^ 63, and whose
-- members have names of 1 to 97 bytes, not counting a "./" before them, is read as the nodes of its
-- members, in their order, of which the first 128 are kept; the walk ends.
pub tarfs_init-Archive :
    (m : Memory) (start end : ℕ) (ns : List VfsNode)
    → 0 < start
    → start < end
    → end ≤ 2 ^ 63
    → Archive m end start ns
    → tarfs_init m start end ≡ some (some (take 128 ns))
unfolding tarfs_init
tarfs_init-Archive m start end ns pos lt wide a =
    let ok : (start == 0 || end == 0 || leb end start) ≡ false = ground arith in
    rw (
      ok,
      init_loop-Archive (end - start + 1) m start end [] ns a wide (omega arith),
      add_all-take [] ns (omega arith),
    )
