-- ===== src/Fs/Tarfs/Init/Fields.antt =====
-- The fields of a tar header, written and read back.
use amazing_os.Base.{
  ℕ, zero, suc, ◌+◌, ◌*◌, ◌/◌, ◌%◌, ◌^◌, ◌<◌, ◌≡◌, refl, ◌∙◌, ap, ◌≢◌, ◌⊎◌, List, [], ◌∷◌, ◌++◌,
  arith, length, length-append, ≢→==_false, All,
}
use amazing_os.Base.Memory.{Memory}
use amazing_os.Fs.CString.{CString}
use amazing_os.Fs.Tarfs.{slash, parse_octal}
use amazing_os.Fs.Tarfs.Init.{read_string, read_bytes, skip_slashes, skip_dot}
use native.Mathlib.Nat.{pow-suc, add-sub_cancel_left}
use mathlib.Core.List.{append_assoc}

-- `n` as `k` octal digits in ASCII.
unfoldable pub octal : ℕ → ℕ → List ℕ
octal zero n = []
octal (suc k) n = octal k (n / 8) ++ (b'0' + n % 8) ∷ []

parse_octal-end : (val : ℕ) (str : List ℕ) → parse_octal val (0 ∷ str) ≡ val
unfolding parse_octal
parse_octal-end val str = refl

parse_octal-digit :
    (val d : ℕ) (str : List ℕ)
    → d < 8
    → parse_octal val ((b'0' + d) ∷ str) ≡ parse_octal ((val * 8 + d) % 2 ^ 64) str
unfolding parse_octal
parse_octal-digit val d str h = ground (arith, add-sub_cancel_left b'0' d)

parse-octal_append :
    (k n : ℕ) (rest : List ℕ)
    → n < 8 ^ k
    → n < 2 ^ 64
    → parse_octal 0 (octal k n ++ rest) ≡ parse_octal n rest
unfolding octal
parse-octal_append zero n rest h w = ap (λ v. parse_octal v rest) (omega arith)
parse-octal_append (suc k) n rest h w =
    rw
      (
        append_assoc (octal k (n / 8)) ((b'0' + n % 8) ∷ []) rest,
        parse-octal_append k (n / 8) ((b'0' + n % 8) ∷ rest) (omega (arith, pow-suc 8 k))
            (omega arith),
        parse_octal-digit (n / 8) (n % 8) rest (omega arith),
      )
      (ap (λ v. parse_octal v rest) (omega arith))

-- A number of at most `k` octal digits is read back from them and what ends the field.
pub parse_octal-octal :
    (k n : ℕ) (rest : List ℕ) → n < 8 ^ k → n < 2 ^ 64 → parse_octal 0 (octal k n ++ 0 ∷ rest) ≡ n
parse_octal-octal k n rest h w = parse-octal_append k n (0 ∷ rest) h w ∙ parse_octal-end n rest

abbrev pub BytesAt : Memory → ℕ → List ℕ → Type 0
BytesAt m a [] = Unit {0}
BytesAt m a (x ∷ xs) = (m a ≡ x) × BytesAt m (a + 1) xs

pub read_string_lem :
    (n : ℕ) (m : Memory) (a : ℕ) (s : CString)
    → length s < n
    → All (λ c. c ≢ 0) s
    → BytesAt m a (s ++ 0 ∷ [])
    → read_string n m a ≡ s
unfolding read_string
read_string_lem zero m a s h nz b = absurd (omega arith)
read_string_lem (suc n) m a [] h nz b = rw (b.0, read_string)
read_string_lem (suc n) m a (c ∷ s) h nz b =
    rw (b.0, ≢→==_false c 0 nz.0, read_string)
      (λ i. b.0 i ∷ read_string_lem n m (a + 1) s (omega arith) nz.1 b.1 i)

pub read_bytes_lem :
    (m : Memory) (a : ℕ) (s : List ℕ) → BytesAt m a s → read_bytes (length s) m a ≡ s
unfolding read_bytes
read_bytes_lem m a [] b = refl
read_bytes_lem m a (x ∷ s) b = rw (b.0, read_bytes_lem m (a + 1) s b.1)

pub length-octal : (k n : ℕ) → length (octal k n) ≡ k
unfolding octal
length-octal zero n = refl
length-octal (suc k) n =
    omega (arith, length-append (octal k (n / 8)) ((b'0' + n % 8) ∷ []), length-octal k (n / 8))

-- A name that the walk takes as it is.
abbrev pub IsPlain : CString → Type 0
IsPlain [] = ⊥
IsPlain (c ∷ []) = c ≢ slash
IsPlain (c ∷ d ∷ s) = (c ≢ slash) × ((c ≢ b'.') ⊎ (d ≢ slash))

pub skip-IsPlain : (s : CString) → IsPlain s → skip_slashes (skip_dot s) ≡ s
unfolding skip_slashes skip_dot
skip-IsPlain [] h = absurd h
skip-IsPlain (c ∷ []) h = ground arith
skip-IsPlain (c ∷ d ∷ s) h = ground arith

pub skip_slashes-IsPlain : (s : CString) → IsPlain s → skip_slashes s ≡ s
unfolding skip_slashes
skip_slashes-IsPlain [] h = absurd h
skip_slashes-IsPlain (c ∷ []) h = ground arith
skip_slashes-IsPlain (c ∷ d ∷ s) h = ground arith
