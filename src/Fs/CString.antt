-- ===== src/Fs/CString.antt =====
-- The string helpers of Kernel/CrecentKernel/src/fs/vfs.cpp (tarfs.cpp has the same ones again). A C
-- string is the list of its bytes before the terminating 0, and `s[i]` is `char_at s i`.
use amazing_os.Base.{
  ℕ, ◌-◌, ◌<◌, ◌≡◌, ◌↔◌, Bool, true, false, List, [], ◌∷◌, ◌++◌, arith, ◌==◌, if◌then◌else◌, length,
  get_or, take, drop, length-take, take-all,
}

abbrev pub CString : Type 0
CString = List ℕ

-- At the end of the string stands its 0.
abbrev pub char_at : CString → ℕ → ℕ
char_at s i = get_or s i 0

unfoldable pub str_len : CString → ℕ
str_len s = length s

unfoldable pub str_starts_with : CString → CString → Bool
str_starts_with s [] = true
str_starts_with [] (p ∷ ps) = false
str_starts_with (c ∷ s) (p ∷ ps) = if c == p then str_starts_with s ps else false

unfoldable pub str_equal : CString → CString → Bool
str_equal [] [] = true
str_equal [] (d ∷ t) = false
str_equal (c ∷ s) [] = false
str_equal (c ∷ s) (d ∷ t) = if c == d then str_equal s t else false

-- What a buffer of `max_len` bytes holds after the copy.
unfoldable pub str_copy : CString → ℕ → CString
str_copy src max_len = take (max_len - 1) src

pub str_equal_iff : (s t : CString) → (str_equal s t ≡ true) ↔ (s ≡ t)
unfolding str_equal
str_equal_iff [] [] = ground arith
str_equal_iff [] (d ∷ t) = ground arith
str_equal_iff (c ∷ s) [] = ground arith
str_equal_iff (c ∷ s) (d ∷ t) = ground (arith, str_equal_iff s t)

-- A prefix test passes exactly when the string is the prefix and a rest.
pub str_starts_with_iff :
    (s p : CString) → (str_starts_with s p ≡ true) ↔ (s ≡ p ++ drop (length p) s)
unfolding str_starts_with
str_starts_with_iff s [] = ground arith
str_starts_with_iff [] (p ∷ ps) = ground arith
str_starts_with_iff (c ∷ s) (p ∷ ps) = ground (arith, str_starts_with_iff s ps)

pub str_copy_lem : (s : CString) (n : ℕ) → length s < n → str_copy s n ≡ s
unfolding str_copy
str_copy_lem s n h = take-all (n - 1) s (omega arith)

pub str_copy-length : (s : CString) (n : ℕ) → 0 < n → length (str_copy s n) < n
unfolding str_copy
str_copy-length s n h = omega (arith, length-take (n - 1) s)
