-- ===== src/Base/Memory.antt =====
-- Byte-addressed memory, and the loops that copy and fill it.
use Prim.Native.Nat.{ℕ, zero, suc, ◌+◌, ◌≤◌, ◌<◌}
use mathlib.Core.Path.{◌≡◌, refl, ◌∙◌}
use mathlib.Core.Logic.{◌⊎◌}
use native.Mathlib.Omega.{arith}
use amazing_os.Base.Tests.{◌==◌, if◌then◌else◌}

abbrev pub Memory : Type 0
Memory = ℕ → ℕ

-- One byte written.
abbrev pub poke : Memory → ℕ → ℕ → Memory
poke m a v b = if b == a then v else m b

-- `for (i = 0; i < n; ++i) dest[i] = src[i];`, a byte at a time and from the front.
pub copy_bytes : ℕ → Memory → ℕ → ℕ → Memory
copy_bytes zero m dest src = m
copy_bytes (suc n) m dest src = copy_bytes n (poke m dest (m src)) (dest + 1) (src + 1)

-- The loop writes nowhere but to the `n` bytes from `dest`.
pub copy_bytes-outside :
    (n : ℕ) (m : Memory) (dest src a : ℕ)
    → (a < dest) ⊎ (dest + n ≤ a)
    → copy_bytes n m dest src a ≡ m a
unfolding copy_bytes
copy_bytes-outside zero m dest src a h = refl
copy_bytes-outside (suc n) m dest src a h =
    copy_bytes-outside n (poke m dest (m src)) (dest + 1) (src + 1) a (ground arith) ∙ ground arith

-- Where the two ranges are apart, the destination gets the source.
pub copy_bytes_lem :
    (n : ℕ) (m : Memory) (dest src i : ℕ)
    → (dest + n ≤ src) ⊎ (src + n ≤ dest)
    → i < n
    → copy_bytes n m dest src (dest + i) ≡ m (src + i)
unfolding copy_bytes
copy_bytes_lem zero m dest src i h lt = elim lt [ ]
copy_bytes_lem (suc n) m dest src zero h lt =
    ground (arith, copy_bytes-outside n (poke m dest (m src)) (dest + 1) (src + 1) (dest + 0))
copy_bytes_lem (suc n) m dest src (suc i) h lt =
    ground (arith, copy_bytes_lem n (poke m dest (m src)) (dest + 1) (src + 1) i)
