-- ===== src/Vmm/Bits.antt =====
-- `bit_or` of numbers without a common bit, as where flags are put into an aligned address.
use Prim.Native.Nat.{max, digits, bit_or-bitwise}
use amazing_os.Base.{ℕ, zero, suc, ◌+◌, ◌*◌, ◌/◌, ◌%◌, ◌^◌, ◌≤◌, ◌<◌, ◌≡◌, refl, arith, bit_or}

abbrev or_digits : ℕ → ℕ → ℕ → ℕ
or_digits n a b = digits (λ b. b) max n a b

or_digits_fuel : (n m a b : ℕ) → a ≤ n → a ≤ m → or_digits n a b ≡ or_digits m a b
or_digits_fuel zero zero a b p q = refl
or_digits_fuel zero (suc m) zero b p q = refl
or_digits_fuel zero (suc m) (suc a) b p q = absurd (omega arith)
or_digits_fuel (suc n) zero zero b p q = refl
or_digits_fuel (suc n) zero (suc a) b p q = absurd (omega arith)
or_digits_fuel (suc n) (suc m) zero b p q = refl
or_digits_fuel (suc n) (suc m) (suc a) b p q =
    omega (arith, or_digits_fuel n m (suc a / 2) (b / 2) (omega arith) (omega arith))

zero-bit_or : (b : ℕ) → bit_or 0 b ≡ b
zero-bit_or b = bit_or-bitwise 0 b

-- The law for the lowest digit.
pub bit_or_step : (a b : ℕ) → bit_or a b ≡ bit_or (a / 2) (b / 2) * 2 + max (a % 2) (b % 2)
bit_or_step zero b = omega (arith, zero-bit_or b, zero-bit_or (b / 2))
bit_or_step (suc a) b = omega (
  arith,
  bit_or-bitwise (suc a) b,
  bit_or-bitwise (suc a / 2) (b / 2),
  or_digits_fuel a (suc a / 2) (suc a / 2) (b / 2) (omega arith) (omega arith),
)

-- `b` has none of the lowest `k` bits, and `q` holds for what is left of the two.
abbrev Upper : (k a b : ℕ) → (ℕ → ℕ → Type 0) → Type 0
Upper zero a b q = q a b
Upper (suc k) a b q = (b % 2 ≡ 0) × Upper k (a / 2) (b / 2) q

bit_or-Upper :
    (k a b : ℕ) (q : ℕ → ℕ → Type 0)
    → ((x y : ℕ) → q x y → bit_or x y ≡ x + y)
    → Upper k a b q
    → bit_or a b ≡ a + b
bit_or-Upper zero a b q rest h = rest a b h
bit_or-Upper (suc k) a b q rest h =
    omega (arith, bit_or_step a b, bit_or-Upper k (a / 2) (b / 2) q rest h.1)

-- The same with `a` in place of `b`.
abbrev Lower : (k a b : ℕ) → (ℕ → ℕ → Type 0) → Type 0
Lower zero a b q = q a b
Lower (suc k) a b q = (a % 2 ≡ 0) × Lower k (a / 2) (b / 2) q

bit_or-Lower :
    (k a b : ℕ) (q : ℕ → ℕ → Type 0)
    → ((x y : ℕ) → q x y → bit_or x y ≡ x + y)
    → Lower k a b q
    → bit_or a b ≡ a + b
bit_or-Lower zero a b q rest h = rest a b h
bit_or-Lower (suc k) a b q rest h =
    omega (arith, bit_or_step a b, bit_or-Lower k (a / 2) (b / 2) q rest h.1)

-- The bits of `a` below a place, in two steps of 20 places.
abbrev Below20 : (a b : ℕ) → Type 0
Below20 a b = (a < 2 ^ 20) × (b % 2 ^ 20 ≡ 0)

abbrev Below40 : (a b : ℕ) → Type 0
Below40 a b = (a < 2 ^ 40) × (b % 2 ^ 40 ≡ 0)

bit_or-Below20 : (a b : ℕ) → Below20 a b → bit_or a b ≡ a + b
bit_or-Below20 a b h =
    bit_or-Upper 20 a b (λ x y. x ≡ 0) (λ x y e. rw e (omega (arith, zero-bit_or y)))
      (omega (arith, h.0, h.1))

bit_or-Below40 : (a b : ℕ) → Below40 a b → bit_or a b ≡ a + b
bit_or-Below40 a b h = bit_or-Upper 20 a b Below20 bit_or-Below20 (omega (arith, h.0, h.1))

-- An address of 52 bits, and flags below 2^12 with or without the bit 63.
pub bit_or_page :
    (a flags : ℕ) → a % 4096 ≡ 0 → a < 2 ^ 52 → flags % 2 ^ 63 < 4096 → bit_or a flags ≡ a + flags
bit_or_page a flags h small lt = bit_or-Lower 12 a flags Below40 bit_or-Below40 (omega arith)
