-- ===== src/Satoshis/Ieee.antt =====
-- What IEEE 754 says of the arithmetic of src/satoshis.h: a `double` is a sign and a magnitude, and
-- an operation returns the exact result rounded to 53 significant bits.
use btcr_did_method.Base.{
  ℕ, zero, suc, ◌+◌, ◌-◌, ◌*◌, ◌^◌, ◌≤◌, ◌<◌, ◌≡◌, ◌⊎◌, Bool, true, false, not, ◌&&◌, ◌==◌, ℤ, pos,
  negsuc, Str, bytes, [], ◌∷◌, ◌++◌, ◌/◌, ◌%◌, length, to_string, if◌then◌else◌,
}
use btcr_did_method.Rpc.{Double}
use btcr_did_method.Satoshis.{Fpu}

-- 1.0 in units of the least positive `double`, which is 2 ^ -1074.
unfoldable pub one : ℕ
one = 2 ^ 1074

abbrev pub nat_abs : ℤ → ℕ
nat_abs (pos n) = n
nat_abs (negsuc n) = suc n

abbrev pub is_negative : ℤ → Bool
is_negative (pos n) = false
is_negative (negsuc n) = true

-- The integer of a sign and a magnitude.
abbrev pub signed : Bool → ℕ → ℤ
signed false n = pos n
signed true zero = pos 0
signed true (suc n) = negsuc n

-- `x` is `y` but for a relative error of 2 ^ -53.
abbrev pub IsNear : ℕ → ℕ → Type 0
IsNear x y = (2 ^ 53 * x ≤ 2 ^ 53 * y + y) × (2 ^ 53 * y ≤ 2 ^ 53 * x + y)

-- Zero, or at least `k` times the least normal `double`, which is 2 ^ -1022.
abbrev pub IsNormal : ℕ → ℕ → Type 0
IsNormal k x = (x ≡ 0) ⊎ (k * 2 ^ 52 ≤ x)

-- Far below the greatest `double`.
abbrev pub IsFinite : ℕ → Type 0
IsFinite x = x ≤ 2 ^ 100 * one

-- The digits of `m` behind the decimal point, `k` of them.
unfoldable pub fraction : ℕ → ℕ → Str
fraction zero m = []
fraction (suc k) m = (48 + m / 10 ^ k) ∷ fraction k (m % 10 ^ k)

-- The decimal text of `m` units of the `k`th place behind the point.
unfoldable pub fixed : ℕ → Bool → ℕ → Str
unfolding fraction
fixed k negative m =
    (if negative then bytes "-" else bytes "")
    ++ (to_string (pos (m / 10 ^ k)) ++ b'.' ∷ fraction k (m % 10 ^ k))

unfoldable pub spaces : ℕ → Str
spaces zero = []
spaces (suc n) = b' ' ∷ spaces n

-- The laws of binary64 with rounding to nearest that the conversions rely on. An operation by an
-- integer constant is stated over that integer, which the `double` represents exactly.
pub record IsIeee (fpu : Fpu) : Type 0 where
  pub magnitude : Double → ℕ
  pub negative : Double → Bool
  pub magnitude-zero : magnitude fpu.zero ≡ 0
  pub magnitude-half : 2 * magnitude fpu.half ≡ one
  pub negative-half : negative fpu.half ≡ false
  pub magnitude-minus_half : 2 * magnitude fpu.minus_half ≡ one
  pub negative-minus_half : negative fpu.minus_half ≡ true
  pub magnitude-of_int : (i : ℤ) → nat_abs i ≤ 2 ^ 53 → magnitude (fpu.of_int i) ≡ nat_abs i * one
  pub negative-of_int : (i : ℤ) → nat_abs i ≤ 2 ^ 53 → negative (fpu.of_int i) ≡ is_negative i
  pub magnitude-div :
      (a : Double) (k : ℕ)
      → 0 < k
      → k ≤ 2 ^ 53
      → IsFinite (magnitude a)
      → IsNormal k (magnitude a)
      → IsNear (k * magnitude (fpu.div a (fpu.of_int (pos k)))) (magnitude a)
  pub negative-div :
      (a : Double) (k : ℕ)
      → 0 < k
      → k ≤ 2 ^ 53
      → IsFinite (magnitude a)
      → negative (fpu.div a (fpu.of_int (pos k))) ≡ negative a
  pub magnitude-mul :
      (a : Double) (k : ℕ)
      → 0 < k
      → k ≤ 2 ^ 53
      → IsFinite (k * magnitude a)
      → IsNormal 1 (magnitude a)
      → IsNear (magnitude (fpu.mul a (fpu.of_int (pos k)))) (k * magnitude a)
  pub negative-mul :
      (a : Double) (k : ℕ)
      → 0 < k
      → k ≤ 2 ^ 53
      → IsFinite (k * magnitude a)
      → negative (fpu.mul a (fpu.of_int (pos k))) ≡ negative a
  pub magnitude-add :
      (a b : Double)
      → negative a ≡ negative b
      → IsFinite (magnitude a + magnitude b)
      → IsNear (magnitude (fpu.add a b)) (magnitude a + magnitude b)
  pub negative-add :
      (a b : Double)
      → negative a ≡ negative b
      → IsFinite (magnitude a + magnitude b)
      → negative (fpu.add a b) ≡ negative a
  pub ltb-zero :
      (a : Double)
      → IsFinite (magnitude a)
      → fpu.ltb a fpu.zero ≡ (negative a && not (magnitude a == 0))
  -- `static_cast` drops the fraction.
  pub to_int-truncates :
      (a : Double) (m : ℕ)
      → m < 2 ^ 63
      → m * one ≤ magnitude a
      → magnitude a < m * one + one
      → fpu.to_int a ≡ signed (negative a) m
  -- `std::fixed` prints the nearest decimal of that many places, if one is nearest, and `std::setw`
  -- puts spaces in front.
  pub to_fixed-nearest :
      (width places : ℕ) (a : Double) (m : ℕ)
      → IsFinite (magnitude a)
      → 2 * (10 ^ places * magnitude a) < 2 * (m * one) + one
      → 2 * (m * one) < 2 * (10 ^ places * magnitude a) + one
      → let text = fixed places (negative a) m in
        fpu.to_fixed width places a ≡ spaces (width - length text) ++ text
