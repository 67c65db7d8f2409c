-- ===== src/Satoshis/RoundTrip.antt =====
-- Satoshis to bitcoins and back (src/satoshis.h), under IEEE 754.
use mathlib.Core.Path.{subst}
use btcr_did_method.Base.{
  ℕ, suc, ◌+◌, ◌*◌, ◌^◌, ◌≤◌, ◌<◌, ◌≡◌, inl, inr, zero, sym, ap, ◌∙◌, ℤ, pos, negsuc, if◌then◌else◌,
  arith,
}
use btcr_did_method.Rpc.{Double}
use btcr_did_method.Satoshis.{Fpu, satoshis_per_btc, btc2satoshi, satoshi2btc}
use btcr_did_method.Satoshis.Ieee.{
  IsIeee, IsNear, IsNormal, IsFinite, one, nat_abs, is_negative, signed,
}

abbrev per_btc : ℕ
per_btc = 100000000

-- The magnitudes on the way back, for whole multiples of `unit`: the sum is less than one unit above.
rounded_back :
    (unit total q y h z : ℕ)
    → total ≤ 2 ^ 50 * unit
    → IsNear (per_btc * q) total
    → IsNear y (per_btc * q)
    → 2 * h ≡ unit
    → 0 < unit
    → IsNear z (y + h)
    → (total ≤ z) × (z < total + unit)
rounded_back unit total q y h z bound near_q near_y half positive near_z = omega arith

pub one_large : 2 ^ 200 ≤ one
unfolding one
one_large = omega arith

pub scale : (unit n : ℕ) → n ≤ 2 ^ 50 → n * unit ≤ 2 ^ 50 * unit
scale unit n h = grind arith

at_least : (unit n : ℕ) → unit ≤ suc n * unit
at_least unit n = grind arith

signed-nat_abs : (i : ℤ) → signed (is_negative i) (nat_abs i) ≡ i
signed-nat_abs i = ground arith

module _ (fpu : Fpu) (ieee : IsIeee fpu) where
  open ieee use {magnitude, negative}

  -- A `double` that is an amount of satoshis in bitcoins, but for a rounding.
  abbrev pub IsAmount : Double → ℤ → Type 0
  IsAmount d i = IsNear (per_btc * magnitude d) (nat_abs i * one) × (negative d ≡ is_negative i)

  -- The half that `btc2satoshi` adds has the sign of the amount.
  ltb-zero-IsAmount :
      (d : Double) (i : ℤ) → nat_abs i ≤ 2 ^ 50 → IsAmount d i → fpu.ltb d fpu.zero ≡ is_negative i
  ltb-zero-IsAmount d (pos n) small amount =
      ground (arith, ieee.ltb-zero d (omega (arith, scale one n small)))
  ltb-zero-IsAmount d (negsuc n) small amount =
      ground
        (arith, ieee.ltb-zero d (omega (arith, scale one (suc n) small)), at_least one n, one_large)

  IsAmount-IsNormal : (d : Double) (i : ℤ) → IsAmount d i → IsNormal 1 (magnitude d)
  IsAmount-IsNormal d (pos zero) amount = inl (omega arith)
  IsAmount-IsNormal d (pos (suc n)) amount = inr (omega (arith, at_least one n, one_large))
  IsAmount-IsNormal d (negsuc n) amount = inr (omega (arith, at_least one n, one_large))

  abbrev half_of : ℤ → Double
  half_of i = if is_negative i then fpu.minus_half else fpu.half

  half_of_lem : (i : ℤ) → (2 * magnitude (half_of i) ≡ one) × (negative (half_of i) ≡ is_negative i)
  half_of_lem (pos n) = (ieee.magnitude-half, ieee.negative-half)
  half_of_lem (negsuc n) = (ieee.magnitude-minus_half, ieee.negative-minus_half)

  -- An amount of at most 2 ^ 50 satoshis, of either sign, is read exactly from its `double` in
  -- bitcoins: the nearest one, or any other within the relative error of one rounding.
  pub btc2satoshi-IsAmount :
      (d : Double) (i : ℤ) → nat_abs i ≤ 2 ^ 50 → IsAmount d i → btc2satoshi fpu d ≡ i
  unfolding btc2satoshi
  btc2satoshi-IsAmount d i small amount =
      let scaled = scale one (nat_abs i) small in
      let product = fpu.mul d (fpu.of_int satoshis_per_btc) in
      let finite : IsFinite (per_btc * magnitude d) = omega (arith, scaled) in
      let near =
        ieee.magnitude-mul d per_btc (omega arith) (omega arith) finite
          (IsAmount-IsNormal d i amount) in
      let same = ieee.negative-mul d per_btc (omega arith) (omega arith) finite ∙ amount.1 in
      let (halved, sign) = half_of_lem i in
      let signs : negative product ≡ negative (half_of i) = same ∙ sym sign in
      let total : IsFinite (magnitude product + magnitude (half_of i)) = omega (arith, scaled) in
      let back =
        rounded_back one (nat_abs i * one) (magnitude d) (magnitude product) (magnitude (half_of i))
          (magnitude (fpu.add product (half_of i))) scaled amount.0 near halved
          (omega (arith, one_large)) (ieee.magnitude-add product (half_of i) signs total) in
      ap (λ b. fpu.to_int (fpu.add product (if b then fpu.minus_half else fpu.half)))
        (ltb-zero-IsAmount d i small amount)
      ∙ ieee.to_int-truncates (fpu.add product (half_of i)) (nat_abs i) (omega arith) back.0 back.1
      ∙ ap (λ b. signed b (nat_abs i)) (ieee.negative-add product (half_of i) signs total ∙ same)
      ∙ signed-nat_abs i

  of_int-IsNormal : (i : ℤ) → IsNormal per_btc (nat_abs i * one)
  of_int-IsNormal (pos zero) = inl (omega arith)
  of_int-IsNormal (pos (suc n)) = inr (omega (arith, at_least one n, one_large))
  of_int-IsNormal (negsuc n) = inr (omega (arith, at_least one n, one_large))

  pub satoshi2btc-IsAmount : (i : ℤ) → nat_abs i ≤ 2 ^ 50 → IsAmount (satoshi2btc fpu i) i
  unfolding satoshi2btc
  satoshi2btc-IsAmount i small =
      let whole = ieee.magnitude-of_int i (omega arith) in
      let finite : IsFinite (magnitude (fpu.of_int i)) =
        omega (arith, whole, scale one (nat_abs i) small) in
      let normal = subst (IsNormal per_btc) (sym whole) (of_int-IsNormal i) in
      (
        subst (IsNear _) whole
            (ieee.magnitude-div (fpu.of_int i) per_btc (omega arith) (omega arith) finite normal),
        ieee.negative-div (fpu.of_int i) per_btc (omega arith) (omega arith) finite
            ∙ ieee.negative-of_int i (omega arith),
      )

  -- Satoshis are turned into bitcoins and back without a loss, up to 2 ^ 50 of either sign.
  pub btc2satoshi-satoshi2btc :
      (i : ℤ) → nat_abs i ≤ 2 ^ 50 → btc2satoshi fpu (satoshi2btc fpu i) ≡ i
  btc2satoshi-satoshi2btc i small =
      btc2satoshi-IsAmount (satoshi2btc fpu i) i small (satoshi2btc-IsAmount i small)
