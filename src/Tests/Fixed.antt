-- ===== src/Tests/Fixed.antt =====
-- A machine that meets the laws of `IsIeee`: fixed-point numbers with a sign, which are exact but in
-- a division, where the nearest is taken. Products and quotients are by whole numbers.
use native.Mathlib.Nat.{
  div-eq_of_lt, lt-div-mul-add, div-mul-le_self, div-eq_of_lt-le, mul-div_cancel,
}
use btcr_did_method.Base.{
  ℕ, suc, ◌+◌, ◌-◌, ◌*◌, ◌/◌, ◌%◌, ◌^◌, ◌≤◌, ◌<◌, ◌≡◌, inl, inr, refl, ap, ◌∙◌, Bool, true, false,
  not, ◌&&◌, ◌==◌, ltb, if◌then◌else◌, Str, length, ◌++◌, ℤ, pos, arith,
}
use btcr_did_method.Base.Answer.{answer}
use btcr_did_method.Rpc.{Double}
use btcr_did_method.Satoshis.{Fpu}
use btcr_did_method.Satoshis.Ieee.{
  one, nat_abs, is_negative, signed, fixed, spaces, IsNear, IsNormal, IsIeee,
}

-- The sign is the last bit.
abbrev pub code : Bool → ℕ → Double
code negative m = if negative then suc (2 * m) else 2 * m

abbrev pub magnitude : Double → ℕ
magnitude d = d / 2

abbrev pub negative : Double → Bool
negative d = d % 2 == 1

magnitude-code : (b : Bool) (m : ℕ) → magnitude (code b m) ≡ m
magnitude-code b m = ground arith

negative-code : (b : Bool) (m : ℕ) → negative (code b m) ≡ b
negative-code b m = ground arith

-- The whole number that a number stands for.
whole : Double → ℕ
whole d = magnitude d / one

pub add : Double → Double → Double
add a b =
    if negative a
    then (if negative b
        then code true (magnitude a + magnitude b)
        else (if ltb (magnitude b) (magnitude a)
            then code true (magnitude a - magnitude b)
            else code false (magnitude b - magnitude a)))
    else (if negative b
        then (if ltb (magnitude a) (magnitude b)
            then code true (magnitude b - magnitude a)
            else code false (magnitude a - magnitude b))
        else code false (magnitude a + magnitude b))

abbrev sign : Bool → Bool → Bool
sign true b = not b
sign false b = b

pub mul : Double → Double → Double
unfolding whole
mul a b = code (sign (negative a) (negative b)) (magnitude a * whole b)

pub div : Double → Double → Double
unfolding whole
div a b = code (sign (negative a) (negative b)) ((2 * magnitude a + whole b) / (2 * whole b))

pub ltb_fixed : Double → Double → Bool
ltb_fixed a b =
    if negative a
    then (if negative b
        then ltb (magnitude b) (magnitude a)
        else not (magnitude a + magnitude b == 0))
    else (if negative b then false else ltb (magnitude a) (magnitude b))

pub of_int : ℤ → Double
of_int i = code (is_negative i) (nat_abs i * one)

pub to_int : Double → ℤ
unfolding whole
to_int d = signed (negative d) (whole d)

pub to_fixed : ℕ → ℕ → Double → Str
to_fixed width places d =
    let text = fixed places (negative d) ((2 * (10 ^ places * magnitude d) + one) / (2 * one)) in
    spaces (width - length text) ++ text

abbrev pub fixed_point : Fpu
fixed_point = record {
  zero = 0;
  half = one;
  minus_half = suc one;
  add = add;
  mul = mul;
  div = div;
  ltb = ltb_fixed;
  of_int = of_int;
  to_int = to_int;
  to_fixed = to_fixed;
  atof = λ s. 0;
  stod = λ s. answer 0;
}

one_even : (2 * (one / 2) ≡ one) × (one % 2 ≡ 0) × (0 < one)
unfolding one
one_even = (omega arith, omega arith, omega arith)

whole-of_int : (k : ℕ) → whole (of_int (pos k)) ≡ k
unfolding whole of_int
whole-of_int k = ap (λ m. m / one) (magnitude-code false (k * one)) ∙ mul-div_cancel k one_even.2

negative-of_int_pos : (k : ℕ) → negative (of_int (pos k)) ≡ false
unfolding of_int
negative-of_int_pos k = negative-code false (k * one)

div-IsNear : (k x : ℕ) → 0 < k → IsNormal k x → IsNear (k * ((2 * x + k) / (2 * k))) x
div-IsNear k x positive (inl none) =
    let q : (2 * x + k) / (2 * k) ≡ 0 = div-eq_of_lt (omega arith) in rw q (omega arith)
div-IsNear k x positive (inr large) =
    let q : ℕ = (2 * x + k) / (2 * k) in
    let twice : q * (2 * k) ≡ 2 * (k * q) = grind arith in
    omega (
      arith,
      twice,
      div-mul-le_self (2 * x + k) (2 * k),
      lt-div-mul-add {a = 2 * x + k} {b = 2 * k} (omega arith),
    )

nearest_unique :
    (x m : ℕ)
    → 2 * x < 2 * (m * one) + one
    → 2 * (m * one) < 2 * x + one
    → (2 * x + one) / (2 * one) ≡ m
nearest_unique x m low high =
    let p : m * (2 * one) ≡ 2 * (m * one) = grind arith in
    let q : (m + 1) * (2 * one) ≡ 2 * (m * one) + 2 * one = grind arith in
    div-eq_of_lt-le (2 * one) (omega (arith, p)) (omega (arith, q))

truncates : (x m : ℕ) → m * one ≤ x → x < m * one + one → x / one ≡ m
truncates x m low high =
    let q : (m + 1) * one ≡ m * one + one = grind arith in
    div-eq_of_lt-le one low (omega (arith, q))

of_int-magnitude : (i : ℤ) → magnitude (of_int i) ≡ nat_abs i * one
unfolding of_int
of_int-magnitude i = magnitude-code (is_negative i) (nat_abs i * one)

of_int-negative : (i : ℤ) → negative (of_int i) ≡ is_negative i
unfolding of_int
of_int-negative i = negative-code (is_negative i) (nat_abs i * one)

sign_pos : (b c : Bool) → c ≡ false → sign b c ≡ b
sign_pos b c e = ground arith

div-magnitude :
    (a : Double) (k : ℕ) → magnitude (div a (of_int (pos k))) ≡ (2 * magnitude a + k) / (2 * k)
unfolding div
div-magnitude a k = magnitude-code _ _ ∙ ap (λ w. (2 * magnitude a + w) / (2 * w)) (whole-of_int k)

div-negative : (a : Double) (k : ℕ) → negative (div a (of_int (pos k))) ≡ negative a
unfolding div
div-negative a k = negative-code _ _ ∙ sign_pos (negative a) _ (of_int-negative (pos k))

mul-magnitude : (a : Double) (k : ℕ) → magnitude (mul a (of_int (pos k))) ≡ magnitude a * k
unfolding mul
mul-magnitude a k = magnitude-code _ _ ∙ ap (λ w. magnitude a * w) (whole-of_int k)

mul-negative : (a : Double) (k : ℕ) → negative (mul a (of_int (pos k))) ≡ negative a
unfolding mul
mul-negative a k = negative-code _ _ ∙ sign_pos (negative a) _ (of_int-negative (pos k))

add-exact :
    (a b : Double)
    → negative a ≡ negative b
    → (magnitude (add a b) ≡ magnitude a + magnitude b) × (negative (add a b) ≡ negative a)
unfolding add
add-exact a b same = ground (
  arith,
  magnitude-code true (magnitude a + magnitude b),
  magnitude-code false (magnitude a + magnitude b),
  negative-code true (magnitude a + magnitude b),
  negative-code false (magnitude a + magnitude b),
)

ltb_zero : (a : Double) → ltb_fixed a 0 ≡ (negative a && not (magnitude a == 0))
unfolding ltb_fixed
ltb_zero a = ground arith

pub fixed_point-IsIeee : IsIeee fixed_point
unfolding to_int whole to_fixed
fixed_point-IsIeee = record {
  magnitude = magnitude;
  negative = negative;
  magnitude-zero = refl;
  magnitude-half = one_even.0;
  negative-half = ground (arith, one_even);
  magnitude-minus_half = omega (arith, one_even);
  negative-minus_half = ground (arith, one_even);
  magnitude-of_int = λ i small. of_int-magnitude i;
  negative-of_int = λ i small. of_int-negative i;
  magnitude-div = λ a k positive small finite normal.
      rw (div-magnitude a k) (div-IsNear k (magnitude a) positive normal);
  negative-div = λ a k positive small finite. div-negative a k;
  magnitude-mul = λ a k positive small finite normal. rw (mul-magnitude a k) (grind arith);
  negative-mul = λ a k positive small finite. mul-negative a k;
  magnitude-add = λ a b same finite. omega (arith, (add-exact a b same).0);
  negative-add = λ a b same finite. (add-exact a b same).1;
  ltb-zero = λ a finite. ltb_zero a;
  to_int-truncates =
      λ a m small low high. ap (λ k. signed (negative a) k) (truncates (magnitude a) m low high);
  to_fixed-nearest = λ width places a m finite low high.
      ap (λ k. let text = fixed places (negative a) k in spaces (width - length text) ++ text)
        (nearest_unique (10 ^ places * magnitude a) m low high);
}
