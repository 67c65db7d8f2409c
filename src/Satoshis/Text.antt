-- ===== src/Satoshis/Text.antt =====
-- The text of an amount in bitcoins (`btc_to_string` of src/satoshis.h).
use btcr_did_method.Base.{
  ℕ, zero, suc, ◌-◌, ◌/◌, ◌%◌, ◌^◌, ◌≤◌, ◌<◌, ◌≡◌, ◌≢◌, refl, ap, sym, ◌∙◌, Bool, true, false, some,
  Str, bytes, [], ◌∷◌, ◌++◌, length, drop, find_first_not_of, is_one_of, ℤ, pos, negsuc, to_string,
  digits_onto_first, arith,
}
use btcr_did_method.Satoshis.{Fpu, satoshi2btc, trim_start, btc_to_string}
use btcr_did_method.Satoshis.Ieee.{
  IsFinite, IsIeee, one, nat_abs, is_negative, fixed, fraction, spaces,
}
use btcr_did_method.Satoshis.RoundTrip.{satoshi2btc-IsAmount, scale, one_large}

find_first_not_of-spaces :
    (k c : ℕ) (s : Str) → c ≢ b' ' → find_first_not_of (spaces k ++ c ∷ s) (bytes " ") ≡ some k
unfolding find_first_not_of is_one_of spaces
find_first_not_of-spaces zero c s h = ground arith
find_first_not_of-spaces (suc k) c s h = ground (arith, find_first_not_of-spaces k c s h)

drop-spaces : (k : ℕ) (s : Str) → drop k (spaces k ++ s) ≡ s
unfolding spaces
drop-spaces zero s = refl
drop-spaces (suc k) s = drop-spaces k s

-- Leading spaces are removed, and nothing else.
pub trim_start-spaces : (k c : ℕ) (s : Str) → c ≢ b' ' → trim_start (spaces k ++ c ∷ s) ≡ c ∷ s
unfolding trim_start
trim_start-spaces k c s h = ground (arith, find_first_not_of-spaces k c s h, drop-spaces k (c ∷ s))

to_string_first : (n : ℕ) → (c : ℕ) × (s : Str) × (to_string (pos n) ≡ c ∷ s) × (48 ≤ c) × (c < 58)
unfolding to_string
to_string_first n = digits_onto_first (suc n) n [] (omega arith)

-- The text of a number does not begin with a space.
fixed_first :
    (places : ℕ) (negative : Bool) (m : ℕ)
    → (c : ℕ) × (s : Str) × (fixed places negative m ≡ c ∷ s) × (c ≢ b' ')
unfolding fixed
fixed_first places true m = (b'-', _, refl, λ e. ground (arith, e))
fixed_first places false m =
    let (c, s, e, low, high) = to_string_first (m / 10 ^ places) in
    let behind = b'.' ∷ fraction places (m % 10 ^ places) in
    (c, s ++ behind, ap (λ t. t ++ behind) e, λ e'. omega (arith, e'))

-- The decimal text of an amount of satoshis in bitcoins: eight places, and a sign if it is below zero.
unfoldable pub amount_text : ℤ → Str
unfolding fixed
amount_text i = fixed 8 (is_negative i) (nat_abs i)

module _ (fpu : Fpu) (ieee : IsIeee fpu) where
  open ieee use {magnitude, negative}

  -- An amount of at most 2 ^ 50 satoshis, of either sign, is printed in bitcoins exactly, with eight
  -- places behind the point and nothing in front.
  pub btc_to_string-satoshi2btc :
      (i : ℤ) → nat_abs i ≤ 2 ^ 50 → btc_to_string fpu (satoshi2btc fpu i) ≡ amount_text i
  unfolding btc_to_string amount_text
  btc_to_string-satoshi2btc i small =
      let d = satoshi2btc fpu i in
      let (near, sign) = satoshi2btc-IsAmount fpu ieee i small in
      let finite : IsFinite (magnitude d) = omega (arith, scale one (nat_abs i) small, one_large) in
      let printed =
        ieee.to_fixed-nearest 21 8 d (nat_abs i) finite
          (omega (arith, scale one (nat_abs i) small, one_large))
          (omega (arith, scale one (nat_abs i) small, one_large)) in
      let (c, s, e, ink) = fixed_first 8 (negative d) (nat_abs i) in
      ap trim_start printed
      ∙ ap (λ t. trim_start (spaces (21 - length (fixed 8 (negative d) (nat_abs i))) ++ t)) e
      ∙ trim_start-spaces (21 - length (fixed 8 (negative d) (nat_abs i))) c s ink
      ∙ sym e
      ∙ ap (λ b. fixed 8 b (nat_abs i)) sign

amount_text_samples :
    (amount_text (pos 1154000) ≡ bytes "0.01154000")
    × (amount_text (negsuc 0) ≡ bytes "-0.00000001")
unfolding amount_text to_string
amount_text_samples = (refl, refl)
