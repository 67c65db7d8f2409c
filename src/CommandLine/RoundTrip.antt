-- ===== src/CommandLine/RoundTrip.antt =====
-- A number that is given on a command line in decimal digits (`convertIntegerArg`).
use native.Mathlib.Decide.{dec_lt}
use btcr_did_method.Base.{
  ℕ, zero, suc, ◌+◌, ◌-◌, ◌*◌, ◌/◌, ◌%◌, ◌^◌, ◌≤◌, ◌<◌, ◌≡◌, refl, ◌∙◌, ap, sym, true, false, Str,
  [], ◌∷◌, ℤ, pos, negsuc, ◌≤ℤ◌, digits_onto, digits_onto_first, to_string, arith,
}
use btcr_did_method.Base.Run.{Log, ok}
use btcr_did_method.CommandLine.{convert_integer_arg, convert_integer}
use btcr_did_method.CommandLine.Numbers.{
  value, digits_value, begins_with_digit, unsigned_part, signed_part, is_space, stoi,
}

-- The digits of a number, read again.
digits_value-digits_onto :
    (fuel n : ℕ) (rest : Str)
    → n < fuel
    → digits_value 0 (digits_onto fuel n rest) ≡ digits_value n rest
unfolding digits_value digits_onto
digits_value-digits_onto zero n rest h = elim h [ ]
digits_value-digits_onto (suc fuel) n rest h = elim (dec_lt n 10) [
  | yes small ↦ ground arith
  | no large ↦
      let ih = digits_value-digits_onto fuel (n / 10) ((48 + n % 10) ∷ rest) (omega arith) in
      let whole : 10 * (n / 10) + (48 + n % 10 - 48) ≡ n = omega arith in
      ground (arith, ih, ap (λ k. digits_value k rest) whole)
]

begins_with_digit_lem : (c : ℕ) (s : Str) → 48 ≤ c → c < 58 → begins_with_digit (c ∷ s) ≡ true
unfolding begins_with_digit
begins_with_digit_lem c s low high = ground arith

digits_value_nil : (n : ℕ) → digits_value n [] ≡ n
unfolding digits_value
digits_value_nil n = refl

begins_with_digit-digits_onto :
    (fuel n : ℕ) → n < fuel → begins_with_digit (digits_onto fuel n []) ≡ true
begins_with_digit-digits_onto fuel n h =
    let (c, s, e, low, high) = digits_onto_first fuel n [] h in
    ap begins_with_digit e ∙ begins_with_digit_lem c s low high

unsigned_part_nonneg :
    (n : ℕ) → n < 2 ^ 31 → unsigned_part false (digits_onto (suc n) n []) ≡ value (pos n)
unfolding unsigned_part
unsigned_part_nonneg n h = ground (
  arith,
  begins_with_digit-digits_onto (suc n) n (omega arith),
  digits_value-digits_onto (suc n) n [] (omega arith),
  digits_value_nil n,
)

unsigned_part_negative :
    (n : ℕ)
    → n < 2 ^ 31
    → unsigned_part true (digits_onto (suc (suc n)) (suc n) []) ≡ value (negsuc n)
unfolding unsigned_part
unsigned_part_negative n h = ground (
  arith,
  begins_with_digit-digits_onto (suc (suc n)) (suc n) (omega arith),
  digits_value-digits_onto (suc (suc n)) (suc n) [] (omega arith),
  digits_value_nil (suc n),
)

stoi_digit : (c : ℕ) (s : Str) → 48 ≤ c → c < 58 → stoi (c ∷ s) ≡ unsigned_part false (c ∷ s)
unfolding stoi signed_part is_space
stoi_digit c s low high = ground arith

stoi_minus : (s : Str) → stoi (b'-' ∷ s) ≡ unsigned_part true s
unfolding stoi signed_part is_space
stoi_minus s = ground arith

-- A number of 32 bits is read from its own decimal text.
pub stoi-to_string :
    (i : ℤ) → negsuc (2 ^ 31 - 1) ≤ℤ i → i ≤ℤ pos (2 ^ 31 - 1) → stoi (to_string i) ≡ value i
unfolding to_string
stoi-to_string (pos n) low high =
    let (c, s, e, first, last) = digits_onto_first (suc n) n [] (omega arith) in
    ap stoi e
    ∙ stoi_digit c s first last
    ∙ ap (unsigned_part false) (sym e)
    ∙ unsigned_part_nonneg n (omega arith)
stoi-to_string (negsuc n) low high =
    stoi_minus (digits_onto (suc (suc n)) (suc n) []) ∙ unsigned_part_negative n (omega arith)

-- An `int` given to `convertIntegerArg` as its decimal text is taken as it is, without a message.
pub convert_integer_arg-to_string :
    (name : Str) (i : ℤ) (w : Log)
    → negsuc (2 ^ 31 - 1) ≤ℤ i
    → i ≤ℤ pos (2 ^ 31 - 1)
    → convert_integer_arg name (to_string i) w ≡ (ok i, w)
unfolding convert_integer_arg convert_integer
convert_integer_arg-to_string name i w low high = rw (stoi-to_string i low high, convert_integer)
