-- ===== src/Satoshis.antt =====
-- src/satoshis.h. The arithmetic of `double` and its printing are the compiler's and the standard
-- library's on that machine: a parameter, over bit patterns.
pub mod Ieee
pub mod Text
pub mod RoundTrip
use btcr_did_method.Base.{
  ℕ, Bool, none, some, Str, bytes, ℤ, pos, find_first_not_of, drop, if◌then◌else◌,
}
use btcr_did_method.Base.Answer.{Answer}
use btcr_did_method.Rpc.{Double}

pub record Fpu : Type 0 where
  pub zero : Double
  pub half : Double
  pub minus_half : Double
  pub add : Double → Double → Double
  pub mul : Double → Double → Double
  pub div : Double → Double → Double
  pub ltb : Double → Double → Bool
  -- `static_cast<double>` of an integer, `static_cast<int64_t>` of a double
  pub of_int : ℤ → Double
  pub to_int : Double → ℤ
  -- `std::fixed << std::setw(width) << std::setprecision(precision)`
  pub to_fixed : ℕ → ℕ → Double → Str
  pub atof : Str → Double
  pub stod : Str → Answer Double

abbrev pub satoshis_per_btc : ℤ
satoshis_per_btc = pos 100000000

-- `trim extra spaces from start`
unfoldable pub trim_start : Str → Str
trim_start s = elim (find_first_not_of s (bytes " ")) [
  | none ↦ bytes ""
  | some start ↦ drop start s
]

module _ (fpu : Fpu) where
  open fpu use {half, minus_half, zero, add, mul, div, ltb, of_int, to_int, to_fixed}

  unfoldable pub btc2satoshi : Double → ℤ
  btc2satoshi value =
      to_int
        (add (mul value (of_int satoshis_per_btc)) (if ltb value zero then minus_half else half))

  unfoldable pub satoshi2btc : ℤ → Double
  satoshi2btc value = div (of_int value) (of_int satoshis_per_btc)

  -- The width is that of 2 ^ 64 - 1 and a decimal point, the precision that of a satoshi.
  unfoldable pub btc_to_string : Double → Str
  unfolding trim_start
  btc_to_string d = trim_start (to_fixed 21 8 d)
