-- ===== src/Base/Decimal.antt =====
-- `std::to_string` of an `int`.
use Prim.Native.Nat.{ℕ, zero, suc, ◌+◌, ◌/◌, ◌%◌, ◌≤◌, ◌<◌}
use mathlib.Core.Path.{◌≡◌}
use native.Mathlib.Decide.{dec_lt}
use mathlib.Core.List.{[], ◌∷◌, ◌++◌}
use native.Mathlib.Omega.{arith}
use btcr_did_method.Base.Tests.{ltb, if◌then◌else◌}
use btcr_did_method.Base.Int.{ℤ, pos, negsuc}
use btcr_did_method.Base.Bytes.{Str, bytes}

-- The decimal digits of a number, on as much fuel as the number plus one, in front of the rest.
unfoldable pub digits_onto : ℕ → ℕ → Str → Str
digits_onto zero n rest = rest
digits_onto (suc fuel) n rest =
    let more = digits_onto fuel (n / 10) ((48 + n % 10) ∷ rest) in
    if ltb n 10 then (48 + n) ∷ rest else more

-- `std::to_string`
unfoldable pub to_string : ℤ → Str
unfolding digits_onto
to_string (pos n) = digits_onto (suc n) n []
to_string (negsuc n) = bytes "-" ++ digits_onto (suc (suc n)) (suc n) []

-- The digits of a number begin with a digit.
pub digits_onto_first :
    (fuel n : ℕ) (rest : Str)
    → n < fuel
    → (c : ℕ) × (s : Str) × (digits_onto fuel n rest ≡ c ∷ s) × (48 ≤ c) × (c < 58)
unfolding digits_onto
digits_onto_first zero n rest h = elim h [ ]
digits_onto_first (suc fuel) n rest h = elim (dec_lt n 10) [
  | yes small ↦ (48 + n, rest, ground arith, omega arith, omega arith)
  | no large ↦
      let (c, s, e, low, high) =
        digits_onto_first fuel (n / 10) ((48 + n % 10) ∷ rest) (omega arith) in
      (c, s, ground arith, low, high)
]
