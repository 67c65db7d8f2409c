-- ===== src/CommandLine/Numbers.antt =====
-- `std::stoi` of the standard library: white space, a sign, and decimal digits up to the first byte
-- that is none; an error if there is no digit, or if the number is no `int` of 32 bits.
use btcr_did_method.Base.{
  ℕ, ◌+◌, ◌-◌, ◌*◌, ◌^◌, Bool, true, false, ◌&&◌, ◌||◌, Str, ℤ, pos, negsuc, [], ◌∷◌, ◌==◌, leb,
  ltb, if◌then◌else◌,
}

pub data Stoi : Type 0 where
  value : ℤ → Stoi
  invalid_argument too_large : Stoi

unfoldable pub is_digit : ℕ → Bool
is_digit c = leb b'0' c && leb c b'9'

-- The number that the leading digits stand for, after the digits that make `n`.
unfoldable pub digits_value : ℕ → Str → ℕ
unfolding is_digit
digits_value n [] = n
digits_value n (c ∷ s) =
    let more = digits_value (10 * n + (c - 48)) s in if is_digit c then more else n

unfoldable pub begins_with_digit : Str → Bool
unfolding is_digit
begins_with_digit [] = false
begins_with_digit (c ∷ s) = is_digit c

unfoldable pub unsigned_part : Bool → Str → Stoi
unfolding digits_value begins_with_digit
unsigned_part negative s =
    let n = digits_value 0 s in
    if begins_with_digit s
    then (if negative
        then (if ltb (2 ^ 31) n
            then too_large
            else (if n == 0 then value (pos 0) else value (negsuc (n - 1))))
        else (if ltb n (2 ^ 31) then value (pos n) else too_large))
    else invalid_argument

unfoldable pub signed_part : Str → Stoi
unfolding unsigned_part
signed_part [] = invalid_argument
signed_part (c ∷ s) =
    if c == b'-'
    then unsigned_part true s
    else if c == b'+'
    then unsigned_part false s
    else unsigned_part false (c ∷ s)

-- `isspace` in the "C" locale.
unfoldable pub is_space : ℕ → Bool
is_space c = c == 32 || leb 9 c && leb c 13

unfoldable pub stoi : Str → Stoi
unfolding signed_part is_space
stoi [] = invalid_argument
stoi (c ∷ s) = let rest = stoi s in if is_space c then rest else signed_part (c ∷ s)
