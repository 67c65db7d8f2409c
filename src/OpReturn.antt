-- ===== src/OpReturn.antt =====
-- `encodeOpReturnData` of src/encodeOpReturnData.h and src/encodeOpReturnData.cpp. Whether `char` is
-- signed is up to the platform: a parameter.
pub mod Laws
use btcr_did_method.Base.{
  ℕ, zero, suc, ◌+◌, ◌-◌, ◌/◌, ◌%◌, ◌^◌, Bool, true, false, ◌&&◌, Str, bytes, List, [], ◌∷◌, ◌++◌,
  length, ltb, if◌then◌else◌,
}

abbrev pub max_op_return_length : ℕ
max_op_return_length = 80

-- `static_cast<unsigned>(c)`: a negative `char` wraps around.
unfoldable pub unsigned_of_char : Bool → ℕ → ℕ
unsigned_of_char signed c = if signed && ltb 127 c then 2 ^ 32 - 256 + c else c

unfoldable pub hex_digit : ℕ → ℕ
hex_digit d = if ltb d 10 then 48 + d else 87 + d

-- The hexadecimal digits of an `unsigned`, which are eight at most, in front of the rest.
unfoldable pub hex_onto : ℕ → ℕ → Str → Str
unfolding hex_digit
hex_onto zero n rest = rest
hex_onto (suc fuel) n rest =
    let more = hex_onto fuel (n / 16) (hex_digit (n % 16) ∷ rest) in
    if ltb n 16 then hex_digit n ∷ rest else more

-- `std::setw(2)` with `std::setfill('0')`
unfoldable pub pad2 : Str → Str
pad2 [] = bytes "00"
pad2 (d ∷ []) = b'0' ∷ d ∷ []
pad2 (d ∷ e ∷ s) = d ∷ e ∷ s

-- What one round of the loop writes.
unfoldable pub encode_char : Bool → ℕ → Str
unfolding unsigned_of_char hex_onto pad2
encode_char signed c = pad2 (hex_onto 8 (unsigned_of_char signed c) [])

-- The loop.
unfoldable pub encode_chars : Bool → Str → Str
encode_chars signed [] = []
encode_chars signed (c ∷ s) = encode_char signed c ++ encode_chars signed s

unfoldable pub encode_op_return_data : Bool → Str → Str
unfolding encode_chars
encode_op_return_data signed s =
    if ltb max_op_return_length (length s) then bytes "" else encode_chars signed s
