-- ===== src/OpReturn/Laws.antt =====
-- What `encodeOpReturnData` (src/encodeOpReturnData.cpp) writes, against the reading of hexadecimal
-- text.
use native.Mathlib.Decide.{dec_lt}
use native.Mathlib.Nat.{pow-suc}
use btcr_did_method.Base.{
  ℕ, zero, suc, ◌+◌, ◌-◌, ◌*◌, ◌/◌, ◌%◌, ◌^◌, ◌≤◌, ◌<◌, ◌≡◌, ◌≢◌, ◌⊎◌, ◌↔◌, inl, inr, is_empty,
  ◌++◌, refl, ap, Bool, true, ◌&&◌, Option, none, some, Str, [], ◌∷◌, length, length-append, All,
  ltb, leb, if◌then◌else◌, arith,
}
use btcr_did_method.OpReturn.{
  unsigned_of_char, hex_digit, hex_onto, pad2, encode_char, encode_chars, encode_op_return_data,
}

-- The value of a hexadecimal digit.
digit_value : ℕ → Option ℕ
digit_value c =
    if leb b'0' c && leb c b'9'
    then some (c - 48)
    else if leb b'a' c && leb c b'f'
    then some (c - 87)
    else none

-- Two digits for each byte.
abbrev byte_of : Option ℕ → Option ℕ → Option Str → Option Str
byte_of (some hi) (some lo) (some rest) = some ((16 * hi + lo) ∷ rest)
byte_of (some hi) (some lo) none = none
byte_of (some hi) none rest = none
byte_of none lo rest = none

pub decode_hex : Str → Option Str
unfolding digit_value
decode_hex [] = some []
decode_hex (a ∷ []) = none
decode_hex (a ∷ b ∷ s) = byte_of (digit_value a) (digit_value b) (decode_hex s)

-- A byte of ASCII is written as two digits, on every platform.
encode_char_ascii :
    (signed : Bool) (c : ℕ)
    → c < 128
    → encode_char signed c ≡ hex_digit (c / 16) ∷ hex_digit (c % 16) ∷ []
unfolding encode_char
encode_char_ascii signed c h = ground arith

digit_value-hex_digit : (d : ℕ) → d < 16 → digit_value (hex_digit d) ≡ some d
unfolding digit_value hex_digit
digit_value-hex_digit d h = ground arith

-- Eight digits suffice for a number that has no fewer, and each takes a round.
hex_onto_round :
    (fuel n : ℕ) (rest : Str)
    → 16 ≤ n
    → hex_onto (suc fuel) n rest ≡ hex_onto fuel (n / 16) (hex_digit (n % 16) ∷ rest)
unfolding hex_onto
hex_onto_round fuel n rest h = ground arith

length-hex_onto_last :
    (n : ℕ) (rest : Str) → n < 16 → length (hex_onto 1 n rest) ≡ suc (length rest)
unfolding hex_onto
length-hex_onto_last n rest h = ground arith

pow-pos : (fuel : ℕ) → 1 ≤ 16 ^ fuel
pow-pos zero = omega arith
pow-pos (suc fuel) = omega (arith, pow-suc 16 fuel, pow-pos fuel)

length-hex_onto :
    (fuel n : ℕ) (rest : Str)
    → 16 ^ fuel ≤ n
    → n < 16 * 16 ^ fuel
    → length (hex_onto (suc fuel) n rest) ≡ suc fuel + length rest
length-hex_onto zero n rest low high = omega (arith, length-hex_onto_last n rest (omega arith))
length-hex_onto (suc fuel) n rest low high =
    rw (hex_onto_round (suc fuel) n rest (omega (arith, pow-suc 16 fuel, pow-pos fuel))) (
      omega (
        arith,
        length-hex_onto fuel (n / 16) (hex_digit (n % 16) ∷ rest) (omega (arith, pow-suc 16 fuel))
            (omega (arith, pow-suc 16 fuel)),
      ))

append-eq_nil : (xs ys : Str) → xs ++ ys ≡ [] → xs ≡ []
append-eq_nil [] ys e = refl
append-eq_nil (x ∷ xs) ys e = absurd (ground (arith, e))

length-pad2 : (s : Str) → length s ≡ 8 → length (pad2 s) ≡ 8
unfolding pad2
length-pad2 [] h = absurd (omega arith)
length-pad2 (d ∷ []) h = absurd (omega arith)
length-pad2 (d ∷ e ∷ s) h = h

unsigned_of_char_high : (c : ℕ) → 128 ≤ c → unsigned_of_char true c ≡ 4294967040 + c
unfolding unsigned_of_char
unsigned_of_char_high c h = ground arith

high_digits : (c : ℕ) → 128 ≤ c → c < 256 → length (hex_onto 8 (unsigned_of_char true c) []) ≡ 8
high_digits c h k =
    let e = unsigned_of_char_high c h in
    length-hex_onto 7 (unsigned_of_char true c) [] (omega (arith, e)) (omega (arith, e))

-- A byte above ASCII is written as eight digits where `char` is signed.
length-encode_char_high : (c : ℕ) → 128 ≤ c → c < 256 → length (encode_char true c) ≡ 8
unfolding encode_char
length-encode_char_high c h k = length-pad2 _ (high_digits c h k)

decode_hex-encode_chars :
    (signed : Bool) (s : Str) → All (λ c. c < 128) s → decode_hex (encode_chars signed s) ≡ some s
unfolding decode_hex encode_chars
decode_hex-encode_chars signed [] h = refl
decode_hex-encode_chars signed (c ∷ s) h =
    rw
      (
        encode_char_ascii signed c h.0,
        digit_value-hex_digit (c / 16) (omega arith),
        digit_value-hex_digit (c % 16) (omega arith),
        decode_hex-encode_chars signed s h.1,
      )
      (ap (λ d. some (d ∷ s)) (omega arith))

-- The bytes above ASCII.
unfoldable pub high_bytes : Str → ℕ
high_bytes [] = 0
high_bytes (c ∷ s) = if ltb c 128 then high_bytes s else suc (high_bytes s)

length-encode_chars :
    (s : Str)
    → All (λ c. c < 256) s
    → length (encode_chars true s) ≡ 2 * length s + 6 * high_bytes s
unfolding encode_chars high_bytes
length-encode_chars [] h = refl
length-encode_chars (c ∷ s) h = elim (dec_lt c 128) [
  | yes low ↦ ground (
    arith,
    length-append (encode_char true c) (encode_chars true s),
    ap length (encode_char_ascii true c low),
    length-encode_chars s h.1,
  )
  | no high ↦ ground (
    arith,
    length-append (encode_char true c) (encode_chars true s),
    length-encode_char_high c (omega arith) h.0,
    length-encode_chars s h.1,
  )
]

-- A text of at most 80 bytes of ASCII is written as hexadecimal digits that read back as the text,
-- whether `char` is signed or not.
pub decode_hex-encode_op_return_data :
    (signed : Bool) (s : Str)
    → length s ≤ 80
    → All (λ c. c < 128) s
    → decode_hex (encode_op_return_data signed s) ≡ some s
unfolding encode_op_return_data
decode_hex-encode_op_return_data signed s h ascii =
    ground (arith, decode_hex-encode_chars signed s ascii)

-- A text of more than 80 bytes is dropped: nothing is written, and what is written reads back as no data.
pub encode_op_return_data_long :
    (signed : Bool) (s : Str)
    → 80 < length s
    → (encode_op_return_data signed s ≡ [])
      × (decode_hex (encode_op_return_data signed s) ≡ some [])
unfolding encode_op_return_data decode_hex
encode_op_return_data_long signed s h = ground arith

pad2-nonempty : (s : Str) → pad2 s ≢ []
unfolding pad2
pad2-nonempty [] e = absurd (ground (arith, e))
pad2-nonempty (d ∷ []) e = absurd (ground (arith, e))
pad2-nonempty (d ∷ f ∷ s) e = absurd (ground (arith, e))

encode_chars-nonempty : (signed : Bool) (c : ℕ) (s : Str) → encode_chars signed (c ∷ s) ≢ []
unfolding encode_chars encode_char
encode_chars-nonempty signed c s e =
    pad2-nonempty (hex_onto 8 (unsigned_of_char signed c) []) (append-eq_nil _ _ e)

-- Nothing is written just for the empty text and for a text of more than 80 bytes, whether `char` is
-- signed or not.
pub encode_op_return_data_empty :
    (signed : Bool) (s : Str)
    → (encode_op_return_data signed s ≡ []) ↔ (is_empty s ≡ true) ⊎ (80 < length s)
unfolding encode_op_return_data encode_chars
encode_op_return_data_empty signed [] = (λ e. inl refl, λ h. ground arith)
encode_op_return_data_empty signed (c ∷ s) = elim (dec_lt 80 (length (c ∷ s))) [
  | yes long ↦ (λ e. inr long, λ h. (encode_op_return_data_long signed (c ∷ s) long).0)
  | no short ↦ (
    λ e. absurd (encode_chars-nonempty signed c s (ground (arith, e, short))),
    λ h. absurd (ground (arith, h, short)),
  )
]

-- Where `char` is signed, a text of at most 80 bytes takes two digits for each byte below 128 and
-- eight for every other byte.
pub length-encode_op_return_data :
    (s : Str)
    → length s ≤ 80
    → All (λ c. c < 256) s
    → length (encode_op_return_data true s) ≡ 2 * length s + 6 * high_bytes s
unfolding encode_op_return_data
length-encode_op_return_data s h all = ground (arith, length-encode_chars s all)
