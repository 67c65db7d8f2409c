-- ===== src/Tests/OpReturn.antt =====
-- The theorems about `encodeOpReturnData` (src/encodeOpReturnData.cpp), at short texts.
use btcr_did_method.Base.{
  ◌≡◌, ◌↔◌, ◌⊎◌, ◌<◌, is_empty, true, some, Str, bytes, [], ◌∷◌, length, arith,
}
use btcr_did_method.OpReturn.{encode_op_return_data}
use btcr_did_method.OpReturn.Laws.{
  decode_hex, high_bytes, decode_hex-encode_op_return_data, encode_op_return_data_empty,
  length-encode_op_return_data,
}

decode_hex-encode_op_return_data_example :
    decode_hex (encode_op_return_data true (bytes "ipfs/Qm")) ≡ some (bytes "ipfs/Qm")
decode_hex-encode_op_return_data_example =
    decode_hex-encode_op_return_data true (bytes "ipfs/Qm") (omega arith) (ground arith)

-- A text of 81 bytes.
abbrev long_text : Str
long_text =
    bytes "012345678901234567890123456789012345678901234567890123456789012345678901234567890"

encode_op_return_data_empty_example :
    (encode_op_return_data true long_text ≡ [])
    ↔ (is_empty long_text ≡ true) ⊎ (80 < length long_text)
encode_op_return_data_empty_example = encode_op_return_data_empty true long_text

-- "é" in UTF-8.
length-encode_op_return_data_example :
    length (encode_op_return_data true (b'c' ∷ 195 ∷ 169 ∷ [])) ≡ 18
unfolding high_bytes
length-encode_op_return_data_example =
    length-encode_op_return_data (b'c' ∷ 195 ∷ 169 ∷ []) (omega arith) (ground arith)
