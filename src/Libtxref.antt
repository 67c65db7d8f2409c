-- ===== src/Libtxref.antt =====
-- What the program uses of libtxref, a git submodule: its functions, as a parameter, and the
-- documented round trip of its encoding as a hypothesis.
use btcr_did_method.Base.{◌≡◌, ◌≢◌, Bool, Str, ℤ}
use btcr_did_method.Base.Answer.{Answer, answer}

-- `txref::InputParam`; `unknown` stands for every value that the program does not name.
pub data InputParam : Type 0 where
  address txid txref txrefext unknown : InputParam

-- `txref::DecodedResult`, the fields that the program reads.
pub record DecodedResult : Type 0 where
  pub hrp : Str
  pub txref : Str
  pub block_height : ℤ
  pub transaction_index : ℤ
  pub txo_index : ℤ

pub record Libtxref : Type 0 where
  pub hrp_main : Str
  pub hrp_test : Str
  pub hrp_regtest : Str
  pub encode : ℤ → ℤ → ℤ → Bool → Answer Str
  pub encode_testnet : ℤ → ℤ → ℤ → Bool → Answer Str
  pub encode_regtest : ℤ → ℤ → ℤ → Bool → Answer Str
  pub decode : Str → Answer DecodedResult
  pub classify_input_string : Str → InputParam

-- Decoding what an encoder returned gives its arguments back, with the encoder's network prefix
-- and the same text; it holds of an encoder that refuses the arguments it cannot represent.
pub record Inverts (encoder : ℤ → ℤ → ℤ → Bool → Answer Str) (decode : Str → Answer DecodedResult)
    (hrp : Str) : Type 0 where
  pub decode-encoder :
      (height index vout : ℤ) (extended : Bool) (text : Str)
      → encoder height index vout extended ≡ answer text
      → decode text
        ≡ answer (record {
          hrp = hrp;
          txref = text;
          block_height = height;
          transaction_index = index;
          txo_index = vout;
        })

pub record IsLawful (lib : Libtxref) : Type 0 where
  pub main : Inverts lib.encode lib.decode lib.hrp_main
  pub test : Inverts lib.encode_testnet lib.decode lib.hrp_test
  pub regtest : Inverts lib.encode_regtest lib.decode lib.hrp_regtest

-- The prefixes of the three networks are different texts.
pub record HasThreePrefixes (lib : Libtxref) : Type 0 where
  pub main_test : lib.hrp_main ≢ lib.hrp_test
  pub main_regtest : lib.hrp_main ≢ lib.hrp_regtest
  pub test_regtest : lib.hrp_test ≢ lib.hrp_regtest
