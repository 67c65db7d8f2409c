-- ===== src/Tests/Node.antt =====
-- A node with one block of two transactions, and a libtxref that can represent the position of the
-- second one: concrete instances of `Btc` and `Libtxref`.
use mathlib.Core.Path.{subst}
use btcr_did_method.Base.{
  ◌≡◌, Bool, false, ◌&&◌, Str, bytes, str_eq, [], ◌∷◌, if◌then◌else◌, ℤ, pos, eqb_ℤ, eqb_ℤ→eq,
  arith,
}
use btcr_did_method.Base.Answer.{Answer, answer, raise}
use btcr_did_method.Base.Run.{out_of_range}
use btcr_did_method.Libtxref.{Libtxref, InputParam, DecodedResult, IsLawful}
use btcr_did_method.Rpc.{Btc, RawTransaction, BlockInfo, BlockchainInfo, IsActive}

abbrev pub coinbase : Str
coinbase = bytes "0000000000000000000000000000000000000000000000000000000000000000"

abbrev pub payment : Str
payment = bytes "f8cdaff3ebd9e862ed5885f8975489090595abe1470397f79780ead1c7528107"

abbrev pub raw_payment : RawTransaction
raw_payment = record { hex = bytes "0200"; blockhash = bytes "00ab"; vout_size = 2 }

abbrev pub only_block : BlockInfo
only_block = record { height = pos 7; confirmations = pos 9; tx = coinbase ∷ payment ∷ [] }

abbrev pub main_chain : BlockchainInfo
main_chain = record {
  chain = bytes "main";
  blocks = pos 15;
  headers = pos 15;
  bestblockhash = bytes "00ff";
  difficulty = 0;
  mediantime = pos 0;
  verificationprogress = 0;
  chainwork = bytes "";
  pruned = false;
  pruneheight = pos 0;
}

abbrev pub refused : {A : Type 0} → Answer A
refused = raise out_of_range

abbrev pub node : Btc
node = record {
  getrawtransaction = λ txid verbose. if str_eq txid payment then answer raw_payment else refused;
  getblock = λ hash. if str_eq hash (bytes "00ab") then answer only_block else refused;
  getblockhash = λ height. if eqb_ℤ height (pos 7) then answer (bytes "00ab") else refused;
  gettxout = λ txid n. refused;
  createrawtransaction = λ inputs amounts. refused;
  getblockchaininfo = answer main_chain;
  signrawtransactionwithkey = λ raw inputs keys hash_type. refused;
  getaddressinfo = λ address. refused;
  sendrawtransaction = λ hex. refused;
}

abbrev is_payment : ℤ → ℤ → ℤ → Bool
is_payment height index vout = eqb_ℤ height (pos 7) && (eqb_ℤ index (pos 1) && eqb_ℤ vout (pos 1))

abbrev encode : ℤ → ℤ → ℤ → Bool → Answer Str
encode height index vout extended =
    if is_payment height index vout then answer (bytes "tx1:yyy") else refused

abbrev decode : Str → Answer DecodedResult
decode text =
    if str_eq text (bytes "tx1:yyy")
    then answer (record {
      hrp = bytes "tx";
      txref = bytes "tx1:yyy";
      block_height = pos 7;
      transaction_index = pos 1;
      txo_index = pos 1;
    })
    else if str_eq text (bytes "yyy")
    then answer (record {
      hrp = bytes "tx";
      txref = bytes "tx1:yyy";
      block_height = pos 7;
      transaction_index = pos 1;
      txo_index = pos 1;
    })
    else refused

abbrev pub lib : Libtxref
lib = record {
  hrp_main = bytes "tx";
  hrp_test = bytes "txtest";
  hrp_regtest = bytes "txrt";
  encode = encode;
  encode_testnet = λ height index vout extended. refused;
  encode_regtest = λ height index vout extended. refused;
  decode = decode;
  classify_input_string = λ text. InputParam.txrefext;
}

decode-encode :
    (height index vout : ℤ) (extended : Bool) (text : Str)
    → encode height index vout extended ≡ answer text
    → decode text
      ≡ answer (record {
        hrp = bytes "tx";
        txref = text;
        block_height = height;
        transaction_index = index;
        txo_index = vout;
      })
unfolding str_eq
decode-encode height index vout extended text h =
    ground (arith, eqb_ℤ→eq height (pos 7), eqb_ℤ→eq index (pos 1), eqb_ℤ→eq vout (pos 1))

pub lib-IsLawful : IsLawful lib
lib-IsLawful = record {
  main = record { decode-encoder = decode-encode };
  test = record { decode-encoder = λ height index vout extended text h. absurd (ground arith) };
  regtest = record { decode-encoder = λ height index vout extended text h. absurd (ground arith) };
}

pub payment-IsActive :
    (raw : RawTransaction)
    → node.getrawtransaction payment (pos 1) ≡ answer raw
    → IsActive node raw.blockhash
unfolding str_eq
payment-IsActive raw h =
    let same : raw_payment ≡ raw = ground arith in
    subst (λ r. IsActive node r.blockhash) same
      (record {
        getblockhash-height = λ block e. ground arith;
        length-tx-lt = λ block e. ground arith;
      })
