-- ===== src/Tests/Networks.antt =====
-- The theorems about txrefs of another network (src/t2tSupport.cpp, src/domain/txref.cpp), at the
-- payment of the node and a node of the test network.
use btcr_did_method.Base.{
  ◌≡◌, inl, inr, refl, true, Message, Str, bytes, str_eq, pos, [], ◌∷◌, to_lower, get_elem?,
  size_of_int, some, find_first_not_of, is_one_of, int_of_size, if◌then◌else◌, eqb_ℤ, arith,
}
use btcr_did_method.Base.Answer.{answer}
use btcr_did_method.Base.Run.{ok, exits, failed, stderr}
use btcr_did_method.Libtxref.{HasThreePrefixes}
use btcr_did_method.Rpc.{Btc, BlockInfo, BlockchainInfo, RawTransaction, IsActive}
use btcr_did_method.T2t
use btcr_did_method.T2t.Networks.{encode_txid-decode_txref_elsewhere}
use btcr_did_method.T2t.Constructed.{make-decode_txref}
use btcr_did_method.Domain.Txid
use btcr_did_method.Domain.Txid.{
  Txid, find_transaction, is_input_string_valid, exists_in_network, extract_transaction_details,
}
use btcr_did_method.Domain.BlockHeight
use btcr_did_method.Domain.TransactionIndex
use btcr_did_method.Domain.Txref
use btcr_did_method.Domain.Txref.{verify_vout_for_txid}
use btcr_did_method.Tests.Node.{
  node, lib, lib-IsLawful, coinbase, payment, payment-IsActive, only_block, main_chain, raw_payment,
  refused,
}
use btcr_did_method.Tests.Txids.{transaction, txid, txref, encoded}

pub three_prefixes : HasThreePrefixes lib
three_prefixes = record {
  main_test = λ e. ground arith;
  main_regtest = λ e. ground arith;
  test_regtest = λ e. ground arith;
}

abbrev pub test_chain : BlockchainInfo
test_chain = record main_chain { chain = bytes "test" }

-- Another transaction, at the same place of the test network's chain.
abbrev pub stranger : Str
stranger = bytes "1111111111111111111111111111111111111111111111111111111111111111"

abbrev pub test_block : BlockInfo
test_block = record only_block { tx = coinbase ∷ stranger ∷ [] }

abbrev pub test_node : Btc
test_node = record node {
  getrawtransaction = λ id verbose.
      if str_eq id stranger
      then answer (record raw_payment { blockhash = bytes "0cd1" })
      else refused;
  getblock = λ hash. if str_eq hash (bytes "0cd1") then answer test_block else refused;
  getblockhash = λ height. if eqb_ℤ height (pos 7) then answer (bytes "0cd1") else refused;
  getblockchaininfo = answer test_chain;
}

encode_txid-decode_txref_elsewhere_example :
    T2t.decode_txref lib test_node (bytes "tx1:yyy") []
    ≡ (exits failed, stderr (Message.wrong_network (bytes "tx1:yyy") (bytes "test")) ∷ [])
encode_txid-decode_txref_elsewhere_example =
    encode_txid-decode_txref_elsewhere lib node test_node lib-IsLawful three_prefixes main_chain
      test_chain payment (pos 1) [] [] transaction refl refl (inl refl) (inr (inl refl))
      (λ e. ground arith) encoded

abbrev pub found : Txid
found = record {
  block_height = record { height = pos 7 };
  transaction_index = record { index = pos 1 };
  testnet = true;
  txid_str = stranger;
}

pub made : Txid.make test_node stranger [] ≡ (ok found, [])
unfolding Txid.make is_input_string_valid exists_in_network extract_transaction_details
    find_transaction str_eq to_lower find_first_not_of is_one_of BlockHeight.make
    TransactionIndex.make int_of_size
made = refl

pub at_place : get_elem? test_block.tx (size_of_int (pos 1)) ≡ some stranger
unfolding size_of_int
at_place = refl

pub hash_at_height : test_node.getblockhash (pos 7) ≡ answer (bytes "0cd1")
hash_at_height = refl

pub block_of_hash : test_node.getblock (bytes "0cd1") ≡ answer test_block
unfolding str_eq
block_of_hash = refl

-- The node, on the regression test network.
abbrev regtest_chain : BlockchainInfo
regtest_chain = record main_chain { chain = bytes "regtest" }

abbrev regtest_node : Btc
regtest_node = record node { getblockchaininfo = answer regtest_chain }

regtest_Txid : (Txid.make regtest_node payment []).0 ≡ ok txid
unfolding Txid.make is_input_string_valid exists_in_network extract_transaction_details
    find_transaction str_eq to_lower find_first_not_of is_one_of BlockHeight.make
    TransactionIndex.make int_of_size
regtest_Txid = refl

regtest_Txref : (Txref.make lib regtest_node txid (record { index = pos 1 }) []).0 ≡ ok txref
unfolding Txref.make verify_vout_for_txid str_eq size_of_int
regtest_Txref = refl

regtest-IsActive :
    (raw : RawTransaction)
    → regtest_node.getrawtransaction payment (pos 1) ≡ answer raw
    → IsActive regtest_node raw.blockhash
regtest-IsActive raw h =
    let r = payment-IsActive raw h in
    record { getblockhash-height = r.getblockhash-height; length-tx-lt = r.length-tx-lt }

make-decode_txref_example :
    T2t.decode_txref lib regtest_node (bytes "tx1:yyy") []
    ≡ (exits failed, stderr (Message.wrong_network (bytes "tx1:yyy") (bytes "regtest")) ∷ [])
unfolding str_eq to_lower
make-decode_txref_example =
    make-decode_txref lib regtest_node lib-IsLawful three_prefixes regtest_chain payment
      (record { index = pos 1 }) txid txref [] [] [] refl (inr (inr refl)) regtest-IsActive
      regtest_Txid regtest_Txref
