-- ===== src/Tests/Txids.antt =====
-- The theorems about txids and txrefs (src/t2tSupport.cpp and src/domain), at the payment of the node.
use btcr_did_method.Base.{
  ◌↔◌, ◌≡◌, refl, ◌⊎◌, ◌++◌, Message, zero, suc, true, false, Str, bytes, str_eq, to_lower,
  lowercase, pos, [], length, find_first_not_of, is_one_of, int_of_size, size_of_int, get_elem?,
  inl, ◌≢◌, ◌≤ℤ◌, some, All, arith,
}
use btcr_did_method.Base.Answer.{answer}
use btcr_did_method.Base.Run.{ok, throws, runtime, pure, ◌>>=◌}
use btcr_did_method.Rpc.{RawTransaction, BlockInfo}
use btcr_did_method.T2t
use btcr_did_method.T2t.{Transaction, is_network_mismatch}
use btcr_did_method.T2t.Inverse.{IsDistinct, decode_txref-encode_txid}
use btcr_did_method.T2t.RoundTrip.{encode_txid-decode_txref}
use btcr_did_method.Domain.Txid
use btcr_did_method.Domain.Txid.{
  Txid, find_transaction, is_input_string_valid, exists_in_network, extract_transaction_details,
}
use btcr_did_method.Domain.BlockHeight
use btcr_did_method.Domain.TransactionIndex
use btcr_did_method.Domain.Vout
use btcr_did_method.Domain.Txref
use btcr_did_method.Domain.Txref.{Txref, verify_vout_for_txid}
use btcr_did_method.Domain.Txref.RoundTrip.{make-parse}
use btcr_did_method.Domain.Txid.Details.{make_locates, IsHex}
use btcr_did_method.Domain.Txid.Constructed.{Describes, make-Describes_iff}
use btcr_did_method.Domain.Txref.VoutBound.{make-encode_txid_at_size}
use btcr_did_method.Domain.Did
use btcr_did_method.Domain.Did.{scheme_and_method, is_txref}
use btcr_did_method.Domain.Did.Branches.{make-branches}
use btcr_did_method.Programs.Txid2txref.{txref2did}
use btcr_did_method.Programs.Txid2txref.DidText.{txref2did-make}
use btcr_did_method.Rpc.{Btc}
use btcr_did_method.Tests.Node.{
  node, lib, lib-IsLawful, payment, only_block, main_chain, raw_payment, payment-IsActive,
}

abbrev pub transaction : Transaction
transaction = record {
  txid = payment;
  txref = bytes "tx1:yyy";
  network = bytes "main";
  block_height = pos 7;
  transaction_index = pos 1;
  txo_index = pos 1;
  query = payment;
}

pub encoded : (T2t.encode_txid lib node payment (pos 1) []).0 ≡ ok transaction
unfolding T2t.encode_txid str_eq find_transaction int_of_size
encoded = refl

encode_txid-decode_txref_example :
    T2t.decode_txref lib node (bytes "tx1:yyy") []
    ≡ (ok (record transaction { query = bytes "tx1:yyy" }), [])
encode_txid-decode_txref_example =
    encode_txid-decode_txref lib node lib-IsLawful payment (pos 1) [] [] transaction
      (λ c e. inl (ground arith)) payment-IsActive encoded

abbrev pub txid : Txid
txid = record {
  block_height = record { height = pos 7 };
  transaction_index = record { index = pos 1 };
  testnet = false;
  txid_str = payment;
}

pub constructed : (Txid.make node payment []).0 ≡ ok txid
unfolding Txid.make is_input_string_valid exists_in_network extract_transaction_details
    find_transaction str_eq to_lower find_first_not_of is_one_of BlockHeight.make
    TransactionIndex.make int_of_size
constructed = refl

make_locates_example :
    (raw : RawTransaction) × (block : BlockInfo) × (node.getrawtransaction payment (pos 1)
      ≡ answer raw)
    × (node.getblock raw.blockhash ≡ answer block)
    × (pos 7 ≡ block.height)
    × (pos 0 ≤ℤ block.height)
    × (get_elem? block.tx (size_of_int (pos 1)) ≡ some payment)
    × (payment ≡ lowercase payment)
    × (length payment ≡ 64)
    × All IsHex payment
unfolding to_lower
make_locates_example = make_locates node payment [] txid constructed payment-IsActive

abbrev pub txref : Txref
txref = record { txid = txid; vout = record { index = pos 1 }; txref_str = bytes "tx1:yyy" }

made : (Txref.make lib node txid (record { index = pos 1 }) []).0 ≡ ok txref
unfolding Txref.make verify_vout_for_txid str_eq size_of_int
made = refl

make-parse_example : Txref.parse lib node (bytes "tx1:yyy") [] ≡ (ok txref, [])
unfolding to_lower
make-parse_example =
    make-parse lib node lib-IsLawful payment (record { index = pos 1 }) txid txref [] [] []
      payment-IsActive (omega arith) constructed made

-- The node, with a payment that has one output.
abbrev one_output : Btc
one_output = record node {
  getrawtransaction = λ id verbose. answer (record raw_payment { vout_size = 1 });
}

make-encode_txid_at_size_example :
    (Txref.make lib one_output txid (record { index = pos 1 }) [] ≡ (ok txref, []))
    × ((T2t.encode_txid lib one_output payment (pos 1) []).0 ≢ ok transaction)
make-encode_txid_at_size_example =
    make-encode_txid_at_size lib one_output txid (record raw_payment { vout_size = 1 })
      (bytes "tx1:yyy") [] [] transaction (omega arith) refl refl

abbrev pub short_txref : Txref
short_txref = record txref { txref_str = bytes "yyy" }

parsed : Txref.parse lib node (bytes "yyy") [] ≡ (ok short_txref, [])
unfolding Txref.parse Txid.make Vout.make is_input_string_valid exists_in_network
    extract_transaction_details find_transaction str_eq to_lower find_first_not_of is_one_of
    BlockHeight.make TransactionIndex.make int_of_size size_of_int
parsed = refl

txref2did-make_example :
    (did : Str) × (txref2did (bytes "tx1:yyy") [] ≡ (ok did, []))
    × (Did.make lib node did [] ≡ (ok (record { txref = short_txref }), []))
unfolding to_lower
txref2did-make_example =
    txref2did-make lib node (bytes "tx1") (bytes "yyy") short_txref [] [] [] (ground arith) refl
      refl parsed

make-Describes_iff_example : ((Txid.make node payment []).0 ≡ ok txid) ↔ Describes node payment txid
unfolding to_lower
make-Describes_iff_example = make-Describes_iff node payment [] txid payment-IsActive

decoded :
    (T2t.decode_txref lib node (bytes "yyy") []).0 ≡ ok (record transaction { query = bytes "yyy" })
unfolding T2t.decode_txref is_network_mismatch str_eq size_of_int
decoded = refl

-- The two transactions of the block differ.
only_block-IsDistinct : IsDistinct only_block.tx
only_block-IsDistinct zero zero t p q = refl
only_block-IsDistinct zero (suc zero) t p q = absurd (ground arith)
only_block-IsDistinct (suc zero) zero t p q = absurd (ground arith)
only_block-IsDistinct (suc zero) (suc zero) t p q = refl
only_block-IsDistinct (suc (suc j)) k t p q = absurd (ground arith)
only_block-IsDistinct zero (suc (suc k)) t p q = absurd (ground arith)
only_block-IsDistinct (suc zero) (suc (suc k)) t p q = absurd (ground arith)

decode_txref-encode_txid_example : (T2t.encode_txid lib node payment (pos 1) []).0 ≡ ok transaction
unfolding str_eq int_of_size
decode_txref-encode_txid_example =
    decode_txref-encode_txid lib node main_chain
      (record {
        hrp = bytes "tx";
        txref = bytes "tx1:yyy";
        block_height = pos 7;
        transaction_index = pos 1;
        txo_index = pos 1;
      })
      raw_payment only_block (bytes "yyy") (bytes "tx1:yyy")
      (record transaction { query = bytes "yyy" }) [] [] refl refl refl (omega arith) (omega arith)
      refl refl refl only_block-IsDistinct (omega arith) refl decoded

make-branches_example :
    ((rest : Str) → lowercase (bytes "did:btcr:yyy") ≢ scheme_and_method ++ rest)
      × (Did.make lib node (bytes "did:btcr:yyy") []
          ≡ (throws (runtime Message.not_a_btcr_did), []))
    ⊎ ((rest : Str) × (lowercase (bytes "did:btcr:yyy") ≡ scheme_and_method ++ rest)
        × ((is_txref (lib.classify_input_string rest) ≡ false)
              × (Did.make lib node (bytes "did:btcr:yyy") []
                  ≡ (throws (runtime Message.no_valid_txref), []))
            ⊎ (is_txref (lib.classify_input_string rest) ≡ true)
              × (Did.make lib node (bytes "did:btcr:yyy") []
                  ≡ (Txref.parse lib node rest >>= λ r. pure (record { txref = r })) [])))
make-branches_example = make-branches lib node (bytes "did:btcr:yyy") []
