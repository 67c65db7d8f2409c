-- ===== src/Tests/Spending.antt =====
-- createBtcrDid (src/createBtcrDid.cpp) for the txref of the node's payment.
use btcr_did_method.Base.{
  ◌≡◌, ◌-ℤ◌, refl, true, false, bytes, str_eq, pos, [], ◌∷◌, inl, inr, int_of_size, Message, arith,
}
use btcr_did_method.Base.Answer.{answer}
use btcr_did_method.Base.Run.{ok, exits, failed, stderr, stdout, submit}
use btcr_did_method.Rpc.{RawTransaction, IsActive}
use btcr_did_method.CommandLine.{CreateInput}
use btcr_did_method.T2t.{encode_txid}
use btcr_did_method.Domain.Txid.{find_transaction}
use btcr_did_method.Programs.CreateBtcrDid.{run}
use btcr_did_method.Programs.CreateBtcrDid.Submits.{submitted}
use btcr_did_method.Programs.CreateBtcrDid.Encoded.{
  run-encode_txid_spends, run-encode_txid_mismatch,
}
use btcr_did_method.Tests.Node.{lib, lib-IsLawful, payment, payment-IsActive, main_chain}
use btcr_did_method.Tests.Txids.{transaction}
use btcr_did_method.Tests.Fixed.{fixed_point, fixed_point-IsIeee}
use btcr_did_method.Tests.Programs.{address, config}
use btcr_did_method.Tests.Amounts.{paid, paying_node, paying_input, worth-IsAmount, fee-IsAmount}

paying-IsActive :
    (raw : RawTransaction)
    → paying_node.getrawtransaction payment (pos 1) ≡ answer raw
    → IsActive paying_node raw.blockhash
paying-IsActive raw h =
    let r = payment-IsActive raw h in
    record { getblockhash-height = r.getblockhash-height; length-tx-lt = r.length-tx-lt }

encoded : (encode_txid lib paying_node payment (pos 1) []).0 ≡ ok transaction
unfolding encode_txid str_eq find_transaction int_of_size
encoded = refl

-- The index 0 on the command line, where 1 is encoded.
abbrev txref_input : CreateInput
txref_input = record paying_input { query = bytes "tx1:yyy"; txo_index = pos 0; dryrun = false }

run-encode_txid_spends_example :
    run lib fixed_point true (λ c. answer paying_node) config txref_input [] ≡ (
      ok (pos 0),
      stdout (submitted payment)
          ∷ stdout (Message.plain_text (bytes "txid2txref"))
          ∷ submit (bytes "0201")
          ∷ stdout Message.signed_and_submitting
          ∷ [],
    )
unfolding ◌-ℤ◌
run-encode_txid_spends_example =
    run-encode_txid_spends lib fixed_point true fixed_point-IsIeee (λ c. answer paying_node) config
      txref_input paying_node main_chain payment (pos 1) transaction paid address (bytes "bc1q")
      (bytes "0200") (bytes "0201") payment (pos 200000) (pos 1000) [] [] lib-IsLawful
      (λ c e. inl (ground arith)) paying-IsActive encoded refl refl
      (inr (refl, λ e. ground (arith, e))) refl refl refl refl refl refl worth-IsAmount fee-IsAmount
      (omega arith) (omega arith) (omega arith) refl refl refl refl refl refl

abbrev other_input : CreateInput
other_input = record txref_input { txo_index = pos 2 }

run-encode_txid_mismatch_example :
    run lib fixed_point true (λ c. answer paying_node) config other_input []
    ≡ (exits failed, stderr (Message.txo_index_not_supported (pos 2) (pos 1)) ∷ [])
run-encode_txid_mismatch_example =
    run-encode_txid_mismatch lib fixed_point true (λ c. answer paying_node) config other_input
      paying_node main_chain payment (pos 1) 1 transaction [] [] lib-IsLawful
      (λ c e. inl (ground arith)) paying-IsActive encoded refl refl refl (λ e. ground (arith, e))
      refl refl
