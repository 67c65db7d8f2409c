-- ===== src/Tests/Elsewhere.antt =====
-- didResolver (src/didResolver.cpp) at a node of the test network, for the DID of the payment.
use btcr_did_method.Base.{
  ◌≡◌, refl, false, none, Str, bytes, str_eq, to_lower, pos, [], ◌∷◌, inl, inr, Message, arith,
}
use btcr_did_method.Base.Answer.{answer}
use btcr_did_method.Base.Run.{Log, ok, exits, failed, stdout}
use btcr_did_method.Rpc.{Btc}
use btcr_did_method.T2t.{decode_txref}
use btcr_did_method.Domain.Txid
use btcr_did_method.ChainSo.Urls.{is_tx_spent_url}
use btcr_did_method.ChainSo.Ledger.{Tip, unspent}
use btcr_did_method.Programs.Txid2txref.{txref2did}
use btcr_did_method.Programs.DidResolver
use btcr_did_method.Programs.DidResolver.{is_unspent}
use btcr_did_method.Programs.Elsewhere.{run-encode_txid_elsewhere}
use btcr_did_method.Tests.Node.{node, lib, lib-IsLawful, payment, main_chain}
use btcr_did_method.Tests.Txids.{transaction, encoded}
use btcr_did_method.Tests.Docs.{ops}
use btcr_did_method.Tests.Serving.{curl, is_spent, ledger_of, network-Serves}
use btcr_did_method.Tests.Chain.{no_output}
use btcr_did_method.Tests.CommandLine.{config}
use btcr_did_method.Tests.Networks.{
  three_prefixes, test_chain, test_block, test_node, stranger, found, made, at_place,
  hash_at_height, block_of_hash,
}

abbrev there : Btc
there = record test_node { gettxout = λ txid n. answer no_output }

stranger_unspent : (ledger_of (bytes "test")).spent_by stranger (pos 1) ≡ none
unfolding is_spent str_eq is_tx_spent_url
stranger_unspent = refl

stranger_Tip : Tip (ledger_of (bytes "test")) stranger (pos 1) 0 stranger
stranger_Tip = unspent refl stranger_unspent refl

made_there : Txid.make there stranger [] ≡ (ok found, [])
unfolding Txid.make
made_there = made

run-encode_txid_elsewhere_example :
    ((decode_txref lib there (bytes "tx1:yyy") []).0 ≡ exits failed)
    × ((did : Str) × (end : Log) × (txref2did (bytes "tx1:yyy") [] ≡ (ok did, []))
        × (DidResolver.run ops curl 1 1 lib (λ c. answer there) config (did, false) []
            ≡ (ok (pos 0), stdout (Message.last_txid stranger) ∷ end)))
unfolding is_unspent to_lower str_eq
run-encode_txid_elsewhere_example =
    run-encode_txid_elsewhere lib node there ops curl 1 1 (ledger_of (bytes "test")) lib-IsLawful
      three_prefixes main_chain test_chain payment (pos 1) transaction (bytes "tx1") (bytes "yyy")
      (bytes "0cd1") test_block stranger found (λ c. answer there) config false no_output 0 stranger
      [] [] refl refl (inl refl) (inr (inl refl)) (λ e. ground arith) (omega arith) encoded refl
      (ground arith) refl refl refl hash_at_height block_of_hash at_place made_there refl
      (network-Serves (bytes "test")) refl (λ e. absurd (ground (arith, e))) stranger_Tip
      (omega arith)
