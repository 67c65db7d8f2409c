-- ===== src/Tests/Composition.antt =====
-- The theorem about txid2txref and didResolver, one after the other, at the payment of the node.
use btcr_did_method.Base.{
  ◌≡◌, refl, false, Str, bytes, str_eq, pos, [], ◌∷◌, to_lower, Message, arith,
}
use btcr_did_method.Base.Answer.{answer}
use btcr_did_method.Base.Run.{Log, ok, stdout}
use btcr_did_method.T2t.{encode_txid}
use btcr_did_method.Domain.Txid
use btcr_did_method.Rpc.{RawTransaction, IsActive}
use btcr_did_method.Programs.Txid2txref.{txref2did}
use btcr_did_method.Programs.DidResolver
use btcr_did_method.Programs.DidResolver.{is_unspent}
use btcr_did_method.Programs.Composition.{run-encode_txid}
use btcr_did_method.Tests.Node.{lib, lib-IsLawful, payment, payment-IsActive}
use btcr_did_method.Tests.Txids.{transaction, txid, encoded, constructed}
use btcr_did_method.Tests.Docs.{ops}
use btcr_did_method.Tests.Serving.{curl, ledger, ledger-Serves}
use btcr_did_method.Tests.Chain.{spent_node, no_output, payment_Tip}
use btcr_did_method.Tests.CommandLine.{config}

payment-IsActive_spent :
    (raw : RawTransaction)
    → spent_node.getrawtransaction payment (pos 1) ≡ answer raw
    → IsActive spent_node raw.blockhash
payment-IsActive_spent raw h =
    let r = payment-IsActive raw h in
    record { getblockhash-height = r.getblockhash-height; length-tx-lt = r.length-tx-lt }

run-encode_txid_example :
    (did : Str) × (end : Log) × (txref2did (bytes "tx1:yyy") [] ≡ (ok did, []))
    × (DidResolver.run ops curl 1 2 lib (λ c. answer spent_node) config (did, false) []
        ≡ (ok (pos 0), stdout (Message.last_txid (bytes "b")) ∷ end))
unfolding is_unspent to_lower encode_txid Txid.make str_eq
run-encode_txid_example =
    run-encode_txid lib spent_node ops curl 1 2 ledger lib-IsLawful payment (pos 1) transaction
      (bytes "tx1") (bytes "yyy") txid (λ c. answer spent_node) config false no_output 1 (bytes "b")
      [] [] [] payment-IsActive_spent (omega arith) encoded constructed refl (ground arith) refl
      refl refl refl ledger-Serves refl (λ e. absurd (ground (arith, e))) payment_Tip (omega arith)
