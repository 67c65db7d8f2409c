-- ===== src/Tests/Chain.antt =====
-- The theorems about chains of updates (src/chainSoQuery.cpp), with one output spent.
use btcr_did_method.Base.{
  ◌≡◌, ◌↔◌, refl, ℕ, ◌<◌, false, none, some, bytes, str_eq, find, starts_with, pos, [], arith, ◌∷◌,
  to_lower, find_first_not_of, is_one_of, int_of_size, size_of_int,
}
use btcr_did_method.Base.Answer.{answer}
use btcr_did_method.Base.Run.{ok}
use btcr_did_method.ChainSo.Tip.{determine_next_utxo_index-minimum}
use btcr_did_method.ChainSo.{contains, determine_next_utxo_index, get_last_updated_txid}
use btcr_did_method.ChainSo.Urls.{is_tx_spent_url}
use btcr_did_method.ChainSo.Ledger.{spendable, minimum, Tip, unspent, spent}
use btcr_did_method.ChainSo.Chain.{get_last_updated_txid-Tip_iff}
use btcr_did_method.ChainSo.Queries.{is_tx_spent_url-injective}
use btcr_did_method.Rpc.{Btc, UtxoInfo}
use btcr_did_method.Base.{Message}
use btcr_did_method.Base.Run.{Log, stdout}
use btcr_did_method.Domain.Did
use btcr_did_method.Domain.Did.{Did, validate_did_string}
use btcr_did_method.Domain.Txid
use btcr_did_method.Domain.Txid.{
  is_input_string_valid, exists_in_network, extract_transaction_details, find_transaction,
}
use btcr_did_method.Domain.Txref
use btcr_did_method.Domain.BlockHeight
use btcr_did_method.Domain.TransactionIndex
use btcr_did_method.Domain.Vout
use btcr_did_method.Programs.DidResolver
use btcr_did_method.Programs.DidResolver.Whole.{run-Tip}
use btcr_did_method.Tests.Txids.{short_txref}
use btcr_did_method.Tests.CommandLine.{config}
use btcr_did_method.Programs.DidResolver.{is_unspent, find_tip}
use btcr_did_method.Tests.Node.{node, lib, payment}
use btcr_did_method.Tests.Docs.{ops}
use btcr_did_method.Tests.Serving.{curl, ledger, tx_outputs, is_spent, ledger-Serves}

payment_spent : ledger.spent_by payment (pos 1) ≡ some (bytes "b")
unfolding is_spent str_eq is_tx_spent_url
payment_spent = refl

b_unspent : ledger.spent_by (bytes "b") (pos 1) ≡ none
unfolding is_spent str_eq is_tx_spent_url
b_unspent = refl

first_output : minimum (spendable tx_outputs) ≡ some (pos 1)
unfolding minimum spendable contains find starts_with
first_output = refl

b_Tip : Tip ledger (bytes "b") (pos 1) 0 (bytes "b")
b_Tip = unspent refl b_unspent refl

pub payment_Tip : Tip ledger payment (pos 1) 1 (bytes "b")
payment_Tip = spent payment_spent first_output b_Tip

get_last_updated_txid-Tip_iff_example :
    ((get_last_updated_txid ops curl 1 2 payment (pos 1) (bytes "main") []).0 ≡ ok (bytes "b"))
    ↔ ((hops : ℕ) × (hops < 2) × Tip ledger payment (pos 1) hops (bytes "b"))
get_last_updated_txid-Tip_iff_example =
    get_last_updated_txid-Tip_iff ops curl 1 ledger (bytes "main") ledger-Serves 2 payment
      (bytes "b") (pos 1) []

determine_next_utxo_index-minimum_example :
    (determine_next_utxo_index ops curl 1 (bytes "b") (bytes "main") []).0 ≡ ok (pos 1)
unfolding minimum spendable contains find starts_with
determine_next_utxo_index-minimum_example =
    determine_next_utxo_index-minimum ops curl 1 ledger (bytes "main") ledger-Serves (bytes "b") []

-- A node that reports the output of the payment as spent.
abbrev pub no_output : UtxoInfo
no_output = record {
  bestblock = bytes "";
  confirmations = pos 0;
  value = 0;
  addresses = [];
  script_pub_key_hex = bytes "";
}

abbrev pub spent_node : Btc
spent_node = record node { gettxout = λ txid n. answer no_output }

abbrev pub did : Did
did = record { txref = short_txref }

pub constructed : Did.make lib spent_node (bytes "did:btcr:yyy") [] ≡ (ok did, [])
unfolding Did.make validate_did_string find starts_with Txref.parse Txid.make Vout.make
    is_input_string_valid exists_in_network extract_transaction_details find_transaction str_eq
    to_lower find_first_not_of is_one_of BlockHeight.make TransactionIndex.make int_of_size
    size_of_int
constructed = refl

run-Tip_example :
    (w' : Log) × (DidResolver.run ops curl 1 2 lib
        (λ c. answer spent_node)
        config
        (bytes "did:btcr:yyy", false)
        []
      ≡ (ok (pos 0), stdout (Message.last_txid (bytes "b")) ∷ w'))
unfolding is_unspent
run-Tip_example =
    run-Tip ops curl 1 2 ledger lib (λ c. answer spent_node) config spent_node
      (bytes "did:btcr:yyy") false did no_output 1 (bytes "b") [] refl constructed ledger-Serves
      refl (λ e. absurd (ground (arith, e))) payment_Tip (omega arith)

is_tx_spent_url-injective_example :
    (str_eq (bytes "main") (bytes "main") ≡ str_eq (bytes "main") (bytes "main"))
    × (payment ≡ payment)
    × (pos 7 ≡ pos 7)
is_tx_spent_url-injective_example =
    is_tx_spent_url-injective (bytes "main") (bytes "main") payment payment (pos 7) (pos 7)
      (ground arith) (ground arith) (omega arith, omega arith) (omega arith, omega arith) refl
