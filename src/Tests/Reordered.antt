-- ===== src/Tests/Reordered.antt =====
-- chain.so with the outputs of the transaction in the other order (src/chainSoQuery.cpp).
use mathlib.Core.List.Perm
use btcr_did_method.Base.{
  ◌≡◌, refl, ℕ, zero, suc, ◌∷◌, [], List, bytes, some, pos, get_elem?, str_eq, arith,
}
use btcr_did_method.Base.Answer.{Answer, answer}
use btcr_did_method.Json.{JsonOps, path, has_failed}
use btcr_did_method.ChainSo.{get_last_updated_txid}
use btcr_did_method.ChainSo.Ledger.{Output, Ledger, Serves, Describes}
use btcr_did_method.ChainSo.Reordered.{get_last_updated_txid-Perm}
use btcr_did_method.Tests.Node.{payment}
use btcr_did_method.Tests.Docs.{
  Doc, text_doc, number_doc, tx_reply, outputs_doc, op_return, paid_output, missing, at_key,
  to_text, to_int, size, ops,
}
use btcr_did_method.Tests.Serving.{curl, tx_retrieved, tx_status, at_outputs, ledger, ledger-Serves}

at_index_swapped : Doc → ℕ → Answer Doc
at_index_swapped outputs_doc zero = answer paid_output
at_index_swapped outputs_doc (suc zero) = answer op_return
at_index_swapped _ i = missing

abbrev swapped_ops : JsonOps Doc
swapped_ops = record ops { at_index = at_index_swapped }

abbrev swapped_outputs : List Output
swapped_outputs =
    record { number = pos 1; script = bytes "OP_DUP" }
    ∷ record { number = pos 0; script = bytes "OP_RETURN 00" }
    ∷ []

abbrev swapped_ledger : Ledger
swapped_ledger = record ledger { outputs = λ txid. swapped_outputs }

describes :
    (k : ℕ) (o : Output)
    → get_elem? swapped_outputs k ≡ some o
    → Describes swapped_ledger swapped_ops curl 1 (bytes "main") outputs_doc k o
unfolding at_key at_index_swapped to_text to_int str_eq
describes zero o h = record {
  output_json = paid_output;
  script_json = text_doc (bytes "OP_DUP");
  number_json = number_doc (pos 1);
  at_output = refl;
  at_script = refl;
  script_text = ground arith;
  at_number = refl;
  number_int = ground arith;
}
describes (suc zero) o h = record {
  output_json = op_return;
  script_json = text_doc (bytes "OP_RETURN 00");
  number_json = number_doc (pos 0);
  at_output = refl;
  at_script = refl;
  script_text = ground arith;
  at_number = refl;
  number_int = ground arith;
}
describes (suc (suc k)) o h = absurd (ground arith)

swapped-Serves : Serves swapped_ledger swapped_ops curl 1 (bytes "main")
unfolding size path has_failed
swapped-Serves =
    let s = ledger-Serves in
    record {
      spent_json = s.spent_json;
      spent_retrieved = s.spent_retrieved;
      spent_status = s.spent_status;
      flag_json = s.flag_json;
      at_flag = s.at_flag;
      flag_bool = s.flag_bool;
      next_json = s.next_json;
      at_next = s.at_next;
      next_text = s.next_text;
      tx_json = λ txid. tx_reply;
      tx_retrieved = tx_retrieved (bytes "main");
      tx_status = λ txid. tx_status;
      outputs_json = λ txid. outputs_doc;
      at_outputs = λ txid. at_outputs;
      size_outputs = λ txid. refl;
      describes = λ txid k o e. describes k o e;
    }

get_last_updated_txid-Perm_example :
    (get_last_updated_txid ops curl 1 2 payment (pos 1) (bytes "main") []).0
    ≡ (get_last_updated_txid swapped_ops curl 1 2 payment (pos 1) (bytes "main") []).0
get_last_updated_txid-Perm_example =
    get_last_updated_txid-Perm ledger swapped_ledger (λ txid i. refl) (λ txid. Perm.swap _ _ []) ops
      swapped_ops curl curl 1 1 (bytes "main") ledger-Serves swapped-Serves 2 payment (pos 1) [] []
