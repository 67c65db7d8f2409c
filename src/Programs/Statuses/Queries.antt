-- ===== src/Programs/Statuses/Queries.antt =====
-- The queries to chain.so (src/chainSoQuery.cpp) do not exit.
use btcr_did_method.Base.{
  ℕ, zero, suc, ◌*◌, refl, Bool, Str, bytes, ℤ, List, [], ◌∷◌, Message, arith,
}
use btcr_did_method.Base.Answer.{call}
use btcr_did_method.Base.Run.{Exception, Run, pure, ◌>>=◌, stderr, sleep}
use btcr_did_method.Curl.{Curl, download, download_lem}
use btcr_did_method.Json.{JsonOps, path}
use btcr_did_method.ChainSo.{
  contains, retrieve_json_data, output_nums, set_insert, least_of, determine_next_utxo_index,
  extract_last_updated_txid, get_last_updated_txid,
}
use btcr_did_method.Programs.Statuses.{
  ends, any_exception, any_value, Ends, steps, pure-Ends, elim-Ends,
}

module _ (curl : Curl) where
  retrieve_json_data-Ends :
      (fuel : ℕ) (url : Str) (attempt : ℕ)
      → Ends any_exception any_value (retrieve_json_data curl fuel url attempt)
  unfolding retrieve_json_data ends
  retrieve_json_data-Ends zero url attempt = record { ended = λ w. refl }
  retrieve_json_data-Ends (suc fuel) url zero = record { ended = λ w. refl }
  retrieve_json_data-Ends (suc fuel) url (suc attempt) = record {
    ended = λ w.
        let w1 = (download curl url (sleep 1 ∷ w)).1 in
        let n : ℕ = 5 * suc attempt in
        let later = retrieve_json_data-Ends fuel url (suc (suc attempt)) in
        ground (
          arith,
          download_lem curl url (sleep 1 ∷ w),
          later.ended (sleep n ∷ stderr (Message.no_data_returned n) ∷ w1),
          later.ended (sleep n ∷ stderr (Message.too_many_requests n) ∷ w1),
        );
  }

  module _ {Json : Type 0} (ops : JsonOps Json) where
    output_nums-Ends :
        (obj : Json) (left i : ℕ) (set : List ℤ)
        → Ends any_exception any_value (output_nums ops obj left i set)
    unfolding output_nums
    output_nums-Ends obj zero i set = pure-Ends any_exception any_value set refl
    output_nums-Ends obj (suc left) i set =
        let later = λ (s : List ℤ). output_nums-Ends obj left (suc i) s in
        let numbered = λ (output : Json).
          call (ops.at_key output (bytes "output_no")) >>= λ number_json.
          call (ops.to_int number_json) >>= λ number.
          output_nums ops obj left (suc i) (set_insert number set) in
        let numbered-ends : (output : Json) → Ends any_exception any_value (numbered output) =
          λ output. search (steps, later) depth 12 in
        let branch = λ (output : Json) (script : Str).
          elim-Ends any_exception any_value (contains script (bytes "OP_RETURN"))
            (output_nums ops obj left (suc i) set) (numbered output) (later set)
            (numbered-ends output) in
        search (steps, branch) depth 12

    least_of-Ends :
        (nums : List ℤ) (e : Exception) → Ends any_exception any_value (least_of ops nums e)
    unfolding least_of ends
    least_of-Ends [] e = record { ended = λ w. refl }
    least_of-Ends (n ∷ nums) e = record { ended = λ w. refl }

    module _ (patience : ℕ) where
      determine_next_utxo_index-Ends :
          (txid network : Str)
          → Ends any_exception any_value (determine_next_utxo_index ops curl patience txid network)
      unfolding determine_next_utxo_index
      determine_next_utxo_index-Ends txid network =
          search (steps, retrieve_json_data-Ends, output_nums-Ends, least_of-Ends) depth 12

      extract_last_updated_txid-Ends :
          (again : Str → ℤ → Str → Run Str) (obj : Json) (txid network : Str)
          → ((t : Str) (i : ℤ) → Ends any_exception any_value (again t i network))
          → Ends any_exception any_value
              (extract_last_updated_txid ops curl patience again obj txid network)
      unfolding extract_last_updated_txid
      extract_last_updated_txid-Ends again obj txid network h =
          let at_next = path ops (bytes "data" ∷ bytes "spent" ∷ bytes "txid" ∷ []) obj in
          let follow = call at_next >>= λ next_json. call (ops.to_text next_json) >>= λ next_txid.
          determine_next_utxo_index ops curl patience next_txid network >>= λ next_index.
          again next_txid next_index network in
          let follow-ends : Ends any_exception any_value follow =
            search (steps, determine_next_utxo_index-Ends, h) depth 12 in
          let branch = λ (is_spent : Bool).
            elim-Ends any_exception any_value is_spent follow (pure txid) follow-ends
              (pure-Ends any_exception any_value txid refl) in
          search (steps, branch) depth 12

      pub get_last_updated_txid-Ends :
          (fuel : ℕ) (txid : Str) (i : ℤ) (network : Str)
          → Ends any_exception any_value
              (get_last_updated_txid ops curl patience fuel txid i network)
      unfolding get_last_updated_txid ends
      get_last_updated_txid-Ends zero txid i network = record { ended = λ w. refl }
      get_last_updated_txid-Ends (suc fuel) txid i network =
          let later = λ (t : Str) (j : ℤ). get_last_updated_txid-Ends fuel t j network in
          search (steps, retrieve_json_data-Ends, extract_last_updated_txid-Ends, later) depth 12
