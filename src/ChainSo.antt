-- ===== src/ChainSo.antt =====
-- `ChainSoQuery` of src/chainSoQuery.h and src/chainSoQuery.cpp, with the `UnspentData` of
-- src/chainQuery.h.
pub mod Urls
pub mod Queries
pub mod Retries
pub mod Ledger
pub mod Tip
pub mod Unspent
pub mod Chain
pub mod Reordered
use btcr_did_method.Base.{
  ℕ, zero, suc, ◌+◌, ◌*◌, Bool, true, false, not, ◌||◌, Option, none, some, Str, bytes, find,
  is_empty, ℤ, pos, leb, leb_ℤ, ltb_ℤ, eqb_ℤ, size_of_int, List, [], ◌∷◌, ◌==◌, if◌then◌else◌,
  Message,
}
use btcr_did_method.Base.Answer.{call}
use btcr_did_method.Base.Run.{
  Run, Exception, runtime, sleep, stderr, pure, throw, abort, out_of_fuel, emit, require, ◌>>=◌,
  ◌>>◌,
}
use btcr_did_method.Curl.{Curl, download}
use btcr_did_method.Json.{JsonOps, path, has_failed}
use btcr_did_method.Rpc.{Double}
use btcr_did_method.Satoshis.{Fpu, btc2satoshi}
use Urls.{get_tx_unspent_url, is_tx_spent_url, get_tx_url}

pub record UnspentData : Type 0 where
  pub address : Str
  pub txid : Str
  pub script_pub_key_hex : Str
  pub amount_satoshis : ℤ
  pub utxo_index : ℤ

-- `s.find(p) != std::string::npos`
unfoldable pub contains : Str → Str → Bool
contains s p = elim (find s p) [ none ↦ false | some i ↦ true ]

module _ (curl : Curl) where
  -- `retrieveJsonData`, on fuel. The retry attempt is an `int` that starts at 1.
  unfoldable pub retrieve_json_data : ℕ → Str → ℕ → Run Str
  retrieve_json_data zero url attempt = out_of_fuel
  retrieve_json_data (suc fuel) url zero = abort
  retrieve_json_data (suc fuel) url (suc attempt) =
      let again = λ (m : Message). do
        emit (stderr m)
        emit (sleep (5 * suc attempt))
        retrieve_json_data fuel url (suc (suc attempt))
      in do
        emit (sleep 1)
        json_data ← download curl url
        elim (is_empty json_data) [
          | true ↦ again (Message.no_data_returned (5 * suc attempt))
          | false ↦ elim (contains json_data (bytes "Too many requests")) [
            | true ↦ again (Message.too_many_requests (5 * suc attempt))
            | false ↦ pure json_data
          ]
        ]

-- `std::set<int>::insert`: the numbers in order, each once.
unfoldable pub set_insert : ℤ → List ℤ → List ℤ
set_insert n [] = n ∷ []
set_insert n (m ∷ set) =
    let later = m ∷ set_insert n set in
    if ltb_ℤ n m then n ∷ m ∷ set else if eqb_ℤ n m then m ∷ set else later

-- `std::min_element` from a first element on.
unfoldable pub min_element : ℤ → List ℤ → ℤ
min_element least [] = least
min_element least (n ∷ set) = min_element (if ltb_ℤ n least then n else least) set

module _ {Json : Type 0} (ops : JsonOps Json) where
  open ops use {parse, at_key, at_index, size, is_null, to_bool, to_text, to_int}

  -- The loop of `determineNextUtxoIndex` over the outputs that are left, from number `i` on.
  unfoldable pub output_nums : Json → ℕ → ℕ → List ℤ → Run (List ℤ)
  output_nums obj zero i set = pure set
  output_nums obj (suc left) i set = do
    outputs ← call (path ops (bytes "data" ∷ bytes "outputs" ∷ []) obj)
    output ← call (at_index outputs i)
    script_json ← call (at_key output (bytes "script"))
    script ← call (to_text script_json)
    elim (contains script (bytes "OP_RETURN")) [
      | true ↦ output_nums obj left (suc i) set
      | false ↦ do
        number_json ← call (at_key output (bytes "output_no"))
        number ← call (to_int number_json)
        output_nums obj left (suc i) (set_insert number set)
    ]

  -- The smallest number; the set is not empty.
  unfoldable pub least_of : List ℤ → Exception → Run ℤ
  least_of [] e = throw e
  least_of (n ∷ set) e = pure (min_element n (n ∷ set))

  module _ (curl : Curl) (patience : ℕ) where
    -- `determineNextUtxoIndex`
    unfoldable pub determine_next_utxo_index : Str → Str → Run ℤ
    determine_next_utxo_index next_txid network = do
      json_data ← retrieve_json_data curl patience (get_tx_url network next_txid) 1
      obj ← call (parse json_data)
      has ← call (has_failed ops obj)
      require (not has) (runtime (Message.nothing_found_for_txid next_txid))
      outputs ← call (path ops (bytes "data" ∷ bytes "outputs" ∷ []) obj)
      nums ← output_nums obj (size outputs) 0 []
      least_of nums (runtime (Message.too_few_outputs next_txid))

    -- `extractLastUpdatedTxid`; `again` is the call of `getLastUpdatedTxid`.
    unfoldable pub extract_last_updated_txid :
        (Str → ℤ → Str → Run Str) → Json → Str → Str → Run Str
    extract_last_updated_txid again obj txid network = do
      has ← call (has_failed ops obj)
      require (not has) (runtime (Message.nothing_found_for_txid txid))
      is_spent_json ← call (path ops (bytes "data" ∷ bytes "is_spent" ∷ []) obj)
      is_spent ← call (to_bool is_spent_json)
      elim is_spent [
        | false ↦ pure txid
        | true ↦ do
          next_json ← call (path ops (bytes "data" ∷ bytes "spent" ∷ bytes "txid" ∷ []) obj)
          next_txid ← call (to_text next_json)
          next_index ← determine_next_utxo_index next_txid network
          again next_txid next_index network
      ]

    -- `getLastUpdatedTxid`, on fuel for the transactions that are followed.
    unfoldable pub get_last_updated_txid : ℕ → Str → ℤ → Str → Run Str
    get_last_updated_txid zero txid utxo_index network = out_of_fuel
    get_last_updated_txid (suc fuel) txid utxo_index network = do
      json_data ← retrieve_json_data curl patience (is_tx_spent_url network txid utxo_index) 1
      obj ← call (parse json_data)
      extract_last_updated_txid (get_last_updated_txid fuel) obj txid network

    module _ (fpu : Fpu) where
      -- `extractUnspentData`
      unfoldable pub extract_unspent_data : Json → Str → ℤ → Run UnspentData
      extract_unspent_data obj address utxo_index = do
        has ← call (has_failed ops obj)
        require (not has) (runtime (Message.nothing_found_for_address address))
        txs ← call (path ops (bytes "data" ∷ bytes "txs" ∷ []) obj)
        require (not (is_null txs || leb (size txs) (size_of_int utxo_index)))
            (runtime (Message.utxo_not_found utxo_index))
        tx ← call (at_index txs (size_of_int utxo_index))
        txid_json ← call (at_key tx (bytes "txid"))
        txid ← call (to_text txid_json)
        script_json ← call (at_key tx (bytes "script_hex"))
        script ← call (to_text script_json)
        value_json ← call (at_key tx (bytes "value"))
        value ← call (to_text value_json)
        number_json ← call (at_key tx (bytes "output_no"))
        number ← call (to_int number_json)
        pure (record {
          address = address;
          txid = txid;
          script_pub_key_hex = script;
          amount_satoshis = btc2satoshi fpu (fpu.atof value);
          utxo_index = number;
        })

      -- `getUnspentOutputs`
      unfoldable pub get_unspent_outputs : Str → ℤ → Str → Run UnspentData
      get_unspent_outputs address utxo_index network = do
        json_data ← retrieve_json_data curl patience (get_tx_unspent_url network address) 1
        obj ← call (parse json_data)
        extract_unspent_data obj address utxo_index
