-- ===== src/ChainSo/Unspent.antt =====
-- The unspent outputs of an address (`getUnspentOutputs` of src/chainSoQuery.cpp).
use btcr_did_method.Base.{
  ℕ, suc, zero, ◌^◌, ◌-◌, ◌<◌, ◌≤◌, ◌⊎◌, ◌≡◌, refl, ap, sym, ◌∙◌, Bool, true, false, leb, inl, inr,
  Option, none, some, Str, bytes, ℤ, pos, negsuc, ◌≤ℤ◌, size_of_int, List, [], ◌∷◌, get_elem?,
  length, Message, arith,
}
use btcr_did_method.Base.Answer.{answer}
use btcr_did_method.Base.Run.{Log, Outcome, ok, throws, runtime}
use btcr_did_method.Curl.{Curl}
use btcr_did_method.Json.{JsonOps, path, has_failed}
use btcr_did_method.Satoshis.{Fpu, btc2satoshi}
use btcr_did_method.ChainSo.{
  UnspentData, retrieve_json_data, extract_unspent_data, get_unspent_outputs,
}
use btcr_did_method.ChainSo.Urls.{get_tx_unspent_url}

-- An output that the reply lists; its value is a text.
pub record Unspent : Type 0 where
  pub txid : Str
  pub script : Str
  pub value : Str
  pub number : ℤ

-- The element at a signed index; there is none below zero.
unfoldable pub at_int : List Unspent → ℤ → Option Unspent
at_int us (pos n) = get_elem? us n
at_int us (negsuc n) = none

module _ {Json : Type 0} (ops : JsonOps Json) where
  open ops use {parse, at_key, at_index, size, is_null, to_text, to_int}

  -- One listed output in the reply.
  pub record Lists (txs : Json) (k : ℕ) (u : Unspent) : Type 0 where
    pub tx_json : Json
    pub txid_json : Json
    pub script_json : Json
    pub value_json : Json
    pub number_json : Json
    pub at_tx : at_index txs k ≡ answer tx_json
    pub at_txid : at_key tx_json (bytes "txid") ≡ answer txid_json
    pub txid_text : to_text txid_json ≡ answer u.txid
    pub at_script : at_key tx_json (bytes "script_hex") ≡ answer script_json
    pub script_text : to_text script_json ≡ answer u.script
    pub at_value : at_key tx_json (bytes "value") ≡ answer value_json
    pub value_text : to_text value_json ≡ answer u.value
    pub at_number : at_key tx_json (bytes "output_no") ≡ answer number_json
    pub number_int : to_int number_json ≡ answer u.number

  -- A reply that lists these outputs.
  pub record Replies (obj : Json) (us : List Unspent) : Type 0 where
    pub status : has_failed ops obj ≡ answer false
    pub txs_json : Json
    pub at_txs : path ops (bytes "data" ∷ bytes "txs" ∷ []) obj ≡ answer txs_json
    pub present : is_null txs_json ≡ false
    pub size_txs : size txs_json ≡ length us
    pub lists : (k : ℕ) (u : Unspent) → get_elem? us k ≡ some u → Lists txs_json k u

  module _ (curl : Curl) (patience : ℕ) (fpu : Fpu) where
    abbrev pub found : Str → ℤ → Option Unspent → Outcome UnspentData
    found address i none = throws (runtime (Message.utxo_not_found i))
    found address i (some u) = ok (record {
      address = address;
      txid = u.txid;
      script_pub_key_hex = u.script;
      amount_satoshis = btc2satoshi fpu (fpu.atof u.value);
      utxo_index = u.number;
    })

    abbrev is_out : List Unspent → ℤ → Bool
    is_out us i = leb (length us) (size_of_int i)

    get_elem?-cases :
        (us : List Unspent) (n : ℕ)
        → ((u : Unspent) × (get_elem? us n ≡ some u) × (n < length us))
          ⊎ ((get_elem? us n ≡ none) × (length us ≤ n))
    get_elem?-cases [] n = inr (refl, omega arith)
    get_elem?-cases (u ∷ us) zero = inl (u, refl, omega arith)
    get_elem?-cases (u ∷ us) (suc n) = elim (get_elem?-cases us n) [
      | inl (v, e, lt) ↦ inl (v, e, omega (arith, lt))
      | inr (e, le) ↦ inr (e, omega (arith, le))
    ]

    -- The test of the source finds the index in the list just if it is there: a negative index is
    -- turned into a number that is above the length.
    at_int-cases :
        (us : List Unspent) (i : ℤ)
        → length us < 2 ^ 31
        → negsuc (2 ^ 31 - 1) ≤ℤ i
        → i ≤ℤ pos (2 ^ 31 - 1)
        → ((u : Unspent) × (at_int us i ≡ some u)
            × (get_elem? us (size_of_int i) ≡ some u)
            × (is_out us i ≡ false))
          ⊎ ((at_int us i ≡ none) × (is_out us i ≡ true))
    unfolding at_int size_of_int
    at_int-cases us (pos n) short low high = elim (get_elem?-cases us n) [
      | inl (u, e, lt) ↦ inl (u, e, ground arith, ground arith)
      | inr (e, le) ↦ inr (e, ground arith)
    ]
    at_int-cases us (negsuc n) short low high = inr (refl, ground arith)

    extract_unspent_data_in :
        (obj : Json) (us : List Unspent) (u : Unspent) (address : Str) (i : ℤ) (w : Log)
        → Replies obj us
        → get_elem? us (size_of_int i) ≡ some u
        → is_out us i ≡ false
        → (extract_unspent_data ops curl patience fpu obj address i w).0 ≡ found address i (some u)
    unfolding extract_unspent_data
    extract_unspent_data_in obj us u address i w r e inside =
        let l = r.lists (size_of_int i) u e in
        ground (
          arith, r.status, r.at_txs, r.present, r.size_txs, l.at_tx, l.at_txid, l.txid_text,
          l.at_script, l.script_text, l.at_value, l.value_text, l.at_number, l.number_int,
        )

    extract_unspent_data_out :
        (obj : Json) (us : List Unspent) (address : Str) (i : ℤ) (w : Log)
        → Replies obj us
        → is_out us i ≡ true
        → (extract_unspent_data ops curl patience fpu obj address i w).0 ≡ found address i none
    unfolding extract_unspent_data
    extract_unspent_data_out obj us address i w r outside =
        ground (arith, r.status, r.at_txs, r.present, r.size_txs)

    get_unspent_outputs_reply :
        (address network s : Str) (i : ℤ) (obj : Json) (w : Log)
        → (retrieve_json_data curl patience (get_tx_unspent_url network address) 1 w).0 ≡ ok s
        → parse s ≡ answer obj
        → (w' : Log) × ((get_unspent_outputs ops curl patience fpu address i network w).0
            ≡ (extract_unspent_data ops curl patience fpu obj address i w').0)
    unfolding get_unspent_outputs
    get_unspent_outputs_reply address network s i obj w retrieved parsed = (
      (retrieve_json_data curl patience (get_tx_unspent_url network address) 1 w).1,
      ground arith,
    )

    -- The reply that is retrieved for an address and a network parses to a list of fewer than 2 ^ 31
    -- unspent outputs, and the index is an `int`. The index is taken for a position in that list, and
    -- not for the number that an output has in its transaction, which a TODO of the source calls an
    -- incorrect use of it: the data of the output at that position is returned, whatever its number is,
    -- with its own number and its value in satoshis. If the index is below zero or not below the
    -- length of the list, an exception says that there is no such output.
    pub get_unspent_outputs-at_int :
        (address network s : Str) (i : ℤ) (obj : Json) (us : List Unspent) (w : Log)
        → (retrieve_json_data curl patience (get_tx_unspent_url network address) 1 w).0 ≡ ok s
        → parse s ≡ answer obj
        → Replies obj us
        → length us < 2 ^ 31
        → negsuc (2 ^ 31 - 1) ≤ℤ i
        → i ≤ℤ pos (2 ^ 31 - 1)
        → (get_unspent_outputs ops curl patience fpu address i network w).0
          ≡ found address i (at_int us i)
    get_unspent_outputs-at_int address network s i obj us w retrieved parsed r short low high =
        let (w', reply) = get_unspent_outputs_reply address network s i obj w retrieved parsed in
        elim (at_int-cases us i short low high) [
          | inl (u, e, here, inside) ↦
              reply
              ∙ extract_unspent_data_in obj us u address i w' r here inside
              ∙ ap (found address i) (sym e)
          | inr (e, outside) ↦
              reply
              ∙ extract_unspent_data_out obj us address i w' r outside
              ∙ ap (found address i) (sym e)
        ]
