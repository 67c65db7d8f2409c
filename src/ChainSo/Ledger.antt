-- ===== src/ChainSo/Ledger.antt =====
-- The chain that `ChainSoQuery` (src/chainSoQuery.cpp) asks about, and what its replies say of it.
use btcr_did_method.Base.{
  ℕ, suc, ◌≡◌, Bool, true, false, Option, none, some, Str, bytes, ℤ, ltb_ℤ, List, [], ◌∷◌,
  get_elem?, length, if◌then◌else◌,
}
use btcr_did_method.Base.Answer.{answer}
use btcr_did_method.Base.Run.{Log, ok}
use btcr_did_method.Curl.{Curl}
use btcr_did_method.Json.{JsonOps, path, has_failed}
use btcr_did_method.ChainSo.{contains, retrieve_json_data}
use btcr_did_method.ChainSo.Urls.{is_tx_spent_url, get_tx_url}

pub record Output : Type 0 where
  pub number : ℤ
  pub script : Str

-- Which transaction spends an output, and the outputs of a transaction.
pub record Ledger : Type 0 where
  pub spent_by : Str → ℤ → Option Str
  pub outputs : Str → List Output

-- The numbers of the outputs that are not OP_RETURN outputs.
unfoldable pub spendable : List Output → List ℤ
spendable [] = []
spendable (o ∷ os) =
    let rest = spendable os in
    if contains o.script (bytes "OP_RETURN") then rest else o.number ∷ rest

abbrev pub lesser : ℤ → ℤ → ℤ
lesser a b = if ltb_ℤ b a then b else a

abbrev pub lesser? : ℤ → Option ℤ → Option ℤ
lesser? a none = some a
lesser? a (some b) = some (lesser a b)

-- The least of the numbers.
unfoldable pub minimum : List ℤ → Option ℤ
minimum [] = none
minimum (n ∷ ns) = lesser? n (minimum ns)

module _ (ledger : Ledger) where
  open ledger use {spent_by, outputs}

  -- The transaction at the end of the chain of updates: from an output that is spent one goes on to
  -- the first output that is not an OP_RETURN output of the transaction that spends it.
  pub data Tip : Str → ℤ → ℕ → Str → Type 0 where
    unspent :
        {txid tip : Str} {i : ℤ} {hops : ℕ}
        → hops ≡ 0
        → spent_by txid i ≡ none
        → txid ≡ tip
        → Tip txid i hops tip
    spent :
        {txid next tip : Str} {i j : ℤ} {hops : ℕ}
        → spent_by txid i ≡ some next
        → minimum (spendable (outputs next)) ≡ some j
        → Tip next j hops tip
        → Tip txid i (suc hops) tip

  module _ {Json : Type 0} (ops : JsonOps Json) (curl : Curl) (patience : ℕ) (network : Str) where
    open ops use {parse, at_key, at_index, size, to_bool, to_text, to_int}

    abbrev pub is_spent? : Option Str → Bool
    is_spent? none = false
    is_spent? (some next) = true

    -- A reply to `get_tx` at the index of an output.
    pub record Describes (list : Json) (k : ℕ) (o : Output) : Type 0 where
      pub output_json : Json
      pub script_json : Json
      pub number_json : Json
      pub at_output : at_index list k ≡ answer output_json
      pub at_script : at_key output_json (bytes "script") ≡ answer script_json
      pub script_text : to_text script_json ≡ answer o.script
      pub at_number : at_key output_json (bytes "output_no") ≡ answer number_json
      pub number_int : to_int number_json ≡ answer o.number

    -- chain.so answers within the patience, whatever was asked before, and its replies are those of
    -- its documented interface, for this ledger.
    pub record Serves : Type 0 where
      pub spent_json : Str → ℤ → Json
      pub spent_retrieved :
          (txid : Str) (i : ℤ) (w : Log)
          → (s : Str) × ((retrieve_json_data curl patience (is_tx_spent_url network txid i) 1 w).0
              ≡ ok s)
            × (parse s ≡ answer (spent_json txid i))
      pub spent_status : (txid : Str) (i : ℤ) → has_failed ops (spent_json txid i) ≡ answer false
      pub flag_json : Str → ℤ → Json
      pub at_flag :
          (txid : Str) (i : ℤ)
          → path ops (bytes "data" ∷ bytes "is_spent" ∷ []) (spent_json txid i)
            ≡ answer (flag_json txid i)
      pub flag_bool :
          (txid : Str) (i : ℤ) → to_bool (flag_json txid i) ≡ answer (is_spent? (spent_by txid i))
      pub next_json : Str → ℤ → Json
      pub at_next :
          (txid : Str) (i : ℤ) (next : Str)
          → spent_by txid i ≡ some next
          → path ops (bytes "data" ∷ bytes "spent" ∷ bytes "txid" ∷ []) (spent_json txid i)
            ≡ answer (next_json txid i)
      pub next_text :
          (txid : Str) (i : ℤ) (next : Str)
          → spent_by txid i ≡ some next
          → to_text (next_json txid i) ≡ answer next
      pub tx_json : Str → Json
      pub tx_retrieved :
          (txid : Str) (w : Log)
          → (s : Str) × ((retrieve_json_data curl patience (get_tx_url network txid) 1 w).0 ≡ ok s)
            × (parse s ≡ answer (tx_json txid))
      pub tx_status : (txid : Str) → has_failed ops (tx_json txid) ≡ answer false
      pub outputs_json : Str → Json
      pub at_outputs :
          (txid : Str)
          → path ops (bytes "data" ∷ bytes "outputs" ∷ []) (tx_json txid)
            ≡ answer (outputs_json txid)
      pub size_outputs : (txid : Str) → size (outputs_json txid) ≡ length (outputs txid)
      pub describes :
          (txid : Str) (k : ℕ) (o : Output)
          → get_elem? (outputs txid) k ≡ some o
          → Describes (outputs_json txid) k o
