-- ===== src/ChainSo/Tip.antt =====
-- `getLastUpdatedTxid` (src/chainSoQuery.cpp) follows the chain of updates to its tip.
use mathlib.Core.Path.{subst}
use native.Mathlib.Nat.{add-zero, zero-add}
use btcr_did_method.Base.{
  ℕ, zero, suc, ◌+◌, ◌≡◌, refl, inl, inr, Option, none, some, Option-cases, Str, bytes, ℤ, List, [],
  ◌∷◌, get_elem?, length, if◌then◌else◌, Message, arith,
}
use btcr_did_method.Base.Answer.{answer}
use btcr_did_method.Base.Run.{Log, Exception, Outcome, ok, throws, unfinished, runtime}
use btcr_did_method.Curl.{Curl}
use btcr_did_method.Json.{JsonOps, path}
use btcr_did_method.ChainSo.{
  contains, retrieve_json_data, set_insert, min_element, output_nums, least_of,
  determine_next_utxo_index, extract_last_updated_txid, get_last_updated_txid,
}
use btcr_did_method.ChainSo.Urls.{is_tx_spent_url, get_tx_url}
use btcr_did_method.ChainSo.Ledger.{
  Output, Ledger, spendable, lesser, lesser?, minimum, Serves, Describes,
}

minimum-set_insert : (n : ℤ) (set : List ℤ) → minimum (set_insert n set) ≡ lesser? n (minimum set)
unfolding minimum set_insert
minimum-set_insert n [] = refl
minimum-set_insert n (m ∷ set) = ground (arith, minimum-set_insert n set)

min_element_lem : (n : ℤ) (set : List ℤ) → some (min_element n set) ≡ lesser? n (minimum set)
unfolding minimum min_element
min_element_lem n [] = refl
min_element_lem n (m ∷ set) = ground (arith, min_element_lem (lesser n m) set)

minimum_cons : (n : ℤ) (set : List ℤ) → lesser? n (minimum (n ∷ set)) ≡ minimum (n ∷ set)
unfolding minimum
minimum_cons n set = ground arith

minimum_nil : minimum [] ≡ none
unfolding minimum
minimum_nil = refl

-- The set that the loop collects from the outputs that are left.
collect : List ℤ → List Output → List ℤ
collect set [] = set
collect set (o ∷ os) =
    let without = collect set os in
    let with_it = collect (set_insert o.number set) os in
    if contains o.script (bytes "OP_RETURN") then without else with_it

abbrev least_of_both : Option ℤ → Option ℤ → Option ℤ
least_of_both none b = b
least_of_both (some a) b = lesser? a b

least_of_both-lesser? :
    (n : ℤ) (a b : Option ℤ) → least_of_both (lesser? n a) b ≡ least_of_both a (lesser? n b)
least_of_both-lesser? n a b = ground arith

minimum-collect :
    (set : List ℤ) (os : List Output)
    → minimum (collect set os) ≡ least_of_both (minimum set) (minimum (spendable os))
unfolding collect spendable minimum
minimum-collect set [] = ground arith
minimum-collect set (o ∷ os) = ground (
  arith,
  minimum-collect set os,
  minimum-collect (set_insert o.number set) os,
  minimum-set_insert o.number set,
  least_of_both-lesser? o.number (minimum set) (minimum (spendable os)),
)

module _ {Json : Type 0} (ops : JsonOps Json) (curl : Curl) (patience : ℕ) where
  -- The loop collects the numbers of the outputs that are described to it, and prints nothing.
  output_nums-collect :
      (ledger : Ledger) (network : Str) (obj list : Json)
      → path ops (bytes "data" ∷ bytes "outputs" ∷ []) obj ≡ answer list
      → (os : List Output) (i : ℕ) (set : List ℤ) (w : Log)
      → ((k : ℕ) (o : Output)
          → get_elem? os k ≡ some o
          → Describes ledger ops curl patience network list (i + k) o)
      → output_nums ops obj (length os) i set w ≡ (ok (collect set os), w)
  unfolding output_nums collect
  output_nums-collect ledger network obj list at [] i set w d = refl
  output_nums-collect ledger network obj list at (o ∷ os) i set w d =
      let r = d 0 o refl in
      let here : ops.at_index list i ≡ answer r.output_json = rw add-zero at r.at_output in
      let later = λ (set' : List ℤ).
        output_nums-collect ledger network obj list at os (suc i) set' w (λ k o' e.
          subst (λ n. Describes ledger ops curl patience network list n o') (omega arith)
            (d (suc k) o' e)) in
      ground (
        arith,
        here,
        r.at_script,
        r.script_text,
        r.at_number,
        r.number_int,
        later set,
        later (set_insert o.number set),
      )

-- The walk along a ledger, with the same bound on the steps.
unfoldable pub follow : Ledger → ℕ → Str → ℤ → Outcome Str
follow ledger zero txid i = unfinished
follow ledger (suc fuel) txid i = elim (ledger.spent_by txid i) [
  | none ↦ ok txid
  | some next ↦ elim (minimum (spendable (ledger.outputs next))) [
    | none ↦ throws (runtime (Message.too_few_outputs next))
    | some j ↦ follow ledger fuel next j
  ]
]

module _ {Json : Type 0} (ops : JsonOps Json) (curl : Curl) (patience : ℕ) (ledger : Ledger)
    (network : Str) (s : Serves ledger ops curl patience network) where
  least_of-minimum :
      (nums : List ℤ) (e : Exception) (w : Log)
      → (least_of ops nums e w).0 ≡ elim (minimum nums) [ none ↦ throws e | some j ↦ ok j ]
  unfolding least_of minimum
  least_of-minimum [] e w = refl
  least_of-minimum (n ∷ nums) e w =
      ground (arith, min_element_lem n (n ∷ nums), minimum_cons n nums)

  -- If chain.so serves the ledger, the next index is the least number of an output that is not an
  -- OP_RETURN output; if there is none, an exception says so.
  pub determine_next_utxo_index-minimum :
      (next : Str) (w : Log)
      → (determine_next_utxo_index ops curl patience next network w).0
        ≡ elim (minimum (spendable (ledger.outputs next))) [
          | none ↦ throws (runtime (Message.too_few_outputs next))
          | some j ↦ ok j
        ]
  unfolding determine_next_utxo_index
  determine_next_utxo_index-minimum next w =
      let (text, retrieved, parsed) = s.tx_retrieved next w in
      let outs : List Output = ledger.outputs next in
      let w1 : Log = (retrieve_json_data curl patience (get_tx_url network next) 1 w).1 in
      ground (
        arith,
        retrieved,
        parsed,
        s.tx_status next,
        s.at_outputs next,
        s.size_outputs next,
        output_nums-collect ops curl patience ledger network (s.tx_json next) (s.outputs_json next)
            (s.at_outputs next) outs 0 [] w1 (λ k o e. rw zero-add (s.describes next k o e)),
        least_of-minimum (collect [] outs) (runtime (Message.too_few_outputs next)) w1,
        minimum-collect [] outs,
        minimum_nil,
      )

  pub get_last_updated_txid-follow :
      (fuel : ℕ) (txid : Str) (i : ℤ) (w : Log)
      → (get_last_updated_txid ops curl patience fuel txid i network w).0
        ≡ follow ledger fuel txid i
  unfolding get_last_updated_txid extract_last_updated_txid follow
  get_last_updated_txid-follow zero txid i w = refl
  get_last_updated_txid-follow (suc fuel) txid i w =
      let (text, retrieved, parsed) = s.spent_retrieved txid i w in
      let w1 : Log = (retrieve_json_data curl patience (is_tx_spent_url network txid i) 1 w).1 in
      elim (Option-cases (ledger.spent_by txid i)) [
        | inl e ↦
            ground (
              arith,
              retrieved,
              parsed,
              s.spent_status txid i,
              s.at_flag txid i,
              s.flag_bool txid i,
            )
        | inr (next, e) ↦
            let w2 : Log = (determine_next_utxo_index ops curl patience next network w1).1 in
            elim (Option-cases (minimum (spendable (ledger.outputs next)))) [
              | inl none_left ↦ ground (
                arith,
                retrieved,
                parsed,
                s.spent_status txid i,
                s.at_flag txid i,
                s.flag_bool txid i,
                s.at_next txid i next e,
                s.next_text txid i next e,
                determine_next_utxo_index-minimum next w1,
              )
              | inr (j, first) ↦ ground (
                arith,
                retrieved,
                parsed,
                s.spent_status txid i,
                s.at_flag txid i,
                s.flag_bool txid i,
                s.at_next txid i next e,
                s.next_text txid i next e,
                determine_next_utxo_index-minimum next w1,
                get_last_updated_txid-follow fuel next j w2,
              )
            ]
      ]
