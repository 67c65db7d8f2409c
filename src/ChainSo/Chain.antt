-- ===== src/ChainSo/Chain.antt =====
-- The chains of updates that `getLastUpdatedTxid` (src/chainSoQuery.cpp) follows, end to end.
use btcr_did_method.Base.{
  ℕ, zero, suc, ◌<◌, ◌≡◌, ◌↔◌, refl, ◌∙◌, sym, inl, inr, some, Option-cases, Str, ℤ, arith,
}
use btcr_did_method.Base.Run.{Log, ok}
use btcr_did_method.Curl.{Curl}
use btcr_did_method.Json.{JsonOps}
use btcr_did_method.ChainSo.{get_last_updated_txid}
use btcr_did_method.ChainSo.Ledger.{Ledger, spendable, minimum, Tip, unspent, spent, Serves}
use btcr_did_method.ChainSo.Tip.{follow, get_last_updated_txid-follow}

follow-Tip :
    (ledger : Ledger) {txid tip : Str} {i : ℤ} {hops : ℕ} (fuel : ℕ)
    → Tip ledger txid i hops tip
    → hops < fuel
    → follow ledger fuel txid i ≡ ok tip
unfolding follow
follow-Tip ledger zero chain lt = absurd (omega arith)
follow-Tip ledger (suc fuel) (unspent _ e same) lt = ground arith
follow-Tip ledger (suc fuel) (spent e first rest) lt =
    ground (arith, follow-Tip ledger fuel rest (omega arith))

Tip-follow :
    (ledger : Ledger) (fuel : ℕ) (txid tip : Str) (i : ℤ)
    → follow ledger fuel txid i ≡ ok tip
    → (hops : ℕ) × (hops < fuel) × Tip ledger txid i hops tip
unfolding follow
Tip-follow ledger zero txid tip i h = absurd (ground arith)
Tip-follow ledger (suc fuel) txid tip i h = elim (Option-cases (ledger.spent_by txid i)) [
  | inl e ↦ (0, omega arith, unspent refl e (ground arith))
  | inr (next, e) ↦ elim (Option-cases (minimum (spendable (ledger.outputs next)))) [
    | inl none_left ↦ absurd (ground arith)
    | inr (j, first) ↦
        let (hops, lt, rest) = Tip-follow ledger fuel next tip j (ground arith) in
        (suc hops, omega arith, spent e first rest)
  ]
]

module _ {Json : Type 0} (ops : JsonOps Json) (curl : Curl) (patience : ℕ) (ledger : Ledger)
    (network : Str) (s : Serves ledger ops curl patience network) where
  -- If chain.so serves the ledger, and the chain from an output reaches its tip in fewer hops than
  -- there is fuel, the call returns the tip.
  pub get_last_updated_txid-reaches :
      (fuel hops : ℕ) (txid tip : Str) (i : ℤ) (w : Log)
      → Tip ledger txid i hops tip
      → hops < fuel
      → (get_last_updated_txid ops curl patience fuel txid i network w).0 ≡ ok tip
  get_last_updated_txid-reaches fuel hops txid tip i w chain lt =
      get_last_updated_txid-follow ops curl patience ledger network s fuel txid i w
      ∙ follow-Tip ledger fuel chain lt

  -- If chain.so serves the ledger, a transaction that is returned is the tip of the chain.
  pub get_last_updated_txid-Tip :
      (fuel : ℕ) (txid tip : Str) (i : ℤ) (w : Log)
      → (get_last_updated_txid ops curl patience fuel txid i network w).0 ≡ ok tip
      → (hops : ℕ) × (hops < fuel) × Tip ledger txid i hops tip
  get_last_updated_txid-Tip fuel txid tip i w h =
      Tip-follow ledger fuel txid tip i
        (sym (get_last_updated_txid-follow ops curl patience ledger network s fuel txid i w) ∙ h)

  -- If chain.so serves the ledger, the call returns a transaction exactly if the chain from the output
  -- reaches its tip there in fewer hops than there is fuel.
  pub get_last_updated_txid-Tip_iff :
      (fuel : ℕ) (txid tip : Str) (i : ℤ) (w : Log)
      → ((get_last_updated_txid ops curl patience fuel txid i network w).0 ≡ ok tip)
        ↔ ((hops : ℕ) × (hops < fuel) × Tip ledger txid i hops tip)
  get_last_updated_txid-Tip_iff fuel txid tip i w = (
    get_last_updated_txid-Tip fuel txid tip i w,
    λ (hops, lt, chain). get_last_updated_txid-reaches fuel hops txid tip i w chain lt,
  )

  -- An update of a chain has the same tip as what it updates: asked at any later member, the call
  -- returns what it returns for an earlier one.
  pub get_last_updated_txid_shared :
      (fuel fuel' hops : ℕ) (txid next tip : Str) (i j : ℤ) (w w' : Log)
      → ledger.spent_by txid i ≡ some next
      → minimum (spendable (ledger.outputs next)) ≡ some j
      → Tip ledger next j hops tip
      → suc hops < fuel
      → hops < fuel'
      → (get_last_updated_txid ops curl patience fuel txid i network w).0
        ≡ (get_last_updated_txid ops curl patience fuel' next j network w').0
  get_last_updated_txid_shared fuel fuel' hops txid next tip i j w w' e first chain lt lt' =
      get_last_updated_txid-reaches fuel (suc hops) txid tip i w (spent e first chain) lt
      ∙ sym (get_last_updated_txid-reaches fuel' hops next tip j w' chain lt')
