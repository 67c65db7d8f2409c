-- ===== src/ChainSo/Reordered.antt =====
-- chain.so may list the outputs of a transaction in any order (src/chainSoQuery.cpp).
use mathlib.Core.List.{Permᴰ, Perm}
use mathlib.Core.Logic.{∥∥₁_elim}
use btcr_did_method.Base.{
  ℕ, zero, suc, ◌≡◌, refl, ◌∙◌, sym, Option, Str, ℤ, arith, Option-cases, inl, inr, List,
}
use btcr_did_method.Base.Run.{Log}
use btcr_did_method.Curl.{Curl}
use btcr_did_method.Json.{JsonOps}
use btcr_did_method.ChainSo.{get_last_updated_txid}
use btcr_did_method.ChainSo.Ledger.{Output, Ledger, spendable, lesser?, minimum, Serves}
use btcr_did_method.ChainSo.Tip.{follow, get_last_updated_txid-follow}

Option_ℤ-IsSet : IsSet (Option ℤ)
Option_ℤ-IsSet = hlevel

lesser?_swap :
    (a b : ℤ) (least : Option ℤ) → lesser? a (lesser? b least) ≡ lesser? b (lesser? a least)
lesser?_swap a b least = ground arith

minimum-Permᴰ :
    {os os' : List Output} → Permᴰ os os' → minimum (spendable os) ≡ minimum (spendable os')
unfolding minimum spendable
minimum-Permᴰ Permᴰ.nil = refl
minimum-Permᴰ (Permᴰ.cons e d) = ground (arith, minimum-Permᴰ d)
minimum-Permᴰ (Permᴰ.swap {a} {b} {l = os} e e') =
    ground (arith, lesser?_swap a.number b.number (minimum (spendable os)))
minimum-Permᴰ (Permᴰ.trans d d') = minimum-Permᴰ d ∙ minimum-Permᴰ d'

minimum-Perm :
    {os os' : List Output} → Perm os os' → minimum (spendable os) ≡ minimum (spendable os')
minimum-Perm p = ∥∥₁_elim p (Option_ℤ-IsSet _ _) minimum-Permᴰ

module _ (ledger ledger' : Ledger)
    (spent : (txid : Str) (i : ℤ) → ledger.spent_by txid i ≡ ledger'.spent_by txid i)
    (reordered : (txid : Str) → Perm (ledger.outputs txid) (ledger'.outputs txid)) where
  follow-Perm :
      (fuel : ℕ) (txid : Str) (i : ℤ) → follow ledger fuel txid i ≡ follow ledger' fuel txid i
  unfolding follow
  follow-Perm zero txid i = refl
  follow-Perm (suc fuel) txid i = elim (Option-cases (ledger.spent_by txid i)) [
    | inl e ↦ ground (arith, spent txid i)
    | inr (next, e) ↦ elim (Option-cases (minimum (spendable (ledger.outputs next)))) [
      | inl none_left ↦ ground (arith, spent txid i, minimum-Perm (reordered next))
      | inr (j, first) ↦
          ground (arith, spent txid i, minimum-Perm (reordered next), follow-Perm fuel next j)
    ]
  ]

  module _ {Json Json' : Type 0} (ops : JsonOps Json) (ops' : JsonOps Json') (curl curl' : Curl)
      (patience patience' : ℕ) (network : Str) where
    -- The result does not depend on the order in which the outputs of a transaction are listed: two
    -- services, of any representation of their replies, that serve ledgers with the same spending
    -- transactions, whose outputs are the same up to their order, lead to the same outcome, be it a
    -- transaction, an exception for a transaction without an output to go on, or an end of the fuel.
    pub get_last_updated_txid-Perm :
        Serves ledger ops curl patience network
        → Serves ledger' ops' curl' patience' network
        → (fuel : ℕ) (txid : Str) (i : ℤ) (w w' : Log)
        → (get_last_updated_txid ops curl patience fuel txid i network w).0
          ≡ (get_last_updated_txid ops' curl' patience' fuel txid i network w').0
    get_last_updated_txid-Perm s s' fuel txid i w w' =
        get_last_updated_txid-follow ops curl patience ledger network s fuel txid i w
        ∙ follow-Perm fuel txid i
        ∙ sym (get_last_updated_txid-follow ops' curl' patience' ledger' network s' fuel txid i w')
