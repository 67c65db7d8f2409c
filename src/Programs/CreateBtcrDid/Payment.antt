-- ===== src/Programs/CreateBtcrDid/Payment.antt =====
-- What createBtcrDid (src/createBtcrDid.cpp) pays, under IEEE 754.
use mathlib.Core.Path.{subst, ap₂}
use btcr_did_method.Base.{
  ◌^◌, ◌≤◌, ◌≡◌, ◌≢◌, refl, ap, sym, ◌∙◌, Bool, false, inl, inr, Option, none, some, Str, bytes,
  str_eq, str_eq_refl, str_eq→eq, List, [], ◌∷◌, ℤ, ◌-ℤ◌, if◌then◌else◌, arith,
}
use btcr_did_method.Base.Answer.{answer}
use btcr_did_method.Base.Run.{Log, ok}
use btcr_did_method.Libtxref.{Libtxref}
use btcr_did_method.Rpc.{Btc, UtxoInfo}
use btcr_did_method.Satoshis.{Fpu, btc2satoshi, satoshi2btc, btc_to_string}
use btcr_did_method.Satoshis.Ieee.{IsIeee, nat_abs}
use btcr_did_method.Satoshis.RoundTrip.{IsAmount, btc2satoshi-IsAmount}
use btcr_did_method.Satoshis.Text.{amount_text, btc_to_string-satoshi2btc}
use btcr_did_method.T2t.{Transaction}
use btcr_did_method.CommandLine.{CreateInput}
use btcr_did_method.Programs.CreateBtcrDid.DryRun.{only_address-cases}
use btcr_did_method.Programs.CreateBtcrDid.{
  Unspent, str_less, map_insert, amounts, find_unspent, change_of,
}

-- The value of a key.
unfoldable pub lookup : Str → List (Str × Str) → Option Str
lookup k [] = none
lookup k ((j, v) ∷ m) = if str_eq j k then some v else lookup k m

str_less_total : (s t : Str) → str_less s t ≡ false → str_less t s ≡ false → s ≡ t
unfolding str_less
str_less_total [] [] h k = refl
str_less_total [] (d ∷ t) h k = absurd (ground arith)
str_less_total (c ∷ s) [] h k = absurd (ground arith)
str_less_total (c ∷ s) (d ∷ t) h k = ground (arith, str_less_total s t)

-- Both outputs are there, whatever their order is.
lookup-amounts :
    (address change encoded : Str)
    → address ≢ bytes "data"
    → (lookup address (amounts address change encoded) ≡ some change)
      × (lookup (bytes "data") (amounts address change encoded) ≡ some encoded)
unfolding lookup amounts map_insert
lookup-amounts address change encoded h = ground (
  arith,
  str_less_total address (bytes "data"),
  str_eq→eq address (bytes "data"),
  str_eq→eq (bytes "data") address,
  str_eq_refl address,
  str_eq_refl (bytes "data"),
)

module _ (lib : Libtxref) (btc : Btc) (fpu : Fpu) (signed : Bool) where
  find_unspent-amount :
      (t : Transaction) (info : UtxoInfo) (u : Unspent) (w : Log)
      → btc.gettxout t.txid t.txo_index ≡ answer info
      → (find_unspent lib btc fpu signed t w).0 ≡ ok u
      → u.amount_satoshis ≡ btc2satoshi fpu info.value
  unfolding find_unspent
  find_unspent-amount t info u w asked h =
      elim (only_address-cases lib btc fpu signed info.addresses) [
        | inl (a, one) ↦ ground arith
        | inr none_or_more ↦ absurd (ground (arith, none_or_more w))
      ]

  -- The output that is spent is worth `a` satoshis and the fee is `f` satoshis, each given as a
  -- `double` in bitcoins; they and what is left are at most 2 ^ 50 of either sign, and the address is
  -- not the text "data". Then the outputs pay exactly `a - f` satoshis to the address, written in
  -- bitcoins, and hold the data.
  pub amounts-change :
      (ieee : IsIeee fpu) (t : Transaction) (info : UtxoInfo) (u : Unspent) (input : CreateInput)
      (encoded : Str) (a f : ℤ) (w : Log)
      → btc.gettxout t.txid t.txo_index ≡ answer info
      → (find_unspent lib btc fpu signed t w).0 ≡ ok u
      → IsAmount fpu ieee info.value a
      → IsAmount fpu ieee input.fee f
      → nat_abs a ≤ 2 ^ 50
      → nat_abs f ≤ 2 ^ 50
      → nat_abs (a -ℤ f) ≤ 2 ^ 50
      → input.output_address ≢ bytes "data"
      → let outputs =
          amounts input.output_address
            (btc_to_string fpu (satoshi2btc fpu (change_of lib btc fpu signed u input)))
            encoded in
        (lookup input.output_address outputs ≡ some (amount_text (a -ℤ f)))
        × (lookup (bytes "data") outputs ≡ some encoded)
  unfolding change_of
  amounts-change ieee t info u input encoded a f w asked found value fee small_a small_f small
        address =
      let worth =
        find_unspent-amount t info u w asked found
        ∙ btc2satoshi-IsAmount fpu ieee info.value a small_a value in
      let paid = btc2satoshi-IsAmount fpu ieee input.fee f small_f fee in
      let left : change_of lib btc fpu signed u input ≡ a -ℤ f = ap₂ ◌-ℤ◌ worth paid in
      let text =
        ap (λ i. btc_to_string fpu (satoshi2btc fpu i)) left
        ∙ btc_to_string-satoshi2btc fpu ieee (a -ℤ f) small in
      subst
        (λ s.
          (lookup input.output_address (amounts input.output_address s encoded)
            ≡ some (amount_text (a -ℤ f)))
          × (lookup (bytes "data") (amounts input.output_address s encoded) ≡ some encoded))
        (sym text) (lookup-amounts input.output_address (amount_text (a -ℤ f)) encoded address)
