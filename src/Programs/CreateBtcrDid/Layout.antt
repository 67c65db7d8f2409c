-- ===== src/Programs/CreateBtcrDid/Layout.antt =====
-- The outputs that createBtcrDid (src/createBtcrDid.cpp) asks for, written out in the order of their
-- keys.
use btcr_did_method.Base.{ℕ, ◌<◌, ◌≡◌, ◌⊎◌, inl, inr, true, false, Str, bytes, List, [], ◌∷◌, arith}
use btcr_did_method.Programs.CreateBtcrDid.{str_less, map_insert, amounts}

-- The order of the keys of a `std::map`: by the first byte that differs, and a text before those that
-- it begins.
pub data IsBefore : Str → Str → Type 0 where
  shorter : (d : ℕ) (t : Str) → IsBefore [] (d ∷ t)
  less : (c d : ℕ) (s t : Str) → c < d → IsBefore (c ∷ s) (d ∷ t)
  later : (c : ℕ) (s t : Str) → IsBefore s t → IsBefore (c ∷ s) (c ∷ t)

-- Two outputs and no other: one pays the amount to the address, the other holds the data.
abbrev pub PaysNextTo : Str → Str → Str → List (Str × Str) → Type 0
PaysNextTo address amount encoded outputs =
    IsBefore address (bytes "data") × (outputs ≡ (address, amount) ∷ (bytes "data", encoded) ∷ [])
    ⊎ IsBefore (bytes "data") address × (outputs ≡ (bytes "data", encoded) ∷ (address, amount) ∷ [])

str_less-IsBefore : (s t : Str) → IsBefore s t → (str_less s t ≡ true) × (str_less t s ≡ false)
unfolding str_less
str_less-IsBefore _ _ (shorter d t) = ground arith
str_less-IsBefore _ _ (less c d s t lt) = ground (arith, lt)
str_less-IsBefore _ _ (later c s t before) = ground (arith, str_less-IsBefore s t before)

pub amounts-PaysNextTo :
    (address amount encoded : Str) (outputs : List (Str × Str))
    → PaysNextTo address amount encoded outputs
    → outputs ≡ amounts address amount encoded
unfolding amounts map_insert
amounts-PaysNextTo address amount encoded outputs (inl (before, e)) =
    ground (arith, str_less-IsBefore address (bytes "data") before)
amounts-PaysNextTo address amount encoded outputs (inr (before, e)) =
    ground (arith, str_less-IsBefore (bytes "data") address before)
