-- ===== src/ChainSo/Queries.antt =====
-- Different questions have different addresses (src/chainSoQuery.cpp).
use mathlib.Core.List.{append_assoc}
use btcr_did_method.Base.{
  ◌^◌, ◌≡◌, ◌≢◌, ◌∙◌, ◌-◌, drop, get_elem?, sym, ap, Str, bytes, str_eq, [], ◌∷◌, ◌++◌, All, ℤ, pos,
  negsuc, ◌≤ℤ◌, to_string, arith,
}
use btcr_did_method.CommandLine.Numbers.{value, stoi}
use btcr_did_method.CommandLine.RoundTrip.{stoi-to_string}
use btcr_did_method.ChainSo.Urls.{network_code, is_tx_spent_url, get_tx_url}

-- No byte of it is a slash.
abbrev pub IsPlain : Str → Type 0
IsPlain s = All (λ c. c ≢ b'/') s

-- An `int`.
abbrev pub IsInt : ℤ → Type 0
IsInt i = (negsuc (2 ^ 31 - 1) ≤ℤ i) × (i ≤ℤ pos (2 ^ 31 - 1))

-- A text is cut at its first slash in one way.
cut-injective :
    (s t a b : Str) → IsPlain s → IsPlain t → s ++ b'/' ∷ a ≡ t ++ b'/' ∷ b → (s ≡ t) × (a ≡ b)
cut-injective [] [] a b p q e = ground arith
cut-injective [] (d ∷ t) a b p q e = ground arith
cut-injective (c ∷ s) [] a b p q e = ground arith
cut-injective (c ∷ s) (d ∷ t) a b p q e = ground (arith, cut-injective s t a b)

value-injective : (i j : ℤ) → value i ≡ value j → i ≡ j
value-injective i j e = cc

to_string-injective : (i j : ℤ) → IsInt i → IsInt j → to_string i ≡ to_string j → i ≡ j
to_string-injective i j (low, high) (low', high') e =
    value-injective i j (sym (stoi-to_string i low high) ∙ ap stoi e ∙ stoi-to_string j low' high')

network_code-IsPlain : (network : Str) → IsPlain (network_code network)
unfolding network_code
network_code-IsPlain network = ground arith

two_parts : (a b : Str) → (a ++ b'/' ∷ []) ++ b ≡ a ++ b'/' ∷ b
two_parts a b = simp append_assoc

three_parts :
    (a b c : Str) → (((a ++ b'/' ∷ []) ++ b) ++ b'/' ∷ []) ++ c ≡ a ++ b'/' ∷ (b ++ b'/' ∷ c)
three_parts a b c = simp append_assoc

-- The networks that the code tells apart.
network_code-eq :
    (m n : Str)
    → network_code m ≡ network_code n
    → str_eq m (bytes "main") ≡ str_eq n (bytes "main")
unfolding network_code
network_code-eq m n e = ground arith

-- Two questions whether an output is spent that have the same address are about the same network,
-- the same transaction and the same output: the txids hold no slash, and the indexes are `int`s.
pub is_tx_spent_url-injective :
    (m n txid txid' : Str) (i j : ℤ)
    → IsPlain txid
    → IsPlain txid'
    → IsInt i
    → IsInt j
    → is_tx_spent_url m txid i ≡ is_tx_spent_url n txid' j
    → (str_eq m (bytes "main") ≡ str_eq n (bytes "main")) × (txid ≡ txid') × (i ≡ j)
unfolding is_tx_spent_url
is_tx_spent_url-injective m n txid txid' i j plain plain' int int' e =
    let tail : network_code m ++ b'/' ∷ (txid ++ b'/' ∷ to_string i)
        ≡ network_code n ++ b'/' ∷ (txid' ++ b'/' ∷ to_string j) =
      sym (three_parts (network_code m) txid (to_string i))
      ∙ ap (drop 39) e
      ∙ three_parts (network_code n) txid' (to_string j) in
    let (code, rest) =
      cut-injective (network_code m) (network_code n) _ _ (network_code-IsPlain m)
        (network_code-IsPlain n) tail in
    let (same_txid, digits) = cut-injective txid txid' _ _ plain plain' rest in
    (network_code-eq m n code, same_txid, to_string-injective i j int int' digits)

-- Two questions for a transaction that have the same address are about the same network and the
-- same transaction.
pub get_tx_url-injective :
    (m n txid txid' : Str)
    → get_tx_url m txid ≡ get_tx_url n txid'
    → (str_eq m (bytes "main") ≡ str_eq n (bytes "main")) × (txid ≡ txid')
unfolding get_tx_url
get_tx_url-injective m n txid txid' e =
    let (code, rest) =
      cut-injective (network_code m) (network_code n) txid txid' (network_code-IsPlain m)
        (network_code-IsPlain n)
        (sym (two_parts (network_code m) txid)
          ∙ ap (drop 34) e
          ∙ two_parts (network_code n) txid') in
    (network_code-eq m n code, rest)

-- No address asks two kinds of question.
pub is_tx_spent_url-ne-get_tx_url :
    (m n txid txid' : Str) (i : ℤ) → is_tx_spent_url m txid i ≢ get_tx_url n txid'
unfolding is_tx_spent_url get_tx_url
is_tx_spent_url-ne-get_tx_url m n txid txid' i e =
    absurd (ground (arith, ap (λ s. get_elem? s 27) e))
