-- ===== src/Programs/Txid2txref/DidText.antt =====
-- The DID that txid2txref (src/txid2txref.cpp) prints, and what `Did` (src/domain/did.cpp) makes of it.
use btcr_did_method.Base.{
  ℕ, ◌≡◌, ◌≢◌, refl, ap, true, false, some, Str, bytes, [], ◌∷◌, ◌++◌, drop, length, All, lowercase,
  to_lower, find, find_first_of, starts_with, is_empty, arith,
}
use btcr_did_method.Base.Run.{Log, ok}
use btcr_did_method.Libtxref.{Libtxref}
use btcr_did_method.Rpc.{Btc}
use btcr_did_method.Domain.Txref
use btcr_did_method.Domain.Txref.{Txref}
use btcr_did_method.Domain.Did
use btcr_did_method.Domain.Did.{Did, is_txref, validate_did_string, scheme_and_method}
use btcr_did_method.Programs.Txid2txref.{txref2did}

find_first_of-colon :
    (hrp rest : Str)
    → All (λ c. c ≢ b':') hrp
    → find_first_of (hrp ++ b':' ∷ rest) (bytes ":") ≡ some (length hrp)
unfolding find_first_of
find_first_of-colon [] rest h = refl
find_first_of-colon (c ∷ hrp) rest h = ground (arith, find_first_of-colon hrp rest h.1)

drop-append : (xs ys : Str) → drop (length xs) (xs ++ ys) ≡ ys
drop-append [] ys = refl
drop-append (x ∷ xs) ys = drop-append xs ys

is_empty-append : (xs : Str) (c : ℕ) (ys : Str) → is_empty (xs ++ c ∷ ys) ≡ false
is_empty-append [] c ys = refl
is_empty-append (x ∷ xs) c ys = refl

-- A txref with a prefix in front of its first colon becomes the text behind that colon, with the
-- scheme and the method in front.
pub txref2did_lem :
    (hrp rest : Str) (w : Log)
    → All (λ c. c ≢ b':') hrp
    → txref2did (hrp ++ b':' ∷ rest) w ≡ (ok (scheme_and_method ++ rest), w)
unfolding txref2did
txref2did_lem hrp rest w h = ground (
  arith,
  is_empty-append hrp b':' rest,
  find_first_of-colon hrp rest h,
  drop-append hrp (b':' ∷ rest),
)

starts_with-nil : (s : Str) → starts_with s [] ≡ true
unfolding starts_with
starts_with-nil [] = refl
starts_with-nil (c ∷ s) = refl

find-scheme : (rest : Str) → find (scheme_and_method ++ rest) scheme_and_method ≡ some 0
unfolding find
find-scheme rest = ground (arith, starts_with-nil rest)

lowercase-append : (xs ys : Str) → lowercase (xs ++ ys) ≡ lowercase xs ++ lowercase ys
lowercase-append [] ys = refl
lowercase-append (x ∷ xs) ys = ap (λ s. to_lower x ∷ s) (lowercase-append xs ys)

lowercase-scheme :
    (rest : Str) → lowercase (scheme_and_method ++ rest) ≡ scheme_and_method ++ lowercase rest
unfolding to_lower
lowercase-scheme rest = refl

-- The DID that is printed for a txref is accepted as a DID again, and stands for the same txref
-- without its prefix: what `Txref` makes of that text is what the `Did` holds. The text is in lower
-- case, and libtxref classifies it as a txref.
pub txref2did-make :
    (lib : Libtxref) (btc : Btc) (hrp rest : Str) (r : Txref) (w w' w'' : Log)
    → All (λ c. c ≢ b':') hrp
    → lowercase rest ≡ rest
    → is_txref (lib.classify_input_string rest) ≡ true
    → Txref.parse lib btc rest w' ≡ (ok r, w'')
    → (did : Str) × (txref2did (hrp ++ b':' ∷ rest) w ≡ (ok did, w))
      × (Did.make lib btc did w' ≡ (ok (record { txref = r }), w''))
unfolding Did.make
txref2did-make lib btc hrp rest r w w' w'' h lower classified parsed = (
  scheme_and_method ++ rest,
  txref2did_lem hrp rest w h,
  ground (arith, find-scheme rest, lowercase-scheme rest, lower, classified, parsed),
)
