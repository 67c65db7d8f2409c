-- ===== src/Domain/Did/Branches.antt =====
-- Which texts the constructor of `Did` (src/domain/did.cpp) accepts, and how it refuses the others.
use btcr_did_method.Base.{
  ◌≡◌, ◌≢◌, ◌⊎◌, refl, ap, sym, ◌∙◌, inl, inr, true, false, Bool-cases, Str, [], ◌∷◌, ◌++◌, drop,
  length, lowercase, find, starts_with, Message, arith,
}
use btcr_did_method.Base.Run.{Log, throws, runtime, pure, ◌>>=◌}
use btcr_did_method.Libtxref.{Libtxref}
use btcr_did_method.Rpc.{Btc}
use btcr_did_method.Domain.Txref
use btcr_did_method.Domain.Txref.{Txref}
use btcr_did_method.Domain.Did.{scheme_and_method, is_zero, is_txref, make}

starts_with-append : (p s : Str) → starts_with (p ++ s) p ≡ true
unfolding starts_with
starts_with-append [] [] = refl
starts_with-append [] (c ∷ s) = refl
starts_with-append (d ∷ p) s = ground (arith, starts_with-append p s)

append-drop : (p s : Str) → starts_with s p ≡ true → s ≡ p ++ drop (length p) s
unfolding starts_with
append-drop [] s h = refl
append-drop (d ∷ p) [] h = absurd (ground arith)
append-drop (d ∷ p) (c ∷ s) h = ground (arith, append-drop p s)

-- `find` is at position 0 just where the text begins with the pattern.
is_zero-find : (s p : Str) → is_zero (find s p) ≡ starts_with s p
unfolding find
is_zero-find [] p = ground arith
is_zero-find (c ∷ s) p = ground arith

module _ (lib : Libtxref) (btc : Btc) where
  make_refused :
      (text : Str) (w : Log)
      → is_zero (find (lowercase text) scheme_and_method) ≡ false
      → make lib btc text w ≡ (throws (runtime Message.not_a_btcr_did), w)
  unfolding make
  make_refused text w h = ground arith

  make_behind :
      (text rest : Str) (w : Log)
      → lowercase text ≡ scheme_and_method ++ rest
      → (is_txref (lib.classify_input_string rest) ≡ false)
          × (make lib btc text w ≡ (throws (runtime Message.no_valid_txref), w))
        ⊎ (is_txref (lib.classify_input_string rest) ≡ true)
          × (make lib btc text w
              ≡ (Txref.parse lib btc rest >>= λ txref. pure (record { txref = txref })) w)
  unfolding make
  make_behind text rest w e =
      let at_start : is_zero (find (scheme_and_method ++ rest) scheme_and_method) ≡ true =
        is_zero-find (scheme_and_method ++ rest) scheme_and_method
        ∙ starts_with-append scheme_and_method rest in
      elim (Bool-cases (is_txref (lib.classify_input_string rest))) [
        | inl known ↦ inr (known, ground (arith, at_start))
        | inr unknown ↦ inl (unknown, ground (arith, at_start))
      ]

  -- The constructor of `Did` reads the text in lower case. If that does not begin with the scheme and
  -- the method, an exception says that it is no BTCR DID; if libtxref does not classify the rest
  -- behind them as a txref, another exception says so; and else the `Did` is made of the `Txref` of
  -- the rest, or ends as the constructor of `Txref` does.
  pub make-branches :
      (text : Str) (w : Log)
      → ((rest : Str) → lowercase text ≢ scheme_and_method ++ rest)
          × (make lib btc text w ≡ (throws (runtime Message.not_a_btcr_did), w))
        ⊎ ((rest : Str) × (lowercase text ≡ scheme_and_method ++ rest)
            × ((is_txref (lib.classify_input_string rest) ≡ false)
                  × (make lib btc text w ≡ (throws (runtime Message.no_valid_txref), w))
                ⊎ (is_txref (lib.classify_input_string rest) ≡ true)
                  × (make lib btc text w
                      ≡ (Txref.parse lib btc rest >>= λ txref. pure (record { txref = txref })) w)))
  make-branches text w = elim (Bool-cases (is_zero (find (lowercase text) scheme_and_method))) [
    | inl found ↦
        let rest = drop (length scheme_and_method) (lowercase text) in
        let same =
          append-drop scheme_and_method (lowercase text)
            (sym (is_zero-find (lowercase text) scheme_and_method) ∙ found) in
        inr (rest, same, make_behind text rest w same)
    | inr missing ↦ inl (
      λ rest e.
          let at_start =
            ap (λ s. starts_with s scheme_and_method) e
            ∙ starts_with-append scheme_and_method rest in
          ground (arith, missing, is_zero-find (lowercase text) scheme_and_method, at_start),
      make_refused text w missing,
    )
  ]
