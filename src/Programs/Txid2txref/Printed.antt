-- ===== src/Programs/Txid2txref/Printed.antt =====
-- When txid2txref (src/txid2txref.cpp) prints a result.
use mathlib.Core.Path.{subst}
use btcr_did_method.Base.{
  ◌≡◌, refl, sym, ap, ◌∙◌, ◌⊎◌, inl, inr, Bool-cases, Option-cases, is_empty, find_first_of, drop,
  ◌++◌, Bool, true, false, ℕ, eqb_ℤ, eqb_ℤ→eq, Str, bytes, ℤ, pos, List, [], ◌∷◌, to_string,
  Message, arith,
}
use btcr_did_method.Base.Answer.{Answer, answer, Answer-cases, call}
use btcr_did_method.Base.Run.{
  bitcoin, runtime, foreign, out_of_range, stdout, Log, Outcome, Run, Exception, ok, throws, exits,
  aborts, unfinished, try_catch, failed, pure, ◌>>=◌,
}
use btcr_did_method.Libtxref.{Libtxref}
use btcr_did_method.Rpc.{RpcConfig, Btc}
use btcr_did_method.T2t.{Transaction, encode_txid, decode_txref}
use btcr_did_method.CommandLine.{QueryInput}
use btcr_did_method.Programs.Txid2txref.{txref2did, print_as_json, handle, convert, run}

-- The messages on the standard output, the newest first.
abbrev pub printed : Log → List Message
printed [] = []
printed (stdout m ∷ w) = m ∷ printed w
printed (_ ∷ w) = printed w

-- The result of a conversion.
abbrev pub result : Transaction → Str → Message
result t did = Message.json (
    (bytes "txid", t.txid)
    ∷ (bytes "txref", t.txref)
    ∷ (bytes "did", did)
    ∷ (bytes "network", t.network)
    ∷ (bytes "block-height", to_string t.block_height)
    ∷ (bytes "transaction-index", to_string t.transaction_index)
    ∷ (bytes "txo-index", to_string t.txo_index)
    ∷ (bytes "query-string", t.query)
    ∷ [])

-- A conversion returns, throws, or exits with -1.
abbrev may_end : {A : Type 0} → Outcome A → Bool
may_end (ok a) = true
may_end (throws e) = true
may_end (exits n) = eqb_ℤ n failed
may_end aborts = false
may_end unfinished = false

may_end-encode_txid :
    (lib : Libtxref) (btc : Btc) (txid : Str) (i : ℤ) (w : Log)
    → may_end (encode_txid lib btc txid i w).0 ≡ true
unfolding encode_txid
may_end-encode_txid lib btc txid i w = ground arith

may_end-decode_txref :
    (lib : Libtxref) (btc : Btc) (txref : Str) (w : Log)
    → may_end (decode_txref lib btc txref w).0 ≡ true
unfolding decode_txref
may_end-decode_txref lib btc txref w = ground arith

may_end-convert :
    (lib : Libtxref) (btc : Btc) (input : QueryInput) (w : Log)
    → may_end (convert lib btc input w).0 ≡ true
unfolding convert
may_end-convert lib btc input w = ground (
  arith,
  may_end-encode_txid lib btc input.query input.txo_index w,
  may_end-encode_txid lib btc input.query (pos 0) w,
  may_end-decode_txref lib btc input.query w,
)

printed-encode_txid :
    (lib : Libtxref) (btc : Btc) (txid : Str) (i : ℤ) (w : Log)
    → printed (encode_txid lib btc txid i w).1 ≡ printed w
unfolding encode_txid
printed-encode_txid lib btc txid i w = ground arith

printed-decode_txref :
    (lib : Libtxref) (btc : Btc) (txref : Str) (w : Log)
    → printed (decode_txref lib btc txref w).1 ≡ printed w
unfolding decode_txref
printed-decode_txref lib btc txref w = ground arith

printed-convert :
    (lib : Libtxref) (btc : Btc) (input : QueryInput) (w : Log)
    → printed (convert lib btc input w).1 ≡ printed w
unfolding convert
printed-convert lib btc input w = ground (
  arith,
  printed-encode_txid lib btc input.query input.txo_index w,
  printed-encode_txid lib btc input.query (pos 0) w,
  printed-decode_txref lib btc input.query w,
)

txref2did-cases :
    (txref : Str) (w : Log)
    → ((did : Str) × (txref2did txref w ≡ (ok did, w)))
      ⊎ (txref2did txref w ≡ (throws out_of_range, w))
unfolding txref2did
txref2did-cases txref w = elim (Bool-cases (is_empty txref)) [
  | inl e ↦ inl (bytes "", ground arith)
  | inr e ↦ elim (Option-cases (find_first_of txref (bytes ":"))) [
    | inl f ↦ inr (ground arith)
    | inr (position, f) ↦ inl (bytes "did:btcr" ++ drop position txref, ground arith)
  ]
]

txref2did_same : (txref : Str) (w w' : Log) → (txref2did txref w).0 ≡ (txref2did txref w').0
unfolding txref2did
txref2did_same txref w w' = ground arith

-- The status -1, or an exception that no handler names, which ends the process abnormally.
abbrev pub IsFailure : Outcome ℤ → Type 0
IsFailure r = (r ≡ exits failed) ⊎ ((n : ℕ) × (r ≡ throws (foreign n)))

-- A run that prints a result, and one that fails.
abbrev pub Ends : (Transaction → Str → Type 0) → Log → Outcome ℤ × Log → Type 0
Ends P w p =
    ((t : Transaction) × (did : Str) × P t did
      × (p.0 ≡ ok (pos 0))
      × (printed p.1 ≡ result t did ∷ printed w))
    ⊎ (IsFailure p.0 × (printed p.1 ≡ printed w))

handle-Ends :
    (P : Transaction → Str → Type 0) (query : Str) (e : Exception) (w w' : Log)
    → printed w' ≡ printed w
    → Ends P w (handle query e w')
unfolding handle
handle-Ends P query (bitcoin code m) w w' same = inr (inl (ground arith), ground arith)
handle-Ends P query (runtime m) w w' same = inr (inl refl, same)
handle-Ends P query (foreign k) w w' same = inr (inr (k, refl), same)

-- What follows the conversion.
abbrev print_and_end : Transaction → Run ℤ
print_and_end t = print_as_json t >>= λ _. pure (pos 0)

after_convert :
    (P : Transaction → Str → Type 0) (query : Str) (r : Outcome Transaction) (w w' : Log)
    → printed w' ≡ printed w
    → may_end r ≡ true
    → ((t : Transaction) (did : Str) → r ≡ ok t → txref2did t.txref w' ≡ (ok did, w') → P t did)
    → Ends P w (try_catch ((λ (v : Log). (r, w')) >>= print_and_end) (handle query) w)
unfolding print_as_json
after_convert P query (ok t) w w' same ended made = elim (txref2did-cases t.txref w') [
  | inl (did, e) ↦ inl (t, did, made t did refl e, ground arith, ground arith)
  | inr e ↦
      let thrown : handle query out_of_range w'
          ≡ try_catch ((λ (v : Log). (ok t, w')) >>= print_and_end) (handle query) w =
        ground arith in
      subst (Ends P w) thrown (handle-Ends P query out_of_range w w' same)
]
after_convert P query (throws e) w w' same ended made = handle-Ends P query e w w' same
after_convert P query (exits k) w w' same ended made =
    inr (inl (ap exits (eqb_ℤ→eq k failed ended)), same)
after_convert P query aborts w w' same ended made = absurd (ground arith)
after_convert P query unfinished w w' same ended made = absurd (ground arith)

-- Behind its command line txid2txref either returns the status 0 and prints one result, the
-- transaction that the conversion of the query by the connected node returned, with the DID of its
-- txref; or it prints nothing on the standard output, and exits with the status -1 or is left by an
-- exception that is neither a `BitcoinException` nor a `std::runtime_error`.
pub run-Ends :
    (lib : Libtxref) (connect : RpcConfig → Answer Btc) (config : RpcConfig) (input : QueryInput)
    (w : Log)
    → Ends
        (λ t did.
          (btc : Btc) × (connect config ≡ answer btc)
          × ((convert lib btc input w).0 ≡ ok t)
          × ((txref2did t.txref w).0 ≡ ok did))
        w
        (run lib connect config input w)
unfolding run
run-Ends lib connect config input w = elim (Answer-cases (connect config)) [
  | inr (e, refused) ↦ rw refused (handle-Ends _ input.query e w w refl)
  | inl (btc, connected) ↦
      let P = λ (t : Transaction) (did : Str).
        (x : Btc) × (connect config ≡ answer x)
        × ((convert lib x input w).0 ≡ ok t)
        × ((txref2did t.txref w).0 ≡ ok did) in
      let body = λ (x : Answer Btc). call x >>= λ b. convert lib b input >>= print_and_end in
      subst (Ends P w) (ap (λ x. try_catch (body x) (handle input.query) w) (sym connected)) (
        after_convert P input.query (convert lib btc input w).0 w (convert lib btc input w).1
          (printed-convert lib btc input w) (may_end-convert lib btc input w)
          (λ t did e f. (btc, connected, e, txref2did_same t.txref w _ ∙ ap (λ p. p.0) f)))
]
