-- ===== src/Programs/CreateBtcrDid/Success.antt =====
-- What a run of createBtcrDid (src/createBtcrDid.cpp) that ends with a status has done.
use mathlib.Core.Path.{subst}
use btcr_did_method.Base.{
  ◌≡◌, refl, ◌∙◌, ap, sym, ◌⊎◌, inl, inr, Bool, true, false, Bool-cases, Str, ℤ, pos, ◌∷◌, arith,
}
use btcr_did_method.Base.Answer.{Answer, answer, raise, Answer-cases, call}
use btcr_did_method.Base.Run.{
  Log, bitcoin, runtime, foreign, Outcome, Run, ok, throws, exits, aborts, unfinished, try_catch,
  ◌>>=◌,
}
use btcr_did_method.Libtxref.{Libtxref}
use btcr_did_method.Rpc.{RpcConfig, Btc, BlockchainInfo}
use btcr_did_method.Satoshis.{Fpu}
use btcr_did_method.T2t.{Transaction}
use btcr_did_method.CommandLine.{CreateInput}
use btcr_did_method.Programs.CreateBtcrDid.{
  Unspent, handle, find_input, find_unspent, make_signed, finish, create, run, print_as_json,
}
use btcr_did_method.Programs.CreateBtcrDid.DryRun.{
  submissions, find_input-Submitless, find_unspent-Submitless, make_signed-Submitless,
}
use btcr_did_method.Programs.CreateBtcrDid.Submission.{IsSigned, make_signed-IsSigned}

-- What returned of a sequence of two steps.
>>=-returned :
    {A B : Type 0} (m : Run A) (f : A → Run B) (b : B) (w w' : Log)
    → (m >>= f) w ≡ (ok b, w')
    → (a : A) × (w1 : Log) × (m w ≡ (ok a, w1)) × (f a w1 ≡ (ok b, w'))
>>=-returned {A} {B} m f b w w' e = go (m w).0 (m w).1 refl e
  where
    go :
        (r : Outcome A) (w1 : Log)
        → m w ≡ (r, w1)
        → ((λ (v : Log). (r, w1)) >>= f) w ≡ (ok b, w')
        → (a : A) × (w2 : Log) × (m w ≡ (ok a, w2)) × (f a w2 ≡ (ok b, w'))
    go (ok a) w1 same e' = (a, w1, same, e')
    go (throws x) w1 same e' = absurd (ground (arith, ap (λ p. p.0) e'))
    go (exits n) w1 same e' = absurd (ground (arith, ap (λ p. p.0) e'))
    go aborts w1 same e' = absurd (ground (arith, ap (λ p. p.0) e'))
    go unfinished w1 same e' = absurd (ground (arith, ap (λ p. p.0) e'))

call-returned :
    {A : Type 0} (x : Answer A) (a : A) (w w' : Log)
    → call x w ≡ (ok a, w')
    → (x ≡ answer a) × (w' ≡ w)
call-returned (answer b) a w w' e = ground (arith, ap (λ p. p.0) e, ap (λ p. p.1) e)
call-returned (raise x) a w w' e = absurd (ground (arith, ap (λ p. p.0) e))

-- The handlers do not return.
try_catch-returned :
    (m : Run ℤ) (n : ℤ) (w w' : Log) → try_catch m handle w ≡ (ok n, w') → m w ≡ (ok n, w')
unfolding handle
try_catch-returned m n w w' e = go (m w).0 (m w).1 refl e
  where
    go :
        (r : Outcome ℤ) (w1 : Log)
        → m w ≡ (r, w1)
        → try_catch (λ (v : Log). (r, w1)) handle w ≡ (ok n, w')
        → m w ≡ (ok n, w')
    go (ok a) w1 same e' = same ∙ e'
    go (throws (bitcoin code message)) w1 same e' = absurd (ground (arith, ap (λ p. p.0) e'))
    go (throws (runtime message)) w1 same e' = absurd (ground (arith, ap (λ p. p.0) e'))
    go (throws (foreign k)) w1 same e' = absurd (ground (arith, ap (λ p. p.0) e'))
    go (exits k) w1 same e' = absurd (ground (arith, ap (λ p. p.0) e'))
    go aborts w1 same e' = absurd (ground (arith, ap (λ p. p.0) e'))
    go unfinished w1 same e' = absurd (ground (arith, ap (λ p. p.0) e'))

-- Between the logs the signed transaction was submitted and the node answered, or it is a dry run and
-- nothing was submitted.
abbrev pub IsDone : Btc → CreateInput → Str → Log → Log → Type 0
IsDone btc input hex w w' =
    (input.dryrun ≡ true) × (submissions w' ≡ submissions w)
    ⊎ (input.dryrun ≡ false)
      × ((id : Str) × (btc.sendrawtransaction hex ≡ answer id)
          × (submissions w' ≡ hex ∷ submissions w))

module _ (lib : Libtxref) (btc : Btc) (fpu : Fpu) (signed : Bool) (input : CreateInput) where
  finish-IsDone :
      (hex : Str) (n : ℤ) (w w' : Log)
      → finish lib btc fpu signed input hex w ≡ (ok n, w')
      → (n ≡ pos 0) × IsDone btc input hex w w'
  unfolding finish print_as_json
  finish-IsDone hex n w w' e = elim (Bool-cases input.dryrun) [
    | inl dry ↦ ground (arith, ap (λ p. p.0) e, ap (λ p. submissions p.1) e)
    | inr wet ↦ elim (Answer-cases (btc.sendrawtransaction hex)) [
      | inl (id, sent) ↦ ground (arith, ap (λ p. p.0) e, ap (λ p. submissions p.1) e)
      | inr (x, failed) ↦ absurd (ground (arith, ap (λ p. p.0) e))
    ]
  ]

  create-IsDone :
      (n : ℤ) (w w' : Log)
      → create lib btc fpu signed input w ≡ (ok n, w')
      → (n ≡ pos 0) × ((hex : Str) × IsSigned btc input hex × IsDone btc input hex w w')
  unfolding create
  create-IsDone n w w' e =
      let last = λ (hex : Str). finish lib btc fpu signed input hex in
      let sign = λ (u : Unspent). make_signed lib btc fpu signed input u >>= last in
      let spend = λ (t : Transaction). find_unspent lib btc fpu signed t >>= sign in
      let start = λ (c : BlockchainInfo). find_input lib btc input >>= spend in
      let (c, w1, e1, rest1) = >>=-returned (call btc.getblockchaininfo) start n w w' e in
      let (t, w2, e2, rest2) = >>=-returned (find_input lib btc input) spend n w1 w' rest1 in
      let (u, w3, e3, rest3) =
        >>=-returned (find_unspent lib btc fpu signed t) sign n w2 w' rest2 in
      let (hex, w4, e4, rest4) =
        >>=-returned (make_signed lib btc fpu signed input u) last n w3 w' rest3 in
      let quiet : submissions w4 ≡ submissions w =
        sym (ap (λ p. submissions p.1) e4)
        ∙ make_signed-Submitless lib btc fpu signed input u w3
        ∙ sym (ap (λ p. submissions p.1) e3)
        ∙ find_unspent-Submitless lib btc fpu signed t w2
        ∙ sym (ap (λ p. submissions p.1) e2)
        ∙ find_input-Submitless lib btc input w1
        ∙ ap submissions (call-returned btc.getblockchaininfo c w w1 e1).1 in
      let (status, done) = finish-IsDone hex n w4 w' rest4 in
      (
        status,
        (
          hex,
          make_signed-IsSigned lib btc fpu signed input u w3 hex (ap (λ p. p.0) e4),
          subst
              (λ s.
                (input.dryrun ≡ true) × (submissions w' ≡ s)
                ⊎ (input.dryrun ≡ false)
                  × ((id : Str) × (btc.sendrawtransaction hex ≡ answer id)
                      × (submissions w' ≡ hex ∷ s)))
              quiet done,
        ),
      )

-- Where a run of createBtcrDid behind its command line returns a status, that is 0, and the connected
-- node signed a transaction with the private key of the command line. If the run is no dry run, it
-- submitted that transaction, alone, and the node answered; a dry run submitted nothing.
pub run-IsDone :
    (lib : Libtxref) (fpu : Fpu) (signed : Bool) (connect : RpcConfig → Answer Btc)
    (config : RpcConfig) (input : CreateInput) (n : ℤ) (w w' : Log)
    → run lib fpu signed connect config input w ≡ (ok n, w')
    → (n ≡ pos 0)
      × ((btc : Btc) × (connect config ≡ answer btc)
          × ((hex : Str) × IsSigned btc input hex × IsDone btc input hex w w'))
unfolding run
run-IsDone lib fpu signed connect config input n w w' e =
    let body = λ (btc : Btc). create lib btc fpu signed input in
    let returned = try_catch-returned (call (connect config) >>= body) n w w' e in
    let (btc, w1, e1, rest) = >>=-returned (call (connect config)) body n w w' returned in
    let (connected, same) = call-returned (connect config) btc w w1 e1 in
    let (status, done) =
      create-IsDone lib btc fpu signed input n w w' (ap (body btc) (sym same) ∙ rest) in
    (status, (btc, connected, done))
