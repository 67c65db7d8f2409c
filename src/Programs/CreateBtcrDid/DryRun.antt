-- ===== src/Programs/CreateBtcrDid/DryRun.antt =====
-- What createBtcrDid (src/createBtcrDid.cpp) submits to the network.
use btcr_did_method.Base.{◌≡◌, ◌∙◌, refl, Bool, true, Str, List, [], ◌∷◌, arith, inl, inr, ◌⊎◌}
use btcr_did_method.Base.Answer.{Answer, answer, raise, Answer-cases, call}
use btcr_did_method.Base.Run.{
  Log, Exception, Outcome, submit, Run, ok, throws, exits, aborts, unfinished, try_catch, pure,
  ◌>>=◌,
}
use btcr_did_method.Libtxref.{Libtxref}
use btcr_did_method.Rpc.{RpcConfig, Btc, BlockchainInfo}
use btcr_did_method.Satoshis.{Fpu}
use btcr_did_method.T2t.{Transaction, decode_txref}
use btcr_did_method.CommandLine.{CreateInput}
use btcr_did_method.Programs.CreateBtcrDid.{
  Unspent, handle, print_as_json, get_transaction, find_input, find_unspent, only_address,
  make_signed, finish, create, run,
}

-- The transactions submitted, the newest first.
abbrev pub submissions : Log → List Str
submissions [] = []
submissions (submit hex ∷ w) = hex ∷ submissions w
submissions (_ ∷ w) = submissions w

-- A step that submits nothing.
abbrev pub Submitless : {A : Type 0} → Run A → Type 0
Submitless m = (w : Log) → submissions (m w).1 ≡ submissions w

module _ {A B : Type 0} (m : Run A) (f : A → Run B) where
  -- What follows is known to have what the first part returned.
  pub >>=-Submitless_of :
      (w : Log)
      → submissions (m w).1 ≡ submissions w
      → ((a : A) → (m w).0 ≡ ok a → Submitless (f a))
      → submissions ((m >>= f) w).1 ≡ submissions w
  >>=-Submitless_of w first rest = go (m w).0 (m w).1 refl first
    where
      go :
          (r : Outcome A) (w' : Log)
          → (m w).0 ≡ r
          → submissions w' ≡ submissions w
          → submissions (((λ (v : Log). (r, w')) >>= f) w).1 ≡ submissions w
      go (ok a) w' made e = rest a made w' ∙ e
      go (throws x) w' made e = e
      go (exits n) w' made e = e
      go aborts w' made e = e
      go unfinished w' made e = e

  pub >>=-Submitless : Submitless m → ((a : A) → Submitless (f a)) → Submitless (m >>= f)
  >>=-Submitless first rest w = >>=-Submitless_of w (first w) (λ a _. rest a)

try_catch-Submitless :
    {A : Type 0} (m : Run A) (h : Exception → Run A)
    → Submitless m
    → ((e : Exception) → Submitless (h e))
    → Submitless (try_catch m h)
try_catch-Submitless {A} m h first rest w = go (m w).0 (m w).1 (first w)
  where
    go :
        (r : Outcome A) (w' : Log)
        → submissions w' ≡ submissions w
        → submissions (try_catch (λ (v : Log). (r, w')) h w).1 ≡ submissions w
    go (ok a) w' e = e
    go (throws x) w' e = rest x w' ∙ e
    go (exits n) w' e = e
    go aborts w' e = e
    go unfinished w' e = e

pub call-Submitless : {A : Type 0} (x : Answer A) → Submitless (call x)
call-Submitless (answer a) w = refl
call-Submitless (raise e) w = refl

pub handle-Submitless : (e : Exception) → Submitless (handle e)
unfolding handle
handle-Submitless e w = ground arith

module _ (lib : Libtxref) (btc : Btc) where
  decode_txref-Submitless : (txref : Str) → Submitless (decode_txref lib btc txref)
  unfolding decode_txref
  decode_txref-Submitless txref w = ground arith

  get_transaction-Submitless : (input : CreateInput) → Submitless (get_transaction lib btc input)
  unfolding get_transaction
  get_transaction-Submitless input w = ground (arith, decode_txref-Submitless input.query w)

  pub find_input-Submitless : (input : CreateInput) → Submitless (find_input lib btc input)
  unfolding find_input
  find_input-Submitless input w = ground (arith, get_transaction-Submitless input w)

  print_as_json-Submitless : (txid : Str) → Submitless (print_as_json txid)
  unfolding print_as_json
  print_as_json-Submitless txid w = ground arith

  module _ (fpu : Fpu) (signed : Bool) where
    pub only_address-cases :
        (xs : List Str)
        → ((a : Str) × (only_address lib btc xs ≡ pure a))
          ⊎ ((w : Log) → only_address lib btc xs w ≡ (aborts, w))
    unfolding only_address
    only_address-cases [] = inr (λ w. refl)
    only_address-cases (x ∷ []) = inl (x, refl)
    only_address-cases (x ∷ y ∷ xs) = inr (λ w. refl)

    pub find_unspent-Submitless : (t : Transaction) → Submitless (find_unspent lib btc fpu signed t)
    unfolding find_unspent
    find_unspent-Submitless t w = elim (Answer-cases (btc.gettxout t.txid t.txo_index)) [
      | inr (x, e) ↦ ground arith
      | inl (info, e) ↦ elim (only_address-cases info.addresses) [
        | inl (a, one) ↦ ground arith
        | inr none_or_more ↦ ground (arith, none_or_more w)
      ]
    ]

    pub make_signed-Submitless :
        (input : CreateInput) (u : Unspent) → Submitless (make_signed lib btc fpu signed input u)
    unfolding make_signed
    make_signed-Submitless input u w = ground arith

    finish_dry :
        (input : CreateInput) (hex : Str)
        → input.dryrun ≡ true
        → Submitless (finish lib btc fpu signed input hex)
    unfolding finish
    finish_dry input hex dry w = ground arith

    create_dry :
        (input : CreateInput) → input.dryrun ≡ true → Submitless (create lib btc fpu signed input)
    unfolding create
    create_dry input dry =
        let last = λ (hex : Str). finish lib btc fpu signed input hex in
        let sign = λ (u : Unspent). make_signed lib btc fpu signed input u >>= last in
        let spend = λ (t : Transaction). find_unspent lib btc fpu signed t >>= sign in
        let start = λ (c : BlockchainInfo). find_input lib btc input >>= spend in
        >>=-Submitless (call btc.getblockchaininfo) start (call-Submitless _) λ c.
          >>=-Submitless (find_input lib btc input) spend (find_input-Submitless input) λ t.
            >>=-Submitless (find_unspent lib btc fpu signed t) sign (find_unspent-Submitless t) λ u.
              >>=-Submitless (make_signed lib btc fpu signed input u) last
                (make_signed-Submitless input u) λ hex. finish_dry input hex dry

module _ (lib : Libtxref) (fpu : Fpu) (signed : Bool) (connect : RpcConfig → Answer Btc)
    (config : RpcConfig) where
  -- A dry run submits nothing, however it ends.
  pub run_dry :
      (input : CreateInput) (w : Log)
      → input.dryrun ≡ true
      → submissions (run lib fpu signed connect config input w).1 ≡ submissions w
  unfolding run
  run_dry input w dry =
      try_catch-Submitless (call (connect config) >>= λ btc. create lib btc fpu signed input) handle
        (>>=-Submitless (call (connect config)) (λ btc. create lib btc fpu signed input)
          (call-Submitless _) (λ btc. create_dry lib btc fpu signed input dry))
        handle-Submitless w
