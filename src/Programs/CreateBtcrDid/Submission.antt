-- ===== src/Programs/CreateBtcrDid/Submission.antt =====
-- How often createBtcrDid (src/createBtcrDid.cpp) submits, and what.
use btcr_did_method.Base.{
  ◌≡◌, refl, ◌∙◌, ap, ◌⊎◌, inl, inr, Bool, false, Bool-cases, Str, bytes, is_empty, List, [], ◌∷◌,
  arith,
}
use btcr_did_method.Base.Answer.{Answer, answer, raise, Answer-cases, call}
use btcr_did_method.Base.Run.{
  Log, Exception, Outcome, Run, ok, throws, exits, aborts, unfinished, try_catch, ◌>>=◌,
}
use btcr_did_method.Libtxref.{Libtxref}
use btcr_did_method.Rpc.{RpcConfig, Btc, BlockchainInfo, SignRawTxIn}
use btcr_did_method.Satoshis.{Fpu, btc_to_string, satoshi2btc}
use btcr_did_method.OpReturn.{encode_op_return_data}
use btcr_did_method.T2t.{Transaction}
use btcr_did_method.CommandLine.{CreateInput}
use btcr_did_method.Base.{unsigned_of_int}
use btcr_did_method.Programs.CreateBtcrDid.{
  Unspent, handle, find_input, find_unspent, make_signed, finish, create, run, print_as_json,
  amounts, change_of,
}
use btcr_did_method.Programs.CreateBtcrDid.DryRun.{
  submissions, Submitless, call-Submitless, handle-Submitless, find_input-Submitless,
  find_unspent-Submitless, make_signed-Submitless,
}

-- A transaction that the node signed with the key of the command line.
abbrev pub IsSigned : Btc → CreateInput → Str → Type 0
IsSigned btc input hex =
    (is_empty hex ≡ false)
    × ((raw : Str) × (inputs : List SignRawTxIn) × (btc.signrawtransactionwithkey raw inputs
            (input.private_key ∷ []) (bytes "ALL")
          ≡ answer hex))

module _ (P : Str → Type 0) where
  -- Between the logs nothing was submitted, or one transaction with the property.
  abbrev pub AtMostOne : Log → Log → Type 0
  AtMostOne w w' =
      (submissions w' ≡ submissions w)
      ⊎ ((hex : Str) × P hex × (submissions w' ≡ hex ∷ submissions w))

  AtMostOne-after :
      (w w' w'' : Log) → submissions w' ≡ submissions w → AtMostOne w' w'' → AtMostOne w w''
  AtMostOne-after w w' w'' e (inl f) = inl (f ∙ e)
  AtMostOne-after w w' w'' e (inr (hex, p, f)) = inr (hex, p, f ∙ ap (λ l. hex ∷ l) e)

  pub >>=-AtMostOne :
      {A B : Type 0} (m : Run A) (f : A → Run B)
      → Submitless m
      → (w : Log) → ((a : A) (w' : Log) → (m w).0 ≡ ok a → AtMostOne w' (f a w').1)
      → AtMostOne w ((m >>= f) w).1
  >>=-AtMostOne {A = A} m f first w rest = go (m w).0 (m w).1 refl (first w)
    where
      go :
          (r : Outcome A) (w' : Log)
          → (m w).0 ≡ r
          → submissions w' ≡ submissions w
          → AtMostOne w (((λ (v : Log). (r, w')) >>= f) w).1
      go (ok a) w' same e = AtMostOne-after w w' (f a w').1 e (rest a w' same)
      go (throws x) w' same e = inl e
      go (exits n) w' same e = inl e
      go aborts w' same e = inl e
      go unfinished w' same e = inl e

  try_catch-AtMostOne :
      {A : Type 0} (m : Run A) (h : Exception → Run A) (w : Log)
      → AtMostOne w (m w).1
      → ((e : Exception) → Submitless (h e))
      → AtMostOne w (try_catch m h w).1
  try_catch-AtMostOne {A} m h w first rest = go (m w).0 (m w).1 first
    where
      go :
          (r : Outcome A) (w' : Log)
          → AtMostOne w w'
          → AtMostOne w (try_catch (λ (v : Log). (r, w')) h w).1
      go (ok a) w' e = e
      go (throws x) w' (inl e) = inl (rest x w' ∙ e)
      go (throws x) w' (inr (hex, p, e)) = inr (hex, p, rest x w' ∙ e)
      go (exits n) w' e = e
      go aborts w' e = e
      go unfinished w' e = e

pub AtMostOne-map :
    (P Q : Str → Type 0) (w w' : Log)
    → ((hex : Str) → P hex → Q hex)
    → AtMostOne P w w'
    → AtMostOne Q w w'
AtMostOne-map P Q w w' f (inl e) = inl e
AtMostOne-map P Q w w' f (inr (hex, p, e)) = inr (hex, f hex p, e)

call-ok : {A : Type 0} (x : Answer A) (w : Log) (a : A) → (call x w).0 ≡ ok a → x ≡ answer a
call-ok (answer b) w a e = ground arith
call-ok (raise x) w a e = absurd (ground arith)

module _ (lib : Libtxref) (btc : Btc) (fpu : Fpu) (signed : Bool) (input : CreateInput) where
  -- What `make_signed` returns is signed.
  pub make_signed-IsSigned :
      (u : Unspent) (w : Log) (hex : Str)
      → (make_signed lib btc fpu signed input u w).0 ≡ ok hex
      → IsSigned btc input hex
  unfolding make_signed
  make_signed-IsSigned u w hex h =
      let paid =
        amounts input.output_address
          (btc_to_string fpu (satoshi2btc fpu (change_of lib btc fpu signed u input)))
          (encode_op_return_data signed input.ddo_ref) in
      let n = unsigned_of_int u.utxo_index in
      elim (Answer-cases (btc.createrawtransaction (record { txid = u.txid; n = n } ∷ []) paid)) [
        | inr (x, e) ↦ absurd (ground arith)
        | inl (raw, e) ↦
            let spent : List SignRawTxIn =
              record {
                txid = u.txid;
                n = n;
                script_pub_key = u.script_pub_key_hex;
                redeem_script = u.redeem_script;
                witness_script = u.witness_script;
                amount = btc_to_string fpu (satoshi2btc fpu u.amount_satoshis);
              }
              ∷ [] in
            elim (Answer-cases
              (btc.signrawtransactionwithkey raw spent (input.private_key ∷ []) (bytes "ALL"))) [
                | inr (x, f) ↦ absurd (ground arith)
                | inl (signed_raw, f) ↦
                    let same : signed_raw ≡ hex = ground arith in
                    (ground arith, (raw, spent, f ∙ ap answer same))
              ]
      ]

  finish-AtMostOne :
      (P : Str → Type 0) (hex : Str) (w : Log)
      → P hex
      → AtMostOne P w (finish lib btc fpu signed input hex w).1
  unfolding finish print_as_json
  finish-AtMostOne P hex w p = elim (Bool-cases input.dryrun) [
    | inl dry ↦ inl (ground arith)
    | inr wet ↦ inr (hex, p, ground arith)
  ]

  create-AtMostOne :
      (w : Log) → AtMostOne (IsSigned btc input) w (create lib btc fpu signed input w).1
  unfolding create
  create-AtMostOne w =
      let P = IsSigned btc input in
      let last = λ (hex : Str). finish lib btc fpu signed input hex in
      let sign = λ (u : Unspent). make_signed lib btc fpu signed input u >>= last in
      let spend = λ (t : Transaction). find_unspent lib btc fpu signed t >>= sign in
      let start = λ (c : BlockchainInfo). find_input lib btc input >>= spend in
      >>=-AtMostOne P (call btc.getblockchaininfo) start (call-Submitless _) w λ c w1 _.
        >>=-AtMostOne P (find_input lib btc input) spend (find_input-Submitless lib btc input) w1
          λ t w2 _.
            >>=-AtMostOne P (find_unspent lib btc fpu signed t) sign
              (find_unspent-Submitless lib btc fpu signed t) w2
              λ u w3 _.
                >>=-AtMostOne P (make_signed lib btc fpu signed input u) last
                  (make_signed-Submitless lib btc fpu signed input u) w3
                  λ hex w4 e. finish-AtMostOne P hex w4 (make_signed-IsSigned u w3 hex e)

-- A run of createBtcrDid behind its command line submits nothing or one transaction, however it
-- ends; that one is not empty, and is what the connected node returned for a signature with the
-- private key of the command line.
pub run-AtMostOne :
    (lib : Libtxref) (fpu : Fpu) (signed : Bool) (connect : RpcConfig → Answer Btc)
    (config : RpcConfig) (input : CreateInput) (w : Log)
    → AtMostOne
        (λ hex. (btc : Btc) × (connect config ≡ answer btc) × IsSigned btc input hex)
        w
        (run lib fpu signed connect config input w).1
unfolding run
run-AtMostOne lib fpu signed connect config input w =
    let P = λ (hex : Str). (btc : Btc) × (connect config ≡ answer btc) × IsSigned btc input hex in
    try_catch-AtMostOne P (call (connect config) >>= λ btc. create lib btc fpu signed input) handle
      w
      (>>=-AtMostOne P (call (connect config)) (λ btc. create lib btc fpu signed input)
        (call-Submitless _) w
        λ btc w' e.
          AtMostOne-map (IsSigned btc input) P w' (create lib btc fpu signed input w').1
            (λ hex p. (btc, call-ok (connect config) w btc e, p))
            (create-AtMostOne lib btc fpu signed input w'))
      handle-Submitless
