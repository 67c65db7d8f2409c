-- ===== src/Programs/Composition.antt =====
-- The programs one after the other: what didResolver (src/didResolver.cpp) makes of the DID that
-- txid2txref (src/txid2txref.cpp) prints for a transaction.
use btcr_did_method.Base.{
  ℕ, ◌<◌, ◌≡◌, ◌≢◌, ap, sym, ◌∙◌, Bool, true, none, Str, bytes, lowercase, ℤ, pos, ◌≤ℤ◌, ◌∷◌, ◌++◌,
  All, if◌then◌else◌, Message,
}
use btcr_did_method.Base.Answer.{Answer, answer}
use btcr_did_method.Base.Run.{Log, ok, exits, stdout}
use btcr_did_method.Libtxref.{Libtxref, IsLawful}
use btcr_did_method.Rpc.{RpcConfig, Btc, RawTransaction, UtxoInfo, IsActive}
use btcr_did_method.Curl.{Curl}
use btcr_did_method.Json.{JsonOps}
use btcr_did_method.T2t.{Transaction, encode_txid}
use btcr_did_method.T2t.RoundTrip.{encode_txid-answers, encode_txid-Encoded, Encoded-Located}
use btcr_did_method.Domain.Txid
use btcr_did_method.Domain.Txid.{Txid}
use btcr_did_method.Domain.Txid.Quiet.{make_quiet}
use btcr_did_method.Domain.Txref
use btcr_did_method.Domain.Txref.{Txref}
use btcr_did_method.Domain.Txref.RoundTrip.{parse_lem}
use btcr_did_method.Domain.Did.{is_txref}
use btcr_did_method.ChainSo.Ledger.{Ledger, Tip, Serves}
use btcr_did_method.Programs.Txid2txref.{txref2did}
use btcr_did_method.Programs.Txid2txref.DidText.{txref2did-make}
use btcr_did_method.Programs.DidResolver.{is_unspent, run}
use btcr_did_method.Programs.DidResolver.Whole.{run-Tip}

module _ (lib : Libtxref) (btc : Btc) where
  constructed_again :
      (txid : Str) (x : Txid) (w w' : Log)
      → (Txid.make btc txid w).0 ≡ ok x
      → Txid.make btc txid w' ≡ (ok x, w')
  constructed_again txid x w w' h =
      make_quiet btc txid w' ∙ ap (λ o. (o, w')) (sym (ap (λ p. p.0) (make_quiet btc txid w)) ∙ h)

  -- The `Txref` that the text without the prefix stands for.
  abbrev pub referred : Txid → ℤ → Str → Txref
  referred x i rest = record { txid = x; vout = record { index = i }; txref_str = rest }

  -- An encoded txref without its prefix is read as the transaction and the output index it was
  -- encoded from, where libtxref decodes it as it decodes the whole text.
  encode_txid-parse :
      IsLawful lib
      → (txid : Str) (i : ℤ) (t : Transaction) (rest : Str) (x : Txid) (w w' w'' : Log)
      → ((raw : RawTransaction)
          → btc.getrawtransaction txid (pos 1) ≡ answer raw
          → IsActive btc raw.blockhash)
      → pos 0 ≤ℤ i
      → (encode_txid lib btc txid i w).0 ≡ ok t
      → (Txid.make btc txid w').0 ≡ ok x
      → lib.decode rest ≡ lib.decode t.txref
      → Txref.parse lib btc rest w'' ≡ (ok (referred x i rest), w'')
  encode_txid-parse lawful txid i t rest x w w' w'' active nonneg encoded constructed short =
      let (c, raw, block, ec, er, eb) = encode_txid-answers lib btc txid i w t encoded in
      let e = encode_txid-Encoded lib btc c raw block txid i w t ec er eb encoded in
      let l = Encoded-Located lib btc lawful c raw block txid i t eb (active raw er) e in
      let index : t.txo_index ≡ i = ap (λ (u : Transaction). u.txo_index) e.fields in
      parse_lem lib btc _ raw.blockhash block rest txid x w'' (short ∙ l.decoded) l.hash_answered
        l.block_answered l.at_index (constructed_again txid x w' w'' constructed) (rw index nonneg)
      ∙ ap (λ j. (ok (referred x j rest), w'')) index

  module _ {Json : Type 0} (ops : JsonOps Json) (curl : Curl) (patience fuel : ℕ)
      (ledger : Ledger) where
    -- An output of a transaction, whose text makes a `Txid`, is encoded by txid2txref. Its txref is a
    -- prefix without a colon, a colon and a rest in lower case, which libtxref classifies as a txref
    -- and decodes as the whole; libtxref is lawful, and the block is in the active chain. chain.so
    -- serves a ledger, in which an output is unspent that the node reports as such, and in which the
    -- chain from the output reaches its tip in fewer hops than there is fuel. Then txid2txref has a
    -- DID to print, and for that DID didResolver ends with the status 0 and prints the tip last.
    pub run-encode_txid :
        IsLawful lib
        → (txid : Str) (i : ℤ) (t : Transaction) (hrp rest : Str) (x : Txid)
          (connect : RpcConfig → Answer Btc) (config : RpcConfig) (flag : Bool) (info : UtxoInfo)
          (hops : ℕ) (tip : Str) (w w' w'' : Log)
        → ((raw : RawTransaction)
            → btc.getrawtransaction txid (pos 1) ≡ answer raw
            → IsActive btc raw.blockhash)
        → pos 0 ≤ℤ i
        → (encode_txid lib btc txid i w).0 ≡ ok t
        → (Txid.make btc txid w').0 ≡ ok x
        → t.txref ≡ hrp ++ b':' ∷ rest
        → All (λ c. c ≢ b':') hrp
        → lowercase rest ≡ rest
        → is_txref (lib.classify_input_string rest) ≡ true
        → lib.decode rest ≡ lib.decode t.txref
        → connect config ≡ answer btc
        → Serves ledger ops curl patience (if x.testnet then bytes "test" else bytes "main")
        → btc.gettxout x.txid_str i ≡ answer info
        → (is_unspent info ≡ true → ledger.spent_by x.txid_str i ≡ none)
        → Tip ledger x.txid_str i hops tip
        → hops < fuel
        → (did : Str) × (end : Log) × (txref2did t.txref w'' ≡ (ok did, w''))
          × (run ops curl patience fuel lib connect config (did, flag) w''
              ≡ (if flag then exits (pos 0) else ok (pos 0), stdout (Message.last_txid tip) ∷ end))
    run-encode_txid lawful txid i t hrp rest x connect config flag info hops tip w w' w'' active
          nonneg encoded constructed text no_colon lower classified short connected serves asked
          agrees chain lt =
        let parsed =
          encode_txid-parse lawful txid i t rest x w w' w'' active nonneg encoded constructed
            short in
        let (did, printed, accepted) =
          txref2did-make lib btc hrp rest (referred x i rest) w'' w'' w'' no_colon lower classified
            parsed in
        let (end, resolved) =
          run-Tip ops curl patience fuel ledger lib connect config btc did flag
            (record { txref = referred x i rest }) info hops tip w'' connected accepted serves asked
            agrees chain lt in
        (did, end, ap (λ s. txref2did s w'') text ∙ printed, resolved)
