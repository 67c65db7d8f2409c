-- ===== src/Programs/Elsewhere.antt =====
-- A DID of one network at a node of another one: what didResolver (src/didResolver.cpp) makes of the
-- DID that txid2txref (src/txid2txref.cpp) prints.
use btcr_did_method.Base.{
  ℕ, ◌<◌, ◌≡◌, ◌≢◌, ap, ◌∙◌, Bool, true, none, some, Str, bytes, lowercase, get_elem?, ℤ, pos, ◌≤ℤ◌,
  size_of_int, ◌∷◌, ◌++◌, All, if◌then◌else◌, Message,
}
use btcr_did_method.Base.Answer.{Answer, answer}
use btcr_did_method.Base.Run.{Log, ok, exits, failed, stdout}
use btcr_did_method.Libtxref.{Libtxref, IsLawful, HasThreePrefixes}
use btcr_did_method.Rpc.{RpcConfig, Btc, BlockInfo, BlockchainInfo, UtxoInfo}
use btcr_did_method.Curl.{Curl}
use btcr_did_method.Json.{JsonOps}
use btcr_did_method.T2t.{Transaction, encode_txid, decode_txref}
use btcr_did_method.T2t.RoundTrip.{IsKnown}
use btcr_did_method.T2t.Networks.{decode-encode_txid, encode_txid-decode_txref_elsewhere}
use btcr_did_method.Domain.Txid
use btcr_did_method.Domain.Txid.{Txid}
use btcr_did_method.Domain.Txref.RoundTrip.{parse_lem}
use btcr_did_method.Domain.Did.{is_txref}
use btcr_did_method.ChainSo.Ledger.{Ledger, Tip, Serves}
use btcr_did_method.Programs.Composition.{referred}
use btcr_did_method.Programs.Txid2txref.{txref2did}
use btcr_did_method.Programs.Txid2txref.DidText.{txref2did-make}
use btcr_did_method.Programs.DidResolver.{is_unspent, run}
use btcr_did_method.Programs.DidResolver.Whole.{run-Tip}

module _ (lib : Libtxref) (here there : Btc) {Json : Type 0} (ops : JsonOps Json) (curl : Curl)
    (patience fuel : ℕ) (ledger : Ledger) where
  -- An output of a transaction is encoded by txid2txref at a node of one of the three networks. Its
  -- txref is a prefix without a colon, a colon and a rest in lower case, which libtxref classifies as
  -- a txref and decodes as the whole; libtxref is lawful, and its prefixes differ. At a node of
  -- another of the three networks, whose block at the same height has a transaction `x` at the same
  -- index, from whose text a `Txid` can be constructed, `decodeTxref` refuses the txref; but
  -- didResolver takes the DID that txid2txref printed for it for one of `x`: it ends with the status
  -- 0 and prints the tip of the chain of updates from the output of `x` with the same index, where
  -- chain.so serves a ledger of such a chain, as in a run for a DID of its own network.
  pub run-encode_txid_elsewhere :
      IsLawful lib
      → HasThreePrefixes lib
      → (c c' : BlockchainInfo) (txid : Str) (i : ℤ) (t : Transaction) (hrp rest hash : Str)
        (block : BlockInfo) (other : Str) (x : Txid) (connect : RpcConfig → Answer Btc)
        (config : RpcConfig) (flag : Bool) (info : UtxoInfo) (hops : ℕ) (tip : Str) (w w' : Log)
      → here.getblockchaininfo ≡ answer c
      → there.getblockchaininfo ≡ answer c'
      → IsKnown c.chain
      → IsKnown c'.chain
      → c'.chain ≢ c.chain
      → pos 0 ≤ℤ i
      → (encode_txid lib here txid i w).0 ≡ ok t
      → t.txref ≡ hrp ++ b':' ∷ rest
      → All (λ b. b ≢ b':') hrp
      → lowercase rest ≡ rest
      → is_txref (lib.classify_input_string rest) ≡ true
      → lib.decode rest ≡ lib.decode t.txref
      → there.getblockhash t.block_height ≡ answer hash
      → there.getblock hash ≡ answer block
      → get_elem? block.tx (size_of_int t.transaction_index) ≡ some other
      → Txid.make there other w' ≡ (ok x, w')
      → connect config ≡ answer there
      → Serves ledger ops curl patience (if x.testnet then bytes "test" else bytes "main")
      → there.gettxout x.txid_str i ≡ answer info
      → (is_unspent info ≡ true → ledger.spent_by x.txid_str i ≡ none)
      → Tip ledger x.txid_str i hops tip
      → hops < fuel
      → ((decode_txref lib there t.txref w').0 ≡ exits failed)
        × ((did : Str) × (end : Log) × (txref2did t.txref w' ≡ (ok did, w'))
            × (run ops curl patience fuel lib connect config (did, flag) w' ≡ (
              if flag then exits (pos 0) else ok (pos 0),
              stdout (Message.last_txid tip) ∷ end,
            )))
  run-encode_txid_elsewhere lawful three c c' txid i t hrp rest hash block other x connect config
        flag info hops tip w w' asked asked' known known' differ nonneg encoded text no_colon lower
        classified short eh eb at made connected serves spent agrees chain lt =
      let decoded = decode-encode_txid lib here c txid i w t lawful asked encoded in
      let parsed =
        parse_lem lib there _ hash block rest other x w' (short ∙ decoded) eh eb at made nonneg in
      let (did, printed, accepted) =
        txref2did-make lib there hrp rest (referred lib there x i rest) w' w' w' no_colon lower
          classified parsed in
      let (end, resolved) =
        run-Tip ops curl patience fuel ledger lib connect config there did flag
          (record { txref = referred lib there x i rest }) info hops tip w' connected accepted
          serves spent agrees chain lt in
      let refused =
        encode_txid-decode_txref_elsewhere lib here there lawful three c c' txid i w w' t asked
          asked' known known' differ encoded in
      (ap (λ r. r.0) refused, (did, end, ap (λ s. txref2did s w') text ∙ printed, resolved))
