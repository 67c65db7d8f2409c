-- ===== src/Programs/DidResolver/Whole.antt =====
-- A whole run of didResolver (src/didResolver.cpp), from a DID to the tip of its chain.
use btcr_did_method.Base.{
  ℕ, ◌<◌, ◌≡◌, Bool, true, Bool-cases, inl, inr, none, ℤ, Str, bytes, pos, ◌∷◌, if◌then◌else◌,
  Message, arith,
}
use btcr_did_method.Base.Answer.{Answer, answer}
use btcr_did_method.Base.Run.{Log, ok, exits, stdout}
use btcr_did_method.Rpc.{RpcConfig, Btc, UtxoInfo}
use btcr_did_method.Curl.{Curl}
use btcr_did_method.Json.{JsonOps}
use btcr_did_method.Libtxref.{Libtxref}
use btcr_did_method.Domain.Txref.{Txref}
use btcr_did_method.Domain.Did
use btcr_did_method.Domain.Did.{Did}
use btcr_did_method.ChainSo.{get_last_updated_txid}
use btcr_did_method.ChainSo.Ledger.{Ledger, Tip, unspent, spent, Serves}
use btcr_did_method.ChainSo.Chain.{get_last_updated_txid-reaches}
use btcr_did_method.Programs.DidResolver.{is_unspent, find_tip, resolve, run}

module _ {Json : Type 0} (ops : JsonOps Json) (curl : Curl) (patience fuel : ℕ) (ledger : Ledger)
    (lib : Libtxref) where
  abbrev network_of : Txref → Str
  network_of txref = if txref.txid.testnet then bytes "test" else bytes "main"

  Tip-unspent :
      {txid tip : Str} {i : ℤ} {hops : ℕ}
      → Tip ledger txid i hops tip
      → ledger.spent_by txid i ≡ none
      → txid ≡ tip
  Tip-unspent (unspent zero_hops e same) h = same
  Tip-unspent (spent e next_index rest) h = absurd (ground (arith, e, h))

  -- The tip is printed last.
  find_tip_printed :
      (btc : Btc) (txref : Txref) (info : UtxoInfo) (hops : ℕ) (tip : Str) (w : Log)
      → Serves ledger ops curl patience (network_of txref)
      → btc.gettxout txref.txid.txid_str txref.vout.index ≡ answer info
      → (is_unspent info ≡ true → ledger.spent_by txref.txid.txid_str txref.vout.index ≡ none)
      → Tip ledger txref.txid.txid_str txref.vout.index hops tip
      → hops < fuel
      → (w' : Log) × (find_tip ops curl patience fuel lib btc txref w
          ≡ (ok tip, stdout (Message.last_txid tip) ∷ w'))
  unfolding find_tip
  find_tip_printed btc txref info hops tip w serves asked agrees chain lt =
      elim (Bool-cases (is_unspent info)) [
        | inl here ↦ (w, ground (arith, Tip-unspent chain (agrees here)))
        | inr gone ↦
            let reached =
              get_last_updated_txid-reaches ops curl patience ledger (network_of txref) serves fuel
                hops txref.txid.txid_str tip txref.vout.index w chain lt in
            (
              (get_last_updated_txid ops curl patience fuel txref.txid.txid_str txref.vout.index
                  (network_of txref) w).1,
              ground (arith, reached),
            )
      ]

  -- The node is connected and takes the text for a DID, whose output it reports as unspent
  -- only if it is unspent in the ledger; chain.so serves that ledger of the DID's network, and the
  -- chain from the output, of one transaction or more, reaches its tip in fewer hops than there is
  -- fuel. Then the program ends with the status 0, and what it prints last is the
  -- transaction at the tip.
  pub run-Tip :
      (connect : RpcConfig → Answer Btc) (config : RpcConfig) (btc : Btc) (input : Str)
      (flag : Bool) (did : Did) (info : UtxoInfo) (hops : ℕ) (tip : Str) (w : Log)
      → connect config ≡ answer btc
      → Did.make lib btc input w ≡ (ok did, w)
      → Serves ledger ops curl patience (network_of did.txref)
      → btc.gettxout did.txref.txid.txid_str did.txref.vout.index ≡ answer info
      → (is_unspent info ≡ true
          → ledger.spent_by did.txref.txid.txid_str did.txref.vout.index ≡ none)
      → Tip ledger did.txref.txid.txid_str did.txref.vout.index hops tip
      → hops < fuel
      → (w' : Log) × (run ops curl patience fuel lib connect config (input, flag) w
          ≡ (if flag then exits (pos 0) else ok (pos 0), stdout (Message.last_txid tip) ∷ w'))
  unfolding run resolve
  run-Tip connect config btc input flag did info hops tip w connected made serves asked agrees chain
        lt =
      let printed =
        stdout (
          Message.valid_txref did.txref.txref_str did.txref.txid.txid_str
            did.txref.txid.block_height.height did.txref.txid.transaction_index.index
            did.txref.vout.index)
        ∷ w in
      let (w', e) =
        find_tip_printed btc did.txref info hops tip printed serves asked agrees chain lt in
      (w', ground (arith, e))
