-- ===== src/Programs/DidResolver/Latest.antt =====
-- What didResolver (src/didResolver.cpp) finds for a DID whose output is spent.
use btcr_did_method.Base.{ℕ, ◌<◌, ◌≡◌, false, Str, bytes, if◌then◌else◌, arith}
use btcr_did_method.Base.Answer.{answer}
use btcr_did_method.Base.Run.{Log, ok}
use btcr_did_method.Rpc.{Btc, UtxoInfo}
use btcr_did_method.Curl.{Curl}
use btcr_did_method.Json.{JsonOps}
use btcr_did_method.Libtxref.{Libtxref}
use btcr_did_method.Domain.Txref.{Txref}
use btcr_did_method.ChainSo.Ledger.{Ledger, Tip, Serves}
use btcr_did_method.ChainSo.Chain.{get_last_updated_txid-reaches}
use btcr_did_method.Programs.DidResolver.{is_unspent, find_tip}

module _ {Json : Type 0} (ops : JsonOps Json) (curl : Curl) (patience : ℕ) (ledger : Ledger)
    (lib : Libtxref) (btc : Btc) where
  -- If the node reports the output of a txref as spent, chain.so serves the ledger of the txref's
  -- network, and the chain from that output reaches its tip in fewer hops than there is fuel, then
  -- the transaction at the tip is what is found.
  pub find_tip-Tip :
      (txref : Txref) (info : UtxoInfo) (fuel hops : ℕ) (tip : Str) (w : Log)
      → Serves ledger ops curl patience (if txref.txid.testnet then bytes "test" else bytes "main")
      → btc.gettxout txref.txid.txid_str txref.vout.index ≡ answer info
      → is_unspent info ≡ false
      → Tip ledger txref.txid.txid_str txref.vout.index hops tip
      → hops < fuel
      → (find_tip ops curl patience fuel lib btc txref w).0 ≡ ok tip
  unfolding find_tip
  find_tip-Tip txref info fuel hops tip w serves asked gone chain lt = ground (
    arith,
    get_last_updated_txid-reaches ops curl patience ledger
        (if txref.txid.testnet then bytes "test" else bytes "main") serves fuel hops
        txref.txid.txid_str tip txref.vout.index w chain lt,
  )
