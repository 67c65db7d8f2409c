-- ===== src/Programs/DidResolver.antt =====
-- src/didResolver.cpp
pub mod Latest
pub mod Whole
use btcr_did_method.Base.{
  ℕ, Bool, true, false, not, ◌&&◌, Option, Str, bytes, is_empty, ℤ, pos, eqb_ℤ, List, if◌then◌else◌,
  Message,
}
use btcr_did_method.Base.Answer.{Answer, call}
use btcr_did_method.Base.Run.{
  Run, Exception, bitcoin, runtime, foreign, stderr, stdout, failed, pure, throw, exit, emit,
  try_catch, ◌>>=◌, ◌>>◌,
}
use btcr_did_method.Libtxref.{Libtxref}
use btcr_did_method.Rpc.{RpcConfig, Btc, UtxoInfo}
use btcr_did_method.Curl.{Curl}
use btcr_did_method.Json.{JsonOps}
use btcr_did_method.Domain.Txref.{Txref}
use btcr_did_method.Domain.Did
use btcr_did_method.Domain.Did.{Did}
use btcr_did_method.ChainSo.{get_last_updated_txid}
use btcr_did_method.CommandLine.{AnyOption, Parsed, stop, proceed, parse_resolver}

-- The handlers of `main`.
unfoldable pub handle : Exception → Run ℤ
handle (bitcoin code message) = do emit (stderr (Message.bitcoind_error code message)); exit failed
handle (runtime m) = do emit (stderr (Message.what m)); exit failed
handle (foreign n) = throw (foreign n)

-- Did `gettxout` return an output that is not spent?
unfoldable pub is_unspent : UtxoInfo → Bool
is_unspent info = not (is_empty info.bestblock) && not (eqb_ℤ info.confirmations (pos 0))

module _ {Json : Type 0} (ops : JsonOps Json) (curl : Curl) (patience fuel : ℕ)
    (lib : Libtxref) where
  module _ (btc : Btc) where
    -- The transaction that holds the latest version of the DID.
    unfoldable pub find_tip : Txref → Run Str
    unfolding is_unspent
    find_tip txref = do
      info ← call (btc.gettxout txref.txid.txid_str txref.vout.index)
      elim (is_unspent info) [
        | true ↦ do emit (stdout (Message.last_txid txref.txid.txid_str)); pure txref.txid.txid_str
        | false ↦ do
          last ←
              get_last_updated_txid ops curl patience fuel txref.txid.txid_str txref.vout.index
                (if txref.txid.testnet then bytes "test" else bytes "main")
          emit (stdout (Message.last_txid last))
          pure last
      ]

    -- The body of the `try` block, behind the construction of the facade; what is returned is the
    -- `txidForDID`.
    unfoldable pub resolve : Str → Run Str
    unfolding find_tip
    resolve input = do
      did ← Did.make lib btc input
      emit (
          stdout (
            Message.valid_txref did.txref.txref_str did.txref.txid.txid_str
              did.txref.txid.block_height.height did.txref.txid.transaction_index.index
              did.txref.vout.index))
      find_tip did.txref

  unfoldable pub run : (RpcConfig → Answer Btc) → RpcConfig → Str × Bool → Run ℤ
  unfolding resolve handle
  run connect config (input, exit_after_follow_tip) =
      try_catch
        (do
          btc ← call (connect config)
          txid ← resolve btc input
          if exit_after_follow_tip then exit (pos 0) else pure (pos 0))
        handle

  -- `main`
  unfoldable pub main :
      {Options : Type 0}
      → AnyOption Options
      → (RpcConfig → Answer Btc)
      → Option Str
      → List Str
      → Run ℤ
  unfolding run
  main any connect home args = do
    parsed ← parse_resolver any home args
    elim parsed [ stop status ↦ exit status | proceed config input ↦ run connect config input ]
