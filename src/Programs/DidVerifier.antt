-- ===== src/Programs/DidVerifier.antt =====
-- src/didVerifier.cpp, as far as it goes: it connects, asks for the state of the chain, and
-- classifies its input.
use btcr_did_method.Base.{Option, Str, ℤ, pos, List, Message}
use btcr_did_method.Base.Answer.{Answer, call}
use btcr_did_method.Base.Run.{
  Run, Exception, bitcoin, runtime, foreign, stderr, failed, pure, throw, exit, emit, try_catch,
  ◌>>=◌, ◌>>◌,
}
use btcr_did_method.Libtxref.{Libtxref}
use btcr_did_method.Rpc.{RpcConfig, Btc}
use btcr_did_method.CommandLine.{AnyOption, stop, proceed, parse_verifier}

-- The handlers of `main`.
unfoldable pub handle : Exception → Run ℤ
handle (bitcoin code message) = do emit (stderr (Message.bitcoind_error code message)); exit failed
handle (runtime m) = do emit (stderr (Message.what m)); exit failed
handle (foreign n) = throw (foreign n)

module _ (lib : Libtxref) where
  unfoldable pub run : (RpcConfig → Answer Btc) → RpcConfig → Str → Run ℤ
  unfolding handle
  run connect config input =
      try_catch
        (do
          btc ← call (connect config)
          chain_info ← call btc.getblockchaininfo
          let kind = lib.classify_input_string input
          pure (pos 0))
        handle

  -- `main`
  unfoldable pub main :
      {Options : Type 0}
      → AnyOption Options
      → (RpcConfig → Answer Btc)
      → Option Str
      → List Str
      → Run ℤ
  unfolding run
  main any connect home args = do
    parsed ← parse_verifier any home args
    elim parsed [ stop status ↦ exit status | proceed config input ↦ run connect config input ]
