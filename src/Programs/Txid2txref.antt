-- ===== src/Programs/Txid2txref.antt =====
-- src/txid2txref.cpp
pub mod DidText
pub mod Printed
use btcr_did_method.Base.{
  Bool, true, false, not, Option, none, some, Str, bytes, is_empty, find_first_of, drop, ℤ, pos,
  negsuc, ltb_ℤ, eqb_ℤ, List, [], ◌∷◌, ◌++◌, if◌then◌else◌, Message,
}
use btcr_did_method.Base.Answer.{Answer, call}
use btcr_did_method.Base.Run.{
  Run, Exception, bitcoin, runtime, foreign, out_of_range, stderr, stdout, failed, pure, throw,
  exit, emit, when, try_catch, ◌>>=◌, ◌>>◌,
}
use btcr_did_method.Libtxref.{Libtxref, InputParam}
use btcr_did_method.Rpc.{RpcConfig, Btc}
use btcr_did_method.T2t.{Transaction, encode_txid, decode_txref}
use btcr_did_method.Base.{to_string}
use btcr_did_method.CommandLine.{AnyOption, Parsed, stop, proceed, QueryInput, parse_query}

-- `txref2did`; `substr` throws at `npos`.
unfoldable pub txref2did : Str → Run Str
txref2did txref = elim (is_empty txref) [
  | true ↦ pure (bytes "")
  | false ↦ elim (find_first_of txref (bytes ":")) [
    | none ↦ throw out_of_range
    | some position ↦ pure (bytes "did:btcr" ++ drop position txref)
  ]
]

-- `printAsJson`
unfoldable pub print_as_json : Transaction → Run (Unit {0})
unfolding txref2did
print_as_json t = do
  did ← txref2did t.txref
  emit (
      stdout (
        Message.json (
          (bytes "txid", t.txid)
          ∷ (bytes "txref", t.txref)
          ∷ (bytes "did", did)
          ∷ (bytes "network", t.network)
          ∷ (bytes "block-height", to_string t.block_height)
          ∷ (bytes "transaction-index", to_string t.transaction_index)
          ∷ (bytes "txo-index", to_string t.txo_index)
          ∷ (bytes "query-string", t.query)
          ∷ [])))

-- The handlers of `main`.
unfoldable pub handle : Str → Exception → Run ℤ
handle query (bitcoin code message) =
    if eqb_ℤ code (negsuc 4)
    then (do emit (stderr (Message.transaction_not_found query)); exit failed)
    else (do emit (stderr (Message.bitcoind_error code message)); exit failed)
handle query (runtime m) = do emit (stderr (Message.what m)); exit failed
handle query (foreign n) = throw (foreign n)

module _ (lib : Libtxref) where
  -- The conversion, by the kind of the query.
  unfoldable pub convert : Btc → QueryInput → Run Transaction
  convert btc input = elim (lib.classify_input_string input.query) [
    | InputParam.txid ↦
        encode_txid lib btc input.query
          (if ltb_ℤ input.txo_index (pos 0) then pos 0 else input.txo_index)
    | InputParam.txref ↦ do
      transaction ← decode_txref lib btc input.query
      when (not (ltb_ℤ input.txo_index (pos 0)))
          (emit (stderr (Message.txo_index_ignored input.txo_index transaction.txo_index)))
      pure transaction
    | InputParam.txrefext ↦ do
      transaction ← decode_txref lib btc input.query
      when (not (ltb_ℤ input.txo_index (pos 0)))
          (emit (stderr (Message.txo_index_ignored input.txo_index transaction.txo_index)))
      pure transaction
    | InputParam.address ↦ do emit (stderr (Message.invalid_query input.query)); exit failed
    | InputParam.unknown ↦ do emit (stderr (Message.invalid_query input.query)); exit failed
  ]

  -- The part of `main` behind the command line. `connect` is the constructor of the facade.
  unfoldable pub run : (RpcConfig → Answer Btc) → RpcConfig → QueryInput → Run ℤ
  unfolding convert print_as_json handle
  run connect config input =
      try_catch
        (do
          btc ← call (connect config)
          transaction ← convert btc input
          print_as_json transaction
          pure (pos 0))
        (handle input.query)

  -- `main`
  unfoldable pub main :
      {Options : Type 0}
      → AnyOption Options
      → (RpcConfig → Answer Btc)
      → Option Str
      → List Str
      → Run ℤ
  unfolding run
  main any connect home args = do
    parsed ← parse_query any home args
    elim parsed [ stop status ↦ exit status | proceed config input ↦ run connect config input ]
