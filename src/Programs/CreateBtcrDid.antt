-- ===== src/Programs/CreateBtcrDid.antt =====
-- src/createBtcrDid.cpp
pub mod DryRun
pub mod Layout
pub mod Payment
pub mod Submits
pub mod Encoded
pub mod Given
pub mod Parsing
pub mod Arguments
pub mod Submission
pub mod Success
pub mod Outputs
use btcr_did_method.Base.{
  Bool, true, false, not, ◌&&◌, Option, none, some, Str, bytes, str_eq, is_empty, ltb, ◌==◌, ℤ, pos,
  negsuc, ltb_ℤ, eqb_ℤ, ◌-ℤ◌, unsigned_of_int, List, [], ◌∷◌, length, if◌then◌else◌, Message,
}
use btcr_did_method.Base.Answer.{Answer, call}
use btcr_did_method.Base.Run.{
  Run, Exception, bitcoin, runtime, foreign, stderr, stdout, submit, failed, pure, throw, exit,
  abort, emit, require_or_exit, try_catch, ◌>>=◌, ◌>>◌,
}
use btcr_did_method.Libtxref.{Libtxref, InputParam}
use btcr_did_method.Rpc.{RpcConfig, Btc, TxOut, UtxoInfo, SignRawTxIn, AddressInfo, Double}
use btcr_did_method.Satoshis.{Fpu, btc2satoshi, satoshi2btc, btc_to_string}
use btcr_did_method.OpReturn.{encode_op_return_data}
use btcr_did_method.T2t.{Transaction, no_transaction, decode_txref}
use btcr_did_method.CommandLine.{AnyOption, Parsed, stop, proceed, CreateInput, parse_create}

-- `UnspentData` of this file
pub record Unspent : Type 0 where
  pub address : Str
  pub txid : Str
  pub script_pub_key_hex : Str
  pub redeem_script : Str
  pub witness_script : Str
  pub amount_satoshis : ℤ
  pub utxo_index : ℤ

unfoldable pub extract_witness_script : AddressInfo → Str
extract_witness_script info = if info.iswitness then info.witness_program else bytes ""

unfoldable pub extract_redeem_script : AddressInfo → Str
extract_redeem_script info =
    if info.isscript
    then (if str_eq info.script (bytes "witness_v0_keyhash") then info.hex else bytes "")
    else bytes ""

-- `std::less` on strings, by bytes.
unfoldable pub str_less : Str → Str → Bool
str_less [] [] = false
str_less [] (d ∷ t) = true
str_less (c ∷ s) [] = false
str_less (c ∷ s) (d ∷ t) = let rest = str_less s t in if ltb c d then true else c == d && rest

-- `std::map::insert`: in the order of the keys; a key that is there keeps its value.
unfoldable pub map_insert : Str → Str → List (Str × Str) → List (Str × Str)
unfolding str_less
map_insert k v [] = (k, v) ∷ []
map_insert k v ((j, u) ∷ m) =
    let later = (j, u) ∷ map_insert k v m in
    if str_less k j then (k, v) ∷ (j, u) ∷ m else if str_less j k then later else (j, u) ∷ m

-- The outputs: the change to the address, and the data.
unfoldable pub amounts : Str → Str → Str → List (Str × Str)
unfolding map_insert
amounts output_address change encoded =
    map_insert (bytes "data") encoded (map_insert output_address change [])

-- `printAsJson`
unfoldable pub print_as_json : Str → Run (Unit {0})
print_as_json txid =
    if is_empty txid
    then emit (
        stdout
          (Message.json ((bytes "error", bytes "the network did not accept our transaction") ∷ [])))
    else emit (
        stdout (
          Message.json (
            (bytes "comment", bytes "transaction submitted")
            ∷ (bytes "txid", txid)
            ∷ (bytes "txoIndex", bytes "1")
            ∷ [])))

-- The handlers of `main`.
unfoldable pub handle : Exception → Run ℤ
handle (bitcoin code message) = do emit (stderr (Message.bitcoind_error code message)); exit failed
handle (runtime m) = do emit (stderr (Message.what m)); exit failed
handle (foreign n) = throw (foreign n)

module _ (lib : Libtxref) (btc : Btc) where
  -- `getTransaction`
  unfoldable pub get_transaction : CreateInput → Run Transaction
  get_transaction input = do
    transaction ← decode_txref lib btc input.query
    elim (not (ltb_ℤ input.txo_index (pos 0)) && eqb_ℤ input.txo_index transaction.txo_index) [
      | true ↦ do
        emit (stderr (Message.txo_index_not_needed input.txo_index transaction.txo_index))
        pure transaction
      | false ↦ elim (ltb_ℤ (pos 0) input.txo_index) [
        | true ↦ do
          emit (stderr (Message.txo_index_not_supported input.txo_index transaction.txo_index))
          exit failed
        | false ↦ pure transaction
      ]
    ]

  -- The transaction whose output is spent, by the kind of the query.
  unfoldable pub find_input : CreateInput → Run Transaction
  unfolding get_transaction
  find_input input = elim (lib.classify_input_string input.query) [
    | InputParam.address ↦ do emit (stderr Message.address_not_supported); exit failed
    | InputParam.txref ↦ get_transaction input
    | InputParam.txrefext ↦ get_transaction input
    | InputParam.txid ↦ pure (record no_transaction {
      txid = input.query;
      txo_index = if ltb_ℤ input.txo_index (pos 0) then pos 0 else input.txo_index;
      query = input.query;
    })
    | InputParam.unknown ↦ pure no_transaction
  ]

  -- `addresses[0]`, after the assertion that there is exactly one.
  unfoldable pub only_address : List Str → Run Str
  only_address [] = abort
  only_address (address ∷ []) = pure address
  only_address (address ∷ other ∷ rest) = abort

  module _ (fpu : Fpu) (signed : Bool) where
    -- The data of the output that is spent.
    unfoldable pub find_unspent : Transaction → Run Unspent
    unfolding extract_redeem_script extract_witness_script only_address
    find_unspent transaction = do
      utxoinfo ← call (btc.gettxout transaction.txid transaction.txo_index)
      require_or_exit (not (is_empty utxoinfo.bestblock && eqb_ℤ utxoinfo.confirmations (pos 0)))
          (Message.output_has_no_value transaction.query transaction.txo_index)
      address ← only_address utxoinfo.addresses
      info ← call (btc.getaddressinfo address)
      pure (record {
        address = address;
        txid = transaction.txid;
        script_pub_key_hex = utxoinfo.script_pub_key_hex;
        redeem_script = extract_redeem_script info;
        witness_script = extract_witness_script info;
        amount_satoshis = btc2satoshi fpu utxoinfo.value;
        utxo_index = transaction.txo_index;
      })

    -- `int64_t change`
    unfoldable pub change_of : Unspent → CreateInput → ℤ
    change_of unspent input = unspent.amount_satoshis -ℤ btc2satoshi fpu input.fee

    -- The signed transaction.
    unfoldable pub make_signed : CreateInput → Unspent → Run Str
    unfolding change_of amounts
    make_signed input unspent = do
      raw ← call (
          btc.createrawtransaction
            (record { txid = unspent.txid; n = unsigned_of_int unspent.utxo_index } ∷ [])
            (amounts input.output_address
              (btc_to_string fpu (satoshi2btc fpu (change_of unspent input)))
              (encode_op_return_data signed input.ddo_ref)))
      signed_raw ← call (
          btc.signrawtransactionwithkey raw
            (record {
              txid = unspent.txid;
              n = unsigned_of_int unspent.utxo_index;
              script_pub_key = unspent.script_pub_key_hex;
              redeem_script = unspent.redeem_script;
              witness_script = unspent.witness_script;
              amount = btc_to_string fpu (satoshi2btc fpu unspent.amount_satoshis);
            }
              ∷ [])
            (input.private_key ∷ []) (bytes "ALL"))
      require_or_exit (not (is_empty signed_raw)) Message.not_signed
      pure signed_raw

    -- `sendrawtransaction`, with the submission as an event.
    abbrev send : Str → Run Str
    send hex = do emit (submit hex); call (btc.sendrawtransaction hex)

    -- The submission, unless it is a dry run.
    unfoldable pub finish : CreateInput → Str → Run ℤ
    unfolding print_as_json
    finish input signed_raw = elim input.dryrun [
      | true ↦ do emit (stdout Message.signed_only); pure (pos 0)
      | false ↦ do
        emit (stdout Message.signed_and_submitting)
        txid ← send signed_raw
        emit (stdout (Message.plain_text (bytes "txid2txref")))
        print_as_json txid
        pure (pos 0)
    ]

    -- The body of the `try` block, behind the construction of the facade.
    unfoldable pub create : CreateInput → Run ℤ
    unfolding find_input find_unspent make_signed finish
    create input = do
      chain_info ← call btc.getblockchaininfo
      transaction ← find_input input
      unspent ← find_unspent transaction
      signed_raw ← make_signed input unspent
      finish input signed_raw

module _ (lib : Libtxref) (fpu : Fpu) (signed : Bool) where
  unfoldable pub run : (RpcConfig → Answer Btc) → RpcConfig → CreateInput → Run ℤ
  unfolding create handle
  run connect config input =
      try_catch (do btc ← call (connect config); create lib btc fpu signed input) handle

  -- `main`
  unfoldable pub main :
      {Options : Type 0}
      → AnyOption Options
      → (RpcConfig → Answer Btc)
      → Option Str
      → List Str
      → Run ℤ
  unfolding run
  main any connect home args = do
    parsed ← parse_create any fpu.stod home args
    elim parsed [ stop status ↦ exit status | proceed config input ↦ run connect config input ]
