-- ===== src/Programs/CreateBtcrDid/Submits.antt =====
-- A run of createBtcrDid (src/createBtcrDid.cpp) that submits, for any query and for a txid.
use btcr_did_method.Base.{
  ◌^◌, ◌≤◌, ◌≡◌, refl, ap, sym, ◌∙◌, Bool, false, Str, bytes, is_empty, List, [], ◌∷◌, ℤ, pos, ◌-ℤ◌,
  ltb_ℤ, unsigned_of_int, if◌then◌else◌, Message, arith,
}
use btcr_did_method.Base.Answer.{Answer, answer, call}
use btcr_did_method.Base.Run.{Log, ok, stdout, submit, ◌>>=◌}
use btcr_did_method.Base.Steps.{>>=-ok, call-answer, try_catch-ok}
use btcr_did_method.Libtxref.{Libtxref, InputParam}
use btcr_did_method.Rpc.{RpcConfig, Btc, BlockchainInfo, UtxoInfo, AddressInfo, SignRawTxIn, TxOut}
use btcr_did_method.Satoshis.{Fpu, btc2satoshi}
use btcr_did_method.Satoshis.Ieee.{IsIeee, nat_abs}
use btcr_did_method.Satoshis.RoundTrip.{IsAmount, btc2satoshi-IsAmount}
use btcr_did_method.Satoshis.Text.{amount_text, btc_to_string-satoshi2btc}
use btcr_did_method.OpReturn.{encode_op_return_data}
use btcr_did_method.T2t.{Transaction, no_transaction}
use btcr_did_method.CommandLine.{CreateInput}
use btcr_did_method.Programs.CreateBtcrDid.Layout.{PaysNextTo, amounts-PaysNextTo}
use btcr_did_method.Programs.CreateBtcrDid.{
  Unspent, extract_redeem_script, extract_witness_script, amounts, find_input, only_address,
  find_unspent, change_of, make_signed, print_as_json, finish, create, run, handle,
}

-- The output that a txid stands for.
abbrev pub index_of : CreateInput → ℤ
index_of input = if ltb_ℤ input.txo_index (pos 0) then pos 0 else input.txo_index

abbrev pub spent_transaction : CreateInput → Transaction
spent_transaction input = record no_transaction {
  txid = input.query;
  txo_index = index_of input;
  query = input.query;
}

-- What is asked of the node, with the amounts in satoshis.
abbrev pub spent_output : Transaction → TxOut
spent_output t = record { txid = t.txid; n = unsigned_of_int t.txo_index }

abbrev pub signed_input : Transaction → UtxoInfo → AddressInfo → ℤ → SignRawTxIn
signed_input t info owner a = record {
  txid = t.txid;
  n = unsigned_of_int t.txo_index;
  script_pub_key = info.script_pub_key_hex;
  redeem_script = extract_redeem_script owner;
  witness_script = extract_witness_script owner;
  amount = amount_text a;
}

abbrev pub paid_outputs : Bool → CreateInput → ℤ → List (Str × Str)
paid_outputs signed input change =
    amounts input.output_address (amount_text change) (encode_op_return_data signed input.ddo_ref)

-- What is printed when the network accepts the transaction.
abbrev pub submitted : Str → Message
submitted id = Message.json (
    (bytes "comment", bytes "transaction submitted")
    ∷ (bytes "txid", id)
    ∷ (bytes "txoIndex", bytes "1")
    ∷ [])

module _ (lib : Libtxref) (btc : Btc) where
  find_input_txid :
      (input : CreateInput) (w : Log)
      → lib.classify_input_string input.query ≡ InputParam.txid
      → find_input lib btc input w ≡ (ok (spent_transaction input), w)
  unfolding find_input
  find_input_txid input w kind = ground arith

  module _ (fpu : Fpu) (signed : Bool) where
    -- The output that is found, by the answers of the node.
    unspent_of : Transaction → UtxoInfo → AddressInfo → Str → ℤ → Unspent
    unspent_of t info owner address a = record {
      address = address;
      txid = t.txid;
      script_pub_key_hex = info.script_pub_key_hex;
      redeem_script = extract_redeem_script owner;
      witness_script = extract_witness_script owner;
      amount_satoshis = a;
      utxo_index = t.txo_index;
    }

    find_unspent_answers :
        (t : Transaction) (info : UtxoInfo) (owner : AddressInfo) (address : Str) (a : ℤ) (w : Log)
        → btc.gettxout t.txid t.txo_index ≡ answer info
        → is_empty info.bestblock ≡ false
        → info.addresses ≡ address ∷ []
        → btc.getaddressinfo address ≡ answer owner
        → btc2satoshi fpu info.value ≡ a
        → find_unspent lib btc fpu signed t w ≡ (ok (unspent_of t info owner address a), w)
    unfolding find_unspent only_address unspent_of
    find_unspent_answers t info owner address a w asked used one owned worth = ground arith

    make_signed_answers :
        (ieee : IsIeee fpu) (input : CreateInput) (t : Transaction) (info : UtxoInfo)
        (owner : AddressInfo) (address raw hex : Str) (a f : ℤ) (w : Log)
        → btc2satoshi fpu input.fee ≡ f
        → nat_abs a ≤ 2 ^ 50
        → nat_abs (a -ℤ f) ≤ 2 ^ 50
        → btc.createrawtransaction (spent_output t ∷ []) (paid_outputs signed input (a -ℤ f))
          ≡ answer raw
        → btc.signrawtransactionwithkey raw
            (signed_input t info owner a ∷ [])
            (input.private_key ∷ [])
            (bytes "ALL")
          ≡ answer hex
        → is_empty hex ≡ false
        → make_signed lib btc fpu signed input (unspent_of t info owner address a) w ≡ (ok hex, w)
    unfolding make_signed change_of unspent_of
    make_signed_answers ieee input t info owner address raw hex a f w paid small_a small created
          done some_hex =
        rw
          (
            paid,
            btc_to_string-satoshi2btc fpu ieee (a -ℤ f) small,
            btc_to_string-satoshi2btc fpu ieee a small_a,
            created,
            done,
            some_hex,
          )
          refl

    finish_accepted :
        (input : CreateInput) (hex id : Str) (w : Log)
        → input.dryrun ≡ false
        → btc.sendrawtransaction hex ≡ answer id
        → is_empty id ≡ false
        → finish lib btc fpu signed input hex w ≡ (
          ok (pos 0),
          stdout (submitted id)
              ∷ stdout (Message.plain_text (bytes "txid2txref"))
              ∷ submit hex
              ∷ stdout Message.signed_and_submitting
              ∷ w,
        )
    unfolding finish print_as_json
    finish_accepted input hex id w wet sent accepted = rw (wet, sent, accepted) refl

-- A run that spends the output that the query stands for, whatever kind of query it is.
pub run_pays :
    (lib : Libtxref) (fpu : Fpu) (signed : Bool) (ieee : IsIeee fpu)
    (connect : RpcConfig → Answer Btc) (config : RpcConfig) (input : CreateInput) (btc : Btc)
    (chain : BlockchainInfo) (t : Transaction) (info : UtxoInfo) (owner : AddressInfo)
    (address raw hex id : Str) (a f : ℤ) (w : Log)
    → connect config ≡ answer btc
    → btc.getblockchaininfo ≡ answer chain
    → find_input lib btc input w ≡ (ok t, w)
    → btc.gettxout t.txid t.txo_index ≡ answer info
    → is_empty info.bestblock ≡ false
    → info.addresses ≡ address ∷ []
    → btc.getaddressinfo address ≡ answer owner
    → IsAmount fpu ieee info.value a
    → IsAmount fpu ieee input.fee f
    → nat_abs a ≤ 2 ^ 50
    → nat_abs f ≤ 2 ^ 50
    → nat_abs (a -ℤ f) ≤ 2 ^ 50
    → btc.createrawtransaction (spent_output t ∷ []) (paid_outputs signed input (a -ℤ f))
      ≡ answer raw
    → btc.signrawtransactionwithkey raw
        (signed_input t info owner a ∷ [])
        (input.private_key ∷ [])
        (bytes "ALL")
      ≡ answer hex
    → is_empty hex ≡ false
    → input.dryrun ≡ false
    → btc.sendrawtransaction hex ≡ answer id
    → is_empty id ≡ false
    → run lib fpu signed connect config input w ≡ (
      ok (pos 0),
      stdout (submitted id)
          ∷ stdout (Message.plain_text (bytes "txid2txref"))
          ∷ submit hex
          ∷ stdout Message.signed_and_submitting
          ∷ w,
    )
unfolding run create
run_pays lib fpu signed ieee connect config input btc chain t info owner address raw hex id a f w
      connected chained input_found asked used one owned value fee small_a small_f small created
      done some_hex wet sent accepted =
    let worth = btc2satoshi-IsAmount fpu ieee info.value a small_a value in
    let paid = btc2satoshi-IsAmount fpu ieee input.fee f small_f fee in
    let unspent_found =
      find_unspent_answers lib btc fpu signed t info owner address a w asked used one owned worth in
    let made =
      make_signed_answers lib btc fpu signed ieee input t info owner address raw hex a f w paid
        small_a small created done some_hex in
    let finished = finish_accepted lib btc fpu signed input hex id w wet sent accepted in
    let last = λ (h : Str). finish lib btc fpu signed input h in
    let sign = λ (u : Unspent). make_signed lib btc fpu signed input u >>= last in
    let spend = λ (found : Transaction). find_unspent lib btc fpu signed found >>= sign in
    let start = λ (c : BlockchainInfo). find_input lib btc input >>= spend in
    let body = λ (b : Btc). create lib b fpu signed input in
    try_catch-ok (call (connect config) >>= body) handle (pos 0) w _ (
      >>=-ok (call (connect config)) body btc w w (call-answer (connect config) btc w connected)
      ∙ >>=-ok (call btc.getblockchaininfo) start chain w w
          (call-answer btc.getblockchaininfo chain w chained)
      ∙ >>=-ok (find_input lib btc input) spend t w w input_found
      ∙ >>=-ok (find_unspent lib btc fpu signed t) sign
          (unspent_of lib btc fpu signed t info owner address a) w w unspent_found
      ∙ >>=-ok
          (make_signed lib btc fpu signed input
            (unspent_of lib btc fpu signed t info owner address a))
          last hex w w made
      ∙ finished)

-- The query is a txid, the node that is connected has its output, with one address, worth `a`
-- satoshis, and the fee is `f` satoshis, each given as a `double` in bitcoins; they and what is left
-- are at most 2 ^ 50 of either sign. The node builds and signs the transaction that spends that
-- output and has two outputs, in the order of their keys: one pays `a - f` satoshis, written in
-- bitcoins, to the address of the command line, which is not the text "data", and the other holds the
-- encoded data. The node accepts it. Then a run that is no dry run submits that signed transaction, prints the txid that the node
-- returned, and ends with the status 0.
pub run-submits :
    (lib : Libtxref) (fpu : Fpu) (signed : Bool) (ieee : IsIeee fpu)
    (connect : RpcConfig → Answer Btc) (config : RpcConfig) (input : CreateInput) (btc : Btc)
    (chain : BlockchainInfo) (info : UtxoInfo) (owner : AddressInfo) (address raw hex id : Str)
    (outputs : List (Str × Str)) (a f : ℤ) (w : Log)
    → connect config ≡ answer btc
    → btc.getblockchaininfo ≡ answer chain
    → lib.classify_input_string input.query ≡ InputParam.txid
    → btc.gettxout input.query (index_of input) ≡ answer info
    → is_empty info.bestblock ≡ false
    → info.addresses ≡ address ∷ []
    → btc.getaddressinfo address ≡ answer owner
    → IsAmount fpu ieee info.value a
    → IsAmount fpu ieee input.fee f
    → nat_abs a ≤ 2 ^ 50
    → nat_abs f ≤ 2 ^ 50
    → nat_abs (a -ℤ f) ≤ 2 ^ 50
    → PaysNextTo input.output_address
        (amount_text (a -ℤ f))
        (encode_op_return_data signed input.ddo_ref)
        outputs
    → btc.createrawtransaction (spent_output (spent_transaction input) ∷ []) outputs ≡ answer raw
    → btc.signrawtransactionwithkey raw
        (signed_input (spent_transaction input) info owner a ∷ [])
        (input.private_key ∷ [])
        (bytes "ALL")
      ≡ answer hex
    → is_empty hex ≡ false
    → input.dryrun ≡ false
    → btc.sendrawtransaction hex ≡ answer id
    → is_empty id ≡ false
    → run lib fpu signed connect config input w ≡ (
      ok (pos 0),
      stdout (submitted id)
          ∷ stdout (Message.plain_text (bytes "txid2txref"))
          ∷ submit hex
          ∷ stdout Message.signed_and_submitting
          ∷ w,
    )
run-submits lib fpu signed ieee connect config input btc chain info owner address raw hex id outputs
      a f w connected chained kind asked used one owned value fee small_a small_f small pays
      created =
    let laid_out =
      amounts-PaysNextTo input.output_address (amount_text (a -ℤ f))
        (encode_op_return_data signed input.ddo_ref) outputs pays in
    run_pays lib fpu signed ieee connect config input btc chain (spent_transaction input) info owner
      address raw hex id a f w connected chained (find_input_txid lib btc input w kind) asked used
      one owned value fee small_a small_f small
      (ap (btc.createrawtransaction (spent_output (spent_transaction input) ∷ [])) (sym laid_out)
        ∙ created)
