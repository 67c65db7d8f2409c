-- ===== src/Programs/CreateBtcrDid/Encoded.antt =====
-- A run of createBtcrDid (src/createBtcrDid.cpp) that submits, for a query that is the txref which
-- `encodeTxid` (src/t2tSupport.cpp) made of an output.
use btcr_did_method.Base.{
  ℕ, suc, ◌≢◌, ◌⊎◌, eqb_ℤ→eq, inl, inr, ◌^◌, ◌≤◌, ◌≡◌, ap, Bool, true, false, Str, bytes, is_empty,
  [], ◌∷◌, ℤ, pos, ◌-ℤ◌, ltb_ℤ, unsigned_of_int, Message, ◌∙◌, arith,
}
use btcr_did_method.Base.Answer.{Answer, answer, call}
use btcr_did_method.Base.Steps.{>>=-ok, >>=-exits, call-answer, try_catch-exits}
use btcr_did_method.Base.Run.{Log, ok, exits, failed, stderr, stdout, submit, ◌>>=◌}
use btcr_did_method.Libtxref.{Libtxref, IsLawful}
use btcr_did_method.Rpc.{
  RpcConfig, Btc, BlockchainInfo, UtxoInfo, AddressInfo, RawTransaction, IsActive,
}
use btcr_did_method.Satoshis.{Fpu}
use btcr_did_method.Satoshis.Ieee.{IsIeee, nat_abs}
use btcr_did_method.Satoshis.RoundTrip.{IsAmount}
use btcr_did_method.Domain.Did.{is_txref}
use btcr_did_method.T2t.{Transaction, encode_txid, decode_txref}
use btcr_did_method.T2t.RoundTrip.{
  IsKnown, encode_txid-answers, encode_txid-Encoded, encode_txid-decode_txref,
}
use btcr_did_method.CommandLine.{CreateInput}
use btcr_did_method.Programs.CreateBtcrDid.{
  Unspent, get_transaction, find_input, find_unspent, make_signed, finish, create, handle, run,
}
use btcr_did_method.Programs.CreateBtcrDid.Submits.{signed_input, paid_outputs, submitted, run_pays}

-- The fields of a transaction that was encoded.
encode_txid-output :
    (lib : Libtxref) (btc : Btc) (txid : Str) (i : ℤ) (w : Log) (t : Transaction)
    → (encode_txid lib btc txid i w).0 ≡ ok t
    → (t.txid ≡ txid) × (t.txo_index ≡ i)
encode_txid-output lib btc txid i w t h =
    let (c, raw, block, ec, er, eb) = encode_txid-answers lib btc txid i w t h in
    let e = encode_txid-Encoded lib btc c raw block txid i w t ec er eb h in
    (ap (λ (u : Transaction). u.txid) e.fields, ap (λ (u : Transaction). u.txo_index) e.fields)

-- The index of the command line says nothing: none is given, or 0 where another is encoded.
abbrev pub IsUnsaid : ℤ → ℤ → Type 0
IsUnsaid given encoded = (ltb_ℤ given (pos 0) ≡ true) ⊎ ((given ≡ pos 0) × (encoded ≢ pos 0))

find_input_txref :
    (lib : Libtxref) (btc : Btc) (input : CreateInput) (t : Transaction) (w : Log)
    → is_txref (lib.classify_input_string input.query) ≡ true
    → IsUnsaid input.txo_index t.txo_index
    → decode_txref lib btc input.query w ≡ (ok t, w)
    → find_input lib btc input w ≡ (ok t, w)
unfolding find_input get_transaction
find_input_txref lib btc input t w kind (inl none_given) decoded = ground arith
find_input_txref lib btc input t w kind (inr (zero_given, other)) decoded =
    ground (arith, eqb_ℤ→eq (pos 0) t.txo_index)

find_input_mismatch :
    (lib : Libtxref) (btc : Btc) (input : CreateInput) (m : ℕ) (t : Transaction) (w : Log)
    → is_txref (lib.classify_input_string input.query) ≡ true
    → input.txo_index ≡ pos (suc m)
    → t.txo_index ≢ pos (suc m)
    → decode_txref lib btc input.query w ≡ (ok t, w)
    → find_input lib btc input w
      ≡ (exits failed, stderr (Message.txo_index_not_supported (pos (suc m)) t.txo_index) ∷ w)
unfolding find_input get_transaction
find_input_mismatch lib btc input m t w kind given other decoded =
    ground (arith, eqb_ℤ→eq (pos (suc m)) t.txo_index)

-- The query is the txref that `encodeTxid` made of the output `i` of a transaction, no index is given
-- on the command line, or the index 0 where `i` is another, libtxref is lawful and classifies the text as a txref, and the transaction's
-- block is in the active chain of one of the three networks. The node that is connected has that
-- output, with one address, worth `a` satoshis, and the fee is `f` satoshis, each given as a `double`
-- in bitcoins; they and what is left are at most 2 ^ 50 of either sign. The node builds and signs the
-- transaction that spends that output and pays `a - f` satoshis to the address of the command line
-- next to the data, and accepts it. Then a run that is no dry run submits that signed transaction,
-- prints the txid that the node returned, and ends with the status 0.
pub run-encode_txid_spends :
    (lib : Libtxref) (fpu : Fpu) (signed : Bool) (ieee : IsIeee fpu)
    (connect : RpcConfig → Answer Btc) (config : RpcConfig) (input : CreateInput) (btc : Btc)
    (chain : BlockchainInfo) (txid : Str) (i : ℤ) (t : Transaction) (info : UtxoInfo)
    (owner : AddressInfo) (address raw hex id : Str) (a f : ℤ) (w w' : Log)
    → IsLawful lib
    → ((c : BlockchainInfo) → btc.getblockchaininfo ≡ answer c → IsKnown c.chain)
    → ((raw' : RawTransaction)
        → btc.getrawtransaction txid (pos 1) ≡ answer raw'
        → IsActive btc raw'.blockhash)
    → (encode_txid lib btc txid i w').0 ≡ ok t
    → input.query ≡ t.txref
    → is_txref (lib.classify_input_string input.query) ≡ true
    → IsUnsaid input.txo_index i
    → connect config ≡ answer btc
    → btc.getblockchaininfo ≡ answer chain
    → btc.gettxout txid i ≡ answer info
    → is_empty info.bestblock ≡ false
    → info.addresses ≡ address ∷ []
    → btc.getaddressinfo address ≡ answer owner
    → IsAmount fpu ieee info.value a
    → IsAmount fpu ieee input.fee f
    → nat_abs a ≤ 2 ^ 50
    → nat_abs f ≤ 2 ^ 50
    → nat_abs (a -ℤ f) ≤ 2 ^ 50
    → btc.createrawtransaction
        (record { txid = txid; n = unsigned_of_int i } ∷ [])
        (paid_outputs signed input (a -ℤ f))
      ≡ answer raw
    → btc.signrawtransactionwithkey raw
        (signed_input (record t { txid = txid; txo_index = i }) info owner a ∷ [])
        (input.private_key ∷ [])
        (bytes "ALL")
      ≡ answer hex
    → is_empty hex ≡ false
    → input.dryrun ≡ false
    → btc.sendrawtransaction hex ≡ answer id
    → is_empty id ≡ false
    → run lib fpu signed connect config input w ≡ (
      ok (pos 0),
      stdout (submitted id)
          ∷ stdout (Message.plain_text (bytes "txid2txref"))
          ∷ submit hex
          ∷ stdout Message.signed_and_submitting
          ∷ w,
    )
run-encode_txid_spends lib fpu signed ieee connect config input btc chain txid i t info owner
      address raw hex id a f w w' lawful known active encoded asked_for kind unsaid connected
      chained asked used one owned value fee small_a small_f small created done =
    let (same_txid, same_index) = encode_txid-output lib btc txid i w' t encoded in
    let decoded : decode_txref lib btc input.query w ≡ (ok (record t { query = t.txref }), w) =
      rw asked_for (encode_txid-decode_txref lib btc lawful txid i w' w t known active encoded) in
    run_pays lib fpu signed ieee connect config input btc chain (record t { query = t.txref }) info
      owner address raw hex id a f w connected chained
      (find_input_txref lib btc input (record t { query = t.txref }) w kind (rw same_index unsaid)
        decoded)
      (rw (same_txid, same_index) asked) used one owned value fee small_a small_f small
      (rw (same_txid, same_index) created) (rw (same_txid, same_index) done)

-- For such a query and an index on the command line that is above 0 and not the encoded one, a run
-- prints that the index is not supported and exits with -1; it asks the node for no output, and it
-- submits nothing.
pub run-encode_txid_mismatch :
    (lib : Libtxref) (fpu : Fpu) (signed : Bool) (connect : RpcConfig → Answer Btc)
    (config : RpcConfig) (input : CreateInput) (btc : Btc) (chain : BlockchainInfo) (txid : Str)
    (i : ℤ) (m : ℕ) (t : Transaction) (w w' : Log)
    → IsLawful lib
    → ((c : BlockchainInfo) → btc.getblockchaininfo ≡ answer c → IsKnown c.chain)
    → ((raw : RawTransaction)
        → btc.getrawtransaction txid (pos 1) ≡ answer raw
        → IsActive btc raw.blockhash)
    → (encode_txid lib btc txid i w').0 ≡ ok t
    → input.query ≡ t.txref
    → is_txref (lib.classify_input_string input.query) ≡ true
    → input.txo_index ≡ pos (suc m)
    → i ≢ pos (suc m)
    → connect config ≡ answer btc
    → btc.getblockchaininfo ≡ answer chain
    → run lib fpu signed connect config input w
      ≡ (exits failed, stderr (Message.txo_index_not_supported (pos (suc m)) i) ∷ w)
unfolding run create
run-encode_txid_mismatch lib fpu signed connect config input btc chain txid i m t w w' lawful known
      active encoded asked_for kind given other connected chained =
    let (same_txid, same_index) = encode_txid-output lib btc txid i w' t encoded in
    let decoded : decode_txref lib btc input.query w ≡ (ok (record t { query = t.txref }), w) =
      rw asked_for (encode_txid-decode_txref lib btc lawful txid i w' w t known active encoded) in
    let stopped =
      find_input_mismatch lib btc input m (record t { query = t.txref }) w kind given
        (rw same_index other) decoded in
    let sign = λ (u : Unspent).
      make_signed lib btc fpu signed input u >>= λ hex. finish lib btc fpu signed input hex in
    let spend = λ (found : Transaction). find_unspent lib btc fpu signed found >>= sign in
    let start = λ (c : BlockchainInfo). find_input lib btc input >>= spend in
    let body = λ (b : Btc). create lib b fpu signed input in
    try_catch-exits (call (connect config) >>= body) handle failed w _ (
      >>=-ok (call (connect config)) body btc w w (call-answer (connect config) btc w connected)
      ∙ >>=-ok (call btc.getblockchaininfo) start chain w w
          (call-answer btc.getblockchaininfo chain w chained)
      ∙ >>=-exits (find_input lib btc input) spend failed w _ stopped)
    ∙ ap (λ j. (exits failed, stderr (Message.txo_index_not_supported (pos (suc m)) j) ∷ w))
        same_index
