-- ===== src/Programs/CreateBtcrDid/Outputs.antt =====
-- The input and the outputs of the transaction that createBtcrDid (src/createBtcrDid.cpp) makes.
use btcr_did_method.Base.{
  ℕ, ◌≡◌, ◌≢◌, some, Str, bytes, pos, ◌∷◌, get_elem?, ltb, ◌==◌, if◌then◌else◌, arith, Message,
}
use btcr_did_method.Base.Run.{Log, ok, exits, failed, stderr}
use btcr_did_method.Libtxref.{Libtxref}
use btcr_did_method.Rpc.{Btc}
use btcr_did_method.T2t.{Transaction, decode_txref}
use btcr_did_method.CommandLine.{CreateInput}
use btcr_did_method.Programs.CreateBtcrDid.{get_transaction, amounts}

-- The second output, which is the one of the index 1 that `printAsJson` prints, is the OP_RETURN
-- output where the address begins with a byte below `d`, and the one to the address where it begins
-- with a byte above `d`.
pub amounts_second :
    (c : ℕ) (s change encoded : Str)
    → c ≢ b'd'
    → get_elem? (amounts (c ∷ s) change encoded) 1
      ≡ (if ltb c b'd' then some (bytes "data", encoded) else some (c ∷ s, change))
unfolding amounts
amounts_second c s change encoded h = ground arith

-- A txref that decodes, with an index on the command line that is another than the encoded one: the
-- program exits with a message if the index is not 0, and goes on with the encoded index, without a
-- message, if it is 0.
pub get_transaction_mismatch :
    (lib : Libtxref) (btc : Btc) (input : CreateInput) (m : ℕ) (t : Transaction) (w w' : Log)
    → decode_txref lib btc input.query w ≡ (ok t, w')
    → input.txo_index ≡ pos m
    → t.txo_index ≢ pos m
    → get_transaction lib btc input w ≡ (
        if m == 0
        then (ok t, w')
        else (exits failed, stderr (Message.txo_index_not_supported (pos m) t.txo_index) ∷ w'))
unfolding get_transaction
get_transaction_mismatch lib btc input m t w w' decoded given other = ground arith
