-- ===== src/Domain/Txref/VoutBound.antt =====
-- The output whose index is the number of a transaction's outputs: `Txref` (src/domain/txref.cpp)
-- and `encodeTxid` (src/t2tSupport.cpp).
use btcr_did_method.Base.{
  ◌^◌, ◌<◌, ◌≡◌, ◌≢◌, true, Str, pos, if◌then◌else◌, int_of_size_small, size_of_int_pos, arith,
}
use btcr_did_method.Base.Answer.{answer}
use btcr_did_method.Base.Run.{Log, ok}
use btcr_did_method.Libtxref.{Libtxref}
use btcr_did_method.Rpc.{Btc, RawTransaction}
use btcr_did_method.Domain.Txid.{Txid}
use btcr_did_method.Domain.Txref
use btcr_did_method.Domain.Txref.{Txref, verify_vout_for_txid}
use btcr_did_method.T2t.{Transaction, encode_txid}
use btcr_did_method.T2t.RoundTrip.{encode_txid-fits}

module _ (lib : Libtxref) (btc : Btc) where
  make_at_size :
      (txid : Txid) (raw : RawTransaction) (text : Str) (w : Log)
      → raw.vout_size < 2 ^ 31
      → btc.getrawtransaction txid.txid_str (pos 1) ≡ answer raw
      → (if txid.testnet then lib.encode_testnet else lib.encode) txid.block_height.height
          txid.transaction_index.index
          (pos raw.vout_size)
          true
        ≡ answer text
      → Txref.make lib btc txid (record { index = pos raw.vout_size }) w ≡ (
        ok (record { txid = txid; vout = record { index = pos raw.vout_size }; txref_str = text }),
        w,
      )
  unfolding Txref.make verify_vout_for_txid
  make_at_size txid raw text w small asked encoded =
      ground (arith, size_of_int_pos raw.vout_size small)

  -- A transaction has outputs numbered from 0, fewer than 2^31, and libtxref can encode the position
  -- whose output index is the number of those outputs. Then `Txref` is constructed for that index,
  -- which is no output's, and `encodeTxid` returns no transaction for it.
  pub make-encode_txid_at_size :
      (txid : Txid) (raw : RawTransaction) (text : Str) (w w' : Log) (t : Transaction)
      → raw.vout_size < 2 ^ 31
      → btc.getrawtransaction txid.txid_str (pos 1) ≡ answer raw
      → (if txid.testnet then lib.encode_testnet else lib.encode) txid.block_height.height
          txid.transaction_index.index
          (pos raw.vout_size)
          true
        ≡ answer text
      → (Txref.make lib btc txid (record { index = pos raw.vout_size }) w ≡ (
        ok (record { txid = txid; vout = record { index = pos raw.vout_size }; txref_str = text }),
        w,
      ))
        × ((encode_txid lib btc txid.txid_str (pos raw.vout_size) w').0 ≢ ok t)
  make-encode_txid_at_size txid raw text w w' t small asked encoded = (
    make_at_size txid raw text w small asked encoded,
    λ h.
        let fits = encode_txid-fits lib btc raw txid.txid_str (pos raw.vout_size) w' t asked h in
        ground (arith, int_of_size_small raw.vout_size small),
  )
