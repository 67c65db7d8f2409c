-- ===== src/Tests/Branches.antt =====
-- `encodeTxid` of src/t2tSupport.cpp for the index behind the last output of the node's payment.
use btcr_did_method.Base.{
  ℕ, str_eq, ◌≡◌, ◌≢◌, ◌⊎◌, refl, true, false, some, [], ◌∷◌, pos, ltb_ℤ, get_elem?, int_of_size,
  Message, arith,
}
use btcr_did_method.Base.Run.{exits, failed, stderr}
use btcr_did_method.Domain.Txid.Search.{IsFirstAt}
use btcr_did_method.T2t.{encode_txid}
use btcr_did_method.T2t.RoundTrip.{encoder_for}
use btcr_did_method.T2t.Branches.{Placed, warned, encode_txid-branches}
use btcr_did_method.Tests.Node.{lib, node, payment, raw_payment, only_block, main_chain}

encode_txid-branches_example :
    ((j : ℕ) → get_elem? only_block.tx j ≢ some payment)
      × (encode_txid lib node payment (pos 2) [] ≡ (
        exits failed,
        stderr (Message.transaction_not_in_block payment) ∷ warned only_block [],
      ))
    ⊎ ((k : ℕ) × IsFirstAt only_block.tx payment k
        × (ltb_ℤ (pos 2) (int_of_size raw_payment.vout_size) ≡ false)
        × (encode_txid lib node payment (pos 2) [] ≡ (
          exits failed,
          stderr (Message.txo_index_too_large (pos 2) payment) ∷ warned only_block [],
        )))
    ⊎ ((k : ℕ) × IsFirstAt only_block.tx payment k
        × (ltb_ℤ (pos 2) (int_of_size raw_payment.vout_size) ≡ true)
        × Placed
            (encoder_for lib main_chain.chain only_block.height (pos k) (pos 2) false)
            main_chain
            only_block
            payment
            (pos 2)
            k
            (encode_txid lib node payment (pos 2) []).0
        × ((encode_txid lib node payment (pos 2) []).1 ≡ warned only_block []))
unfolding str_eq
encode_txid-branches_example =
    encode_txid-branches lib node main_chain raw_payment only_block payment (pos 2) [] refl refl
      refl (omega arith)
