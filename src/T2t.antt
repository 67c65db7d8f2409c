-- ===== src/T2t.antt =====
-- src/t2tSupport.cpp: a txid to its txref and back, with the `t2t::Transaction` of
-- src/txid2txref.h that both fill in.
pub mod RoundTrip
pub mod Inverse
pub mod Networks
pub mod Constructed
pub mod Branches
use btcr_did_method.Base.{
  Bool, not, ◌&&◌, ◌||◌, Str, bytes, str_eq, get_elem?, length, ◌==◌, if◌then◌else◌, ℤ, pos, ltb_ℤ,
  leb_ℤ, int_of_size, size_of_int, Message,
}
use btcr_did_method.Base.Answer.{call}
use btcr_did_method.Base.Run.{Run, stderr, pure, emit, when, require_or_exit, ◌>>=◌, ◌>>◌}
use btcr_did_method.Libtxref.{Libtxref}
use btcr_did_method.Rpc.{Btc}
use btcr_did_method.Domain.Txid.{find_transaction}
use btcr_did_method.Domain.Txref.{at_or_exit}

-- `t2t::Transaction`
pub record Transaction : Type 0 where
  pub txid : Str
  pub txref : Str
  pub network : Str
  pub block_height : ℤ
  pub transaction_index : ℤ
  pub txo_index : ℤ
  pub query : Str

-- Its initial value.
abbrev pub no_transaction : Transaction
no_transaction = record {
  txid = bytes "";
  txref = bytes "";
  network = bytes "";
  block_height = pos 0;
  transaction_index = pos 0;
  txo_index = pos 0;
  query = bytes "";
}

module _ (lib : Libtxref) where
  -- `isNetworkMismatch`
  unfoldable pub is_network_mismatch : Str → Str → Bool
  is_network_mismatch hrp network = not (
      str_eq hrp lib.hrp_main && str_eq network (bytes "main")
      || str_eq hrp lib.hrp_test && str_eq network (bytes "test")
      || str_eq hrp lib.hrp_regtest && str_eq network (bytes "regtest"))

  module _ (btc : Btc) where
    open btc use {getrawtransaction, getblock, getblockhash, getblockchaininfo}

    -- `encodeTxid`
    unfoldable pub encode_txid : Str → ℤ → Run Transaction
    encode_txid txid txo_index = do
      chain_info ← call getblockchaininfo
      raw ← call (getrawtransaction txid (pos 1))
      block ← call (getblock raw.blockhash)
      when (ltb_ℤ block.confirmations (pos 6))
          (emit (stderr (Message.too_few_confirmations block.confirmations)))
      let block_index = find_transaction block.tx txid
      require_or_exit (not (block_index == length block.tx)) (Message.transaction_not_in_block txid)
      require_or_exit (ltb_ℤ txo_index (int_of_size raw.vout_size))
          (Message.txo_index_too_large txo_index txid)
      text ← call (
          if str_eq chain_info.chain (bytes "test")
          then lib.encode_testnet block.height (int_of_size block_index) txo_index Bool.false
          else if str_eq chain_info.chain (bytes "regtest")
          then lib.encode_regtest block.height (int_of_size block_index) txo_index Bool.false
          else lib.encode block.height (int_of_size block_index) txo_index Bool.false)
      pure (record {
        txid = txid;
        txref = text;
        network = chain_info.chain;
        block_height = block.height;
        transaction_index = int_of_size block_index;
        txo_index = txo_index;
        query = txid;
      })

    -- `decodeTxref`
    unfoldable pub decode_txref : Str → Run Transaction
    unfolding is_network_mismatch
    decode_txref txref = do
      decoded ← call (lib.decode txref)
      chain_info ← call getblockchaininfo
      require_or_exit (not (is_network_mismatch decoded.hrp chain_info.chain))
          (Message.wrong_network txref chain_info.chain)
      blockhash ← call (getblockhash decoded.block_height)
      block ← call (getblock blockhash)
      txid ←
          at_or_exit (get_elem? block.tx (size_of_int decoded.transaction_index))
            (Message.no_txid_at_index decoded.transaction_index)
      pure (record {
        txid = txid;
        txref = decoded.txref;
        network = chain_info.chain;
        block_height = decoded.block_height;
        transaction_index = decoded.transaction_index;
        txo_index = decoded.txo_index;
        query = txref;
      })
