-- ===== src/Domain/Txid.antt =====
-- `Txid` of src/domain/txid.h and src/domain/txid.cpp.
pub mod Search
pub mod Details
pub mod Constructed
pub mod Quiet
pub mod Equality
use btcr_did_method.Base.{
  ℕ, suc, Bool, true, false, not, ◌&&◌, none, some, List, [], ◌∷◌, ◌==◌, if◌then◌else◌, length, pos,
  bool_eq, int_of_size, Str, bytes, str_eq, is_empty, find_first_not_of, lowercase, Message,
}
use btcr_did_method.Base.Answer.{call}
use btcr_did_method.Base.Run.{Run, runtime, pure, require, ◌>>=◌, ◌>>◌}
use btcr_did_method.Rpc.{Btc}
use btcr_did_method.Domain.BlockHeight
use btcr_did_method.Domain.BlockHeight.{BlockHeight}
use btcr_did_method.Domain.TransactionIndex
use btcr_did_method.Domain.TransactionIndex.{TransactionIndex}

pub record Txid : Type 0 where
  pub block_height : BlockHeight
  pub transaction_index : TransactionIndex
  pub testnet : Bool
  pub txid_str : Str

-- `isInputStringValid`
unfoldable pub is_input_string_valid : Str → Bool
is_input_string_valid s =
    length s == 64
    && elim (find_first_not_of s (bytes "0123456789abcdef")) [ none ↦ true | some i ↦ false ]

-- The loop over a block's transactions: the index at which it stops, which is the number of the
-- transactions if the one that is looked for is not among them.
unfoldable pub find_transaction : List Str → Str → ℕ
find_transaction [] txid = 0
find_transaction (t ∷ ts) txid =
    let later = suc (find_transaction ts txid) in if str_eq t txid then 0 else later

module _ (btc : Btc) where
  open btc use {getrawtransaction, getblock, getblockchaininfo}

  -- `existsInNetwork`
  unfoldable pub exists_in_network : Str → Run Bool
  exists_in_network txid = do
    raw ← call (getrawtransaction txid (pos 0))
    pure (not (is_empty raw.hex))

  -- `extractTransactionDetails`, and the assignment of the string behind it
  unfoldable pub extract_transaction_details : Str → Run Txid
  unfolding BlockHeight.make TransactionIndex.make
  extract_transaction_details txid = do
    raw ← call (getrawtransaction txid (pos 1))
    block ← call (getblock raw.blockhash)
    height ← BlockHeight.make block.height
    chain_info ← call getblockchaininfo
    let block_index = find_transaction block.tx txid
    require (not (block_index == length block.tx)) (runtime (Message.transaction_not_in_block txid))
    index ← TransactionIndex.make (int_of_size block_index)
    pure (record {
      block_height = height;
      transaction_index = index;
      testnet = str_eq chain_info.chain (bytes "test");
      txid_str = txid;
    })

  -- The constructor.
  unfoldable pub make : Str → Run Txid
  unfolding exists_in_network extract_transaction_details
  make in_txid = do
    let t = lowercase in_txid
    require (is_input_string_valid t) (runtime Message.input_not_valid)
    exists ← exists_in_network t
    require exists (runtime Message.txid_not_found)
    extract_transaction_details t

-- `operator==`
unfoldable pub eq : Txid → Txid → Bool
unfolding BlockHeight.eq TransactionIndex.eq
eq a b =
    BlockHeight.eq a.block_height b.block_height
    && TransactionIndex.eq a.transaction_index b.transaction_index
    && bool_eq a.testnet b.testnet
    && str_eq a.txid_str b.txid_str

-- `operator!=`
unfoldable pub ne : Txid → Txid → Bool
unfolding eq
ne a b = not (eq b a)
