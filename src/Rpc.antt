-- ===== src/Rpc.antt =====
-- The `BitcoinRPCFacade` of src/bitcoinRPCFacade.h as its clients see it: the answers of a bitcoind,
-- which are those of one state of the chain.
mod Types
pub mod BitcoinApi
pub use Types.*
use btcr_did_method.Base.{ℕ, ◌^◌, ◌<◌, ◌≡◌, Str, ℤ, List, length}
use btcr_did_method.Base.Answer.{Answer, answer}

-- `BitcoinRPCFacade`
pub record Btc : Type 0 where
  pub getrawtransaction : Str → ℤ → Answer RawTransaction
  pub getblock : Str → Answer BlockInfo
  pub getblockhash : ℤ → Answer Str
  pub gettxout : Str → ℤ → Answer UtxoInfo
  pub createrawtransaction : List TxOut → List (Str × Str) → Answer Str
  pub getblockchaininfo : Answer BlockchainInfo
  pub signrawtransactionwithkey : Str → List SignRawTxIn → List Str → Str → Answer Str
  pub getaddressinfo : Str → Answer AddressInfo
  pub sendrawtransaction : Str → Answer Str

-- What the node documents of a block that it reports for a transaction: it is the block at its
-- height in the active chain, and the number of its transactions is an `int`.
pub record IsActive (btc : Btc) (blockhash : Str) : Type 0 where
  pub getblockhash-height :
      (block : BlockInfo)
      → btc.getblock blockhash ≡ answer block
      → btc.getblockhash block.height ≡ answer blockhash
  pub length-tx-lt :
      (block : BlockInfo) → btc.getblock blockhash ≡ answer block → length block.tx < 2 ^ 31
