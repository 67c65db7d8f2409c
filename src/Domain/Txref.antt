-- ===== src/Domain/Txref.antt =====
-- `Txref` of src/domain/txref.h and src/domain/txref.cpp.
pub mod RoundTrip
pub mod VoutBound
use btcr_did_method.Base.{
  Bool, true, Option, none, some, ◌∷◌, Str, get_elem?, if◌then◌else◌, leb, size_of_int, pos,
  Message,
}
use btcr_did_method.Base.Answer.{call}
use btcr_did_method.Base.Run.{Run, runtime, pure, require, exit, failed, stderr, ◌>>=◌, ◌>>◌}
use btcr_did_method.Libtxref.{Libtxref}
use btcr_did_method.Rpc.{Btc}
use btcr_did_method.Domain.BlockHeight
use btcr_did_method.Domain.TransactionIndex
use btcr_did_method.Domain.Vout
use btcr_did_method.Domain.Vout.{Vout}
use btcr_did_method.Domain.Txid
use btcr_did_method.Domain.Txid.{Txid}

pub record Txref : Type 0 where
  pub txid : Txid
  pub vout : Vout
  pub txref_str : Str

-- `blockInfo.tx.at(i)`, whose `std::out_of_range` is caught: a message, and the program exits.
abbrev pub at_or_exit : Option Str → Message → Run Str
at_or_exit none m w = exit failed (stderr m ∷ w)
at_or_exit (some txid) m w = pure txid w

module _ (lib : Libtxref) (btc : Btc) where
  open btc use {getrawtransaction, getblock, getblockhash}

  -- `verifyVoutForTxid`
  unfoldable pub verify_vout_for_txid : Txid → Vout → Run Bool
  verify_vout_for_txid txid vout = do
    raw ← call (getrawtransaction txid.txid_str (pos 1))
    pure (leb (size_of_int vout.index) raw.vout_size)

  -- The constructor from a `Txid` and a `Vout`.
  unfoldable pub make : Txid → Vout → Run Txref
  unfolding verify_vout_for_txid
  make txid vout = do
    fits ← verify_vout_for_txid txid vout
    require fits (runtime Message.vout_too_large)
    text ← call (
        if txid.testnet
        then lib.encode_testnet txid.block_height.height txid.transaction_index.index vout.index
            true
        else lib.encode txid.block_height.height txid.transaction_index.index vout.index true)
    pure (record { txid = txid; vout = vout; txref_str = text })

  -- The constructor from a txref string.
  unfoldable pub parse : Str → Run Txref
  unfolding Txid.make Vout.make
  parse t = do
    decoded ← call (lib.decode t)
    blockhash ← call (getblockhash decoded.block_height)
    block ← call (getblock blockhash)
    txid_str ←
        at_or_exit (get_elem? block.tx (size_of_int decoded.transaction_index))
          (Message.transaction_not_in_block t)
    txid ← Txid.make btc txid_str
    vout ← Vout.make decoded.txo_index
    pure (record { txid = txid; vout = vout; txref_str = t })
