-- ===== src/T2t/Branches.antt =====
-- Which outputs `encodeTxid` of src/t2tSupport.cpp encodes, and how it ends for the others.
use btcr_did_method.Base.{
  ℕ, ◌^◌, ◌<◌, ◌≡◌, ◌≢◌, ◌⊎◌, inl, inr, true, false, some, arith, Bool-cases, ltb_ℤ, ◌==◌, List, [],
  ◌∷◌, zero, suc, refl, str_eq_refl, if◌then◌else◌, Str, get_elem?, length, ℤ, pos, int_of_size,
  int_of_size_small, Message,
}
use btcr_did_method.Base.Answer.{Answer, answer, raise}
use btcr_did_method.Base.Run.{Log, Outcome, ok, exits, throws, failed, stderr}
use btcr_did_method.Libtxref.{Libtxref}
use btcr_did_method.Rpc.{Btc, RawTransaction, BlockInfo, BlockchainInfo}
use btcr_did_method.Domain.Txid.{find_transaction}
use btcr_did_method.Domain.Txid.Search.{
  IsFirstAt, get_elem?-find_transaction, find_transaction_first, find_transaction-le-length,
}
use btcr_did_method.T2t.{Transaction, encode_txid}
use btcr_did_method.T2t.RoundTrip.{encoder_for}

-- With a warning for a block of fewer than six confirmations.
abbrev pub warned : BlockInfo → Log → Log
warned block w =
    if ltb_ℤ block.confirmations (pos 6)
    then stderr (Message.too_few_confirmations block.confirmations) ∷ w
    else w

-- How the encoding of an output ends that is at an index of the block.
abbrev pub Placed :
    Answer Str → BlockchainInfo → BlockInfo → Str → ℤ → ℕ → Outcome Transaction → Type 0
Placed (answer text) c block txid i k r =
    r
    ≡ ok (record {
      txid = txid;
      txref = text;
      network = c.chain;
      block_height = block.height;
      transaction_index = pos k;
      txo_index = i;
      query = txid;
    })
Placed (raise e) c block txid i k r = r ≡ throws e

absent :
    (ts : List Str) (t : Str)
    → find_transaction ts t ≡ length ts
    → (j : ℕ) → get_elem? ts j ≢ some t
unfolding find_transaction
absent [] t e zero = λ h. ground arith
absent [] t e (suc j) = λ h. ground arith
absent (x ∷ ts) t e zero = λ h. ground (arith, str_eq_refl x)
absent (x ∷ ts) t e (suc j) = absent ts t (ground arith) j

module _ (lib : Libtxref) (btc : Btc) (c : BlockchainInfo) (raw : RawTransaction)
    (block : BlockInfo) where
  encode_txid_absent :
      (txid : Str) (i : ℤ) (w : Log)
      → btc.getblockchaininfo ≡ answer c
      → btc.getrawtransaction txid (pos 1) ≡ answer raw
      → btc.getblock raw.blockhash ≡ answer block
      → (find_transaction block.tx txid == length block.tx) ≡ true
      → encode_txid lib btc txid i w
        ≡ (exits failed, stderr (Message.transaction_not_in_block txid) ∷ warned block w)
  unfolding encode_txid
  encode_txid_absent txid i w ec er eb missing = ground arith

  encode_txid_too_large :
      (txid : Str) (i : ℤ) (w : Log)
      → btc.getblockchaininfo ≡ answer c
      → btc.getrawtransaction txid (pos 1) ≡ answer raw
      → btc.getblock raw.blockhash ≡ answer block
      → (find_transaction block.tx txid == length block.tx) ≡ false
      → ltb_ℤ i (int_of_size raw.vout_size) ≡ false
      → encode_txid lib btc txid i w
        ≡ (exits failed, stderr (Message.txo_index_too_large i txid) ∷ warned block w)
  unfolding encode_txid
  encode_txid_too_large txid i w ec er eb found large = ground arith

  encode_txid-Placed :
      (txid : Str) (i : ℤ) (w : Log) (k : ℕ)
      → btc.getblockchaininfo ≡ answer c
      → btc.getrawtransaction txid (pos 1) ≡ answer raw
      → btc.getblock raw.blockhash ≡ answer block
      → (find_transaction block.tx txid == length block.tx) ≡ false
      → ltb_ℤ i (int_of_size raw.vout_size) ≡ true
      → int_of_size (find_transaction block.tx txid) ≡ pos k
      → (x : Answer Str) → encoder_for lib c.chain block.height (pos k) i false ≡ x
      → Placed x c block txid i k (encode_txid lib btc txid i w).0
        × ((encode_txid lib btc txid i w).1 ≡ warned block w)
  unfolding encode_txid
  encode_txid-Placed txid i w k ec er eb found fits index (answer text) encoded =
      (ground arith, ground arith)
  encode_txid-Placed txid i w k ec er eb found fits index (raise e) encoded =
      (ground arith, ground arith)

  -- The node answers all three questions, and the block has fewer than 2 ^ 31 transactions. If the
  -- block does not list the transaction, `encodeTxid` says so and exits with -1. If it does, and the
  -- index is not below the number of its outputs, `encodeTxid` says that and exits with -1. Else it
  -- asks the encoder of the network for the height, the first index at which the transaction stands
  -- in the block, and the output index: what that returns is the text of the transaction that is
  -- returned, and an exception of it goes on. In front of all this it warns of a block with fewer
  -- than six confirmations, and only of such a block.
  pub encode_txid-branches :
      (txid : Str) (i : ℤ) (w : Log)
      → btc.getblockchaininfo ≡ answer c
      → btc.getrawtransaction txid (pos 1) ≡ answer raw
      → btc.getblock raw.blockhash ≡ answer block
      → length block.tx < 2 ^ 31
      → ((j : ℕ) → get_elem? block.tx j ≢ some txid)
          × (encode_txid lib btc txid i w
              ≡ (exits failed, stderr (Message.transaction_not_in_block txid) ∷ warned block w))
        ⊎ ((k : ℕ) × IsFirstAt block.tx txid k
            × (ltb_ℤ i (int_of_size raw.vout_size) ≡ false)
            × (encode_txid lib btc txid i w
                ≡ (exits failed, stderr (Message.txo_index_too_large i txid) ∷ warned block w)))
        ⊎ ((k : ℕ) × IsFirstAt block.tx txid k
            × (ltb_ℤ i (int_of_size raw.vout_size) ≡ true)
            × Placed
                (encoder_for lib c.chain block.height (pos k) i false)
                c
                block
                txid
                i
                k
                (encode_txid lib btc txid i w).0
            × ((encode_txid lib btc txid i w).1 ≡ warned block w))
  encode_txid-branches txid i w ec er eb small =
      let k : ℕ = find_transaction block.tx txid in
      elim (Bool-cases (k == length block.tx)) [
        | inl missing ↦
            inl (absent block.tx txid (ground arith), encode_txid_absent txid i w ec er eb missing)
        | inr found ↦
            let first : IsFirstAt block.tx txid k = (
              get_elem?-find_transaction block.tx txid (λ e. ground arith),
              find_transaction_first block.tx txid,
            ) in
            elim (Bool-cases (ltb_ℤ i (int_of_size raw.vout_size))) [
              | inr large ↦
                  inr (inl (k, first, large, encode_txid_too_large txid i w ec er eb found large))
              | inl fits ↦
                  let below : k < 2 ^ 31 =
                    omega (arith, find_transaction-le-length block.tx txid, small) in
                  let (ending, log) =
                    encode_txid-Placed txid i w k ec er eb found fits (int_of_size_small k below) _
                      refl in
                  inr (inr (k, first, fits, ending, log))
            ]
      ]
