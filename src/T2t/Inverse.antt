-- ===== src/T2t/Inverse.antt =====
-- A txref that is decoded to a txid and encoded again (src/t2tSupport.cpp).
use btcr_did_method.Base.{
  ℕ, zero, suc, ◌^◌, ◌-◌, ◌%◌, ◌<◌, ◌≡◌, ◌≢◌, inl, inr, Option-cases, Bool-cases, if◌then◌else◌,
  false, ap, sym, ◌∙◌, true, some, ltb_ℤ, Str, str_eq_refl, str_eq→eq, get_elem?, length, List, [],
  ◌∷◌, ℤ, pos, negsuc, ◌≤ℤ◌, int_of_size, size_of_int, arith,
}
use btcr_did_method.Base.Answer.{answer}
use btcr_did_method.Base.Run.{ok, exits, failed, Log}
use btcr_did_method.Libtxref.{Libtxref, DecodedResult}
use btcr_did_method.Rpc.{Btc, RawTransaction, BlockInfo, BlockchainInfo}
use btcr_did_method.Domain.Txid.{find_transaction}
use btcr_did_method.Domain.Txid.Search.{get_elem?-lt}
use btcr_did_method.T2t.{Transaction, encode_txid, decode_txref}
use btcr_did_method.T2t.RoundTrip.{encoder_for}

-- No transaction stands twice in a block.
abbrev pub IsDistinct : List Str → Type 0
IsDistinct ts = (j k : ℕ) (t : Str) → get_elem? ts j ≡ some t → get_elem? ts k ≡ some t → j ≡ k

-- The loop over a block stops at the only index at which the transaction stands.
find_transaction-IsDistinct :
    (ts : List Str) (k : ℕ) (t : Str)
    → IsDistinct ts
    → get_elem? ts k ≡ some t
    → find_transaction ts t ≡ k
unfolding find_transaction
find_transaction-IsDistinct [] k t d e = absurd (ground arith)
find_transaction-IsDistinct (x ∷ ts) zero t d e = ground (arith, str_eq_refl t)
find_transaction-IsDistinct (x ∷ ts) (suc k) t d e =
    let other : x ≢ t = λ same. absurd (ground (arith, d 0 (suc k) t (ap some same) e)) in
    let later =
      find_transaction-IsDistinct ts k t (λ i j u p q. ground (arith, d (suc i) (suc j) u p q)) e in
    ground (arith, other, str_eq→eq x t, later)

module _ (lib : Libtxref) (btc : Btc) where
  encode_txid_lem :
      (c : BlockchainInfo) (raw : RawTransaction) (block : BlockInfo) (txid text : Str) (index : ℕ)
      (i : ℤ) (w : Log)
      → btc.getblockchaininfo ≡ answer c
      → btc.getrawtransaction txid (pos 1) ≡ answer raw
      → btc.getblock raw.blockhash ≡ answer block
      → find_transaction block.tx txid ≡ index
      → index < length block.tx
      → ltb_ℤ i (int_of_size raw.vout_size) ≡ true
      → encoder_for lib c.chain block.height (int_of_size index) i false ≡ answer text
      → (encode_txid lib btc txid i w).0
        ≡ ok (record {
          txid = txid;
          txref = text;
          network = c.chain;
          block_height = block.height;
          transaction_index = int_of_size index;
          txo_index = i;
          query = txid;
        })
  unfolding encode_txid
  encode_txid_lem c raw block txid text index i w ec er eb found below fits encoded = ground arith

  encode_txid_refused :
      (c : BlockchainInfo) (raw : RawTransaction) (block : BlockInfo) (txid : Str) (index : ℕ)
      (i : ℤ) (w : Log)
      → btc.getblockchaininfo ≡ answer c
      → btc.getrawtransaction txid (pos 1) ≡ answer raw
      → btc.getblock raw.blockhash ≡ answer block
      → find_transaction block.tx txid ≡ index
      → index < length block.tx
      → ltb_ℤ i (int_of_size raw.vout_size) ≡ false
      → (encode_txid lib btc txid i w).0 ≡ exits failed
  unfolding encode_txid
  encode_txid_refused c raw block txid index i w ec er eb found below large = ground arith

  -- What `decodeTxref` returned, in terms of the answers of the node and of libtxref.
  decode_txref-answers :
      (c : BlockchainInfo) (d : DecodedResult) (hash : Str) (block : BlockInfo) (text : Str)
      (t : Transaction) (w : Log)
      → btc.getblockchaininfo ≡ answer c
      → lib.decode text ≡ answer d
      → btc.getblockhash d.block_height ≡ answer hash
      → btc.getblock hash ≡ answer block
      → (decode_txref lib btc text w).0 ≡ ok t
      → (get_elem? block.tx (size_of_int d.transaction_index) ≡ some t.txid)
        × (t ≡ record {
          txid = t.txid;
          txref = d.txref;
          network = c.chain;
          block_height = d.block_height;
          transaction_index = d.transaction_index;
          txo_index = d.txo_index;
          query = text;
        })
  unfolding decode_txref
  decode_txref-answers c d hash block text t w ec ed eh eb h =
      elim (Option-cases (get_elem? block.tx (size_of_int d.transaction_index))) [
        | inl e ↦ absurd (ground arith)
        | inr (txid, e) ↦ ground arith
      ]

  -- An `int` that is an index of a short list is not below zero.
  index_of_int :
      (ts : List Str) (i : ℤ) (t : Str)
      → length ts < 2 ^ 31
      → negsuc (2 ^ 31 - 1) ≤ℤ i
      → i ≤ℤ pos (2 ^ 31 - 1)
      → get_elem? ts (size_of_int i) ≡ some t
      → (i ≡ int_of_size (size_of_int i)) × (size_of_int i < length ts)
  unfolding size_of_int int_of_size
  index_of_int ts (pos n) t short low high e =
      let lt = get_elem?-lt ts (n % 2 ^ 64) t e in (ground (arith, lt), lt)
  index_of_int ts (negsuc n) t short low high e =
      absurd (omega (arith, get_elem?-lt ts (2 ^ 64 - 1 - n) t e, low))

  -- A txref that `decodeTxref` turned into a txid and an output index, encoded again. The block is the
  -- one at the decoded height, lists fewer than 2 ^ 31 transactions and none of them twice, and the
  -- node says that the transaction is in it; the decoded transaction index is an `int`, and the encoder
  -- of the node's network has a text for the decoded position when the extended form is not asked for,
  -- which need not be the text that was decoded. If the decoded output index is below the number of
  -- the transaction's outputs, `encodeTxid` returns the same transaction, height and indices, with
  -- that text and with the txid as its query. Else it exits with -1.
  pub decode_txref-encode_txid :
      (c : BlockchainInfo) (d : DecodedResult) (raw : RawTransaction) (block : BlockInfo)
      (text encoded : Str) (t : Transaction) (w w' : Log)
      → btc.getblockchaininfo ≡ answer c
      → lib.decode text ≡ answer d
      → encoder_for lib c.chain d.block_height d.transaction_index d.txo_index false
        ≡ answer encoded
      → negsuc (2 ^ 31 - 1) ≤ℤ d.transaction_index
      → d.transaction_index ≤ℤ pos (2 ^ 31 - 1)
      → btc.getblockhash d.block_height ≡ answer raw.blockhash
      → btc.getblock raw.blockhash ≡ answer block
      → block.height ≡ d.block_height
      → IsDistinct block.tx
      → length block.tx < 2 ^ 31
      → btc.getrawtransaction t.txid (pos 1) ≡ answer raw
      → (decode_txref lib btc text w).0 ≡ ok t
      → (encode_txid lib btc t.txid t.txo_index w').0 ≡ (
          if ltb_ℤ t.txo_index (int_of_size raw.vout_size)
          then ok (record t { txref = encoded; query = t.txid })
          else exits failed)
  decode_txref-encode_txid c d raw block text encoded t w w' ec ed made low high eh eb same distinct
        short er h =
      let (at, fields) = decode_txref-answers c d raw.blockhash block text t w ec ed eh eb h in
      let (index, below) = index_of_int block.tx d.transaction_index t.txid short low high at in
      let k : ℕ = size_of_int d.transaction_index in
      let found = find_transaction-IsDistinct block.tx k t.txid distinct at in
      let output : t.txo_index ≡ d.txo_index = ap (λ (x : Transaction). x.txo_index) fields in
      let placed : encoder_for lib c.chain block.height (int_of_size k) t.txo_index false
          ≡ answer encoded =
        rw (same, sym index, output) made in
      elim (Bool-cases (ltb_ℤ t.txo_index (int_of_size raw.vout_size))) [
        | inl fits ↦ rw fits (
            encode_txid_lem c raw block t.txid encoded k t.txo_index w' ec er eb found below fits
              placed
            ∙ ground (arith, same, index, fields))
        | inr large ↦
            rw large
              (encode_txid_refused c raw block t.txid k t.txo_index w' ec er eb found below large)
      ]
