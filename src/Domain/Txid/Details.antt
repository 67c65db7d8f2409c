-- ===== src/Domain/Txid/Details.antt =====
-- What a constructed `Txid` of src/domain/txid.cpp is, in terms of the node's answers.
use btcr_did_method.Base.{
  ℕ, ◌^◌, ◌≤◌, ◌<◌, ◌≡◌, refl, ◌≢◌, ◌⊎◌, inl, inr, true, false, none, some, [], ◌∷◌, arith, Str,
  bytes, str_eq, is_empty, is_one_of, find_first_not_of, lowercase, get_elem?, length, All, pos,
  ◌≤ℤ◌, int_of_size, int_of_size_small, size_of_int, size_of_int_pos,
}
use btcr_did_method.Base.Answer.{answer, Answer-cases}
use btcr_did_method.Base.Run.{ok, Log}
use btcr_did_method.Rpc.{Btc, RawTransaction, BlockInfo, BlockchainInfo, IsActive}
use btcr_did_method.Domain.BlockHeight
use btcr_did_method.Domain.TransactionIndex
use btcr_did_method.Domain.Txid.{
  Txid, is_input_string_valid, find_transaction, exists_in_network, extract_transaction_details,
  make,
}
use btcr_did_method.Domain.Txid.Search.{find_transaction-le-length, get_elem?-find_transaction}

-- A lowercase hexadecimal digit.
abbrev pub IsHex : ℕ → Type 0
IsHex c = ((48 ≤ c) × (c ≤ 57)) ⊎ ((97 ≤ c) × (c ≤ 102))

is_one_of-IsHex : (c : ℕ) → is_one_of (bytes "0123456789abcdef") c ≡ true → IsHex c
unfolding is_one_of
is_one_of-IsHex c h = ground arith

find_first_not_of-none :
    (s : Str) → find_first_not_of s (bytes "0123456789abcdef") ≡ none → All IsHex s
unfolding find_first_not_of
find_first_not_of-none [] h = tt
find_first_not_of-none (c ∷ s) h = ground (arith, is_one_of-IsHex c, find_first_not_of-none s)

-- The test accepts exactly 64 lowercase hexadecimal digits.
pub is_input_string_valid-All :
    (s : Str) → is_input_string_valid s ≡ true → (length s ≡ 64) × All IsHex s
unfolding is_input_string_valid
is_input_string_valid-All s h = ground (arith, find_first_not_of-none s)

module _ (btc : Btc) where
  -- A `Txid` that was constructed, and what the node answered.
  pub record Details (raw : RawTransaction) (block : BlockInfo) (c : BlockchainInfo) (txid : Str)
      (t : Txid) : Type 0 where
    pub asked : btc.getrawtransaction txid (pos 1) ≡ answer raw
    pub block_answered : btc.getblock raw.blockhash ≡ answer block
    pub chain_answered : btc.getblockchaininfo ≡ answer c
    pub nonneg : pos 0 ≤ℤ block.height
    pub found : find_transaction block.tx txid ≢ length block.tx
    pub fields : t ≡ record {
      block_height = record { height = block.height };
      transaction_index = record { index = int_of_size (find_transaction block.tx txid) };
      testnet = str_eq c.chain (bytes "test");
      txid_str = txid;
    }

  answers-Details :
      (raw : RawTransaction) (block : BlockInfo) (c : BlockchainInfo) (txid : Str) (w : Log)
      (t : Txid)
      → btc.getrawtransaction txid (pos 1) ≡ answer raw
      → btc.getblock raw.blockhash ≡ answer block
      → btc.getblockchaininfo ≡ answer c
      → (extract_transaction_details btc txid w).0 ≡ ok t
      → Details raw block c txid t
  unfolding extract_transaction_details
  answers-Details raw block c txid w t er eb ec h = ground arith

  pub extract_transaction_details-Details :
      (txid : Str) (w : Log) (t : Txid)
      → (extract_transaction_details btc txid w).0 ≡ ok t
      → (raw : RawTransaction) × (block : BlockInfo) × (c : BlockchainInfo) × Details raw block c
          txid t
  unfolding extract_transaction_details
  extract_transaction_details-Details txid w t h =
      elim (Answer-cases (btc.getrawtransaction txid (pos 1))) [
        | inr (e, er) ↦ absurd (ground arith)
        | inl (raw, er) ↦ elim (Answer-cases (btc.getblock raw.blockhash)) [
          | inr (e, eb) ↦ absurd (ground arith)
          | inl (block, eb) ↦ elim (Answer-cases btc.getblockchaininfo) [
            | inr (e, ec) ↦ absurd (ground arith)
            | inl (c, ec) ↦ (raw, block, c, answers-Details raw block c txid w t er eb ec h)
          ]
        ]
      ]

  -- A constructed `Txid` passed the test of its text.
  pub make_valid :
      (s : Str) (w : Log) (t : Txid)
      → (make btc s w).0 ≡ ok t
      → (is_input_string_valid (lowercase s) ≡ true)
        × ((extract_transaction_details btc (lowercase s) w).0 ≡ ok t)
  unfolding make
  make_valid s w t h = ground arith

  -- Its flag is that of the test network, of the three.
  pub make-testnet :
      (s : Str) (w : Log) (t : Txid) (c : BlockchainInfo)
      → btc.getblockchaininfo ≡ answer c
      → (make btc s w).0 ≡ ok t
      → t.testnet ≡ str_eq c.chain (bytes "test")
  make-testnet s w t c ec h =
      let (raw, block, c', d) =
        extract_transaction_details-Details (lowercase s) w t (make_valid s w t h).1 in
      let same : c' ≡ c = ground (arith, d.chain_answered) in rw (d.fields, same) refl

  -- A `Txid` that was constructed is in the block that the node names for it: at its index in that
  -- block stands its text, which is the input in lower case and 64 hexadecimal digits; its height is
  -- the block's, and is not negative. The block that the node names is in the active chain.
  pub make_locates :
      (s : Str) (w : Log) (t : Txid)
      → (make btc s w).0 ≡ ok t
      → ((raw : RawTransaction)
          → btc.getrawtransaction (lowercase s) (pos 1) ≡ answer raw
          → IsActive btc raw.blockhash)
      → (raw : RawTransaction) × (block : BlockInfo) × (btc.getrawtransaction t.txid_str (pos 1)
          ≡ answer raw)
        × (btc.getblock raw.blockhash ≡ answer block)
        × (t.block_height.height ≡ block.height)
        × (pos 0 ≤ℤ block.height)
        × (get_elem? block.tx (size_of_int t.transaction_index.index) ≡ some t.txid_str)
        × (t.txid_str ≡ lowercase s)
        × (length t.txid_str ≡ 64)
        × All IsHex t.txid_str
  make_locates s w t h active =
      let (valid, extracted) = make_valid s w t h in
      let (raw, block, c, d) = extract_transaction_details-Details (lowercase s) w t extracted in
      let (is_64, all_hex) = is_input_string_valid-All (lowercase s) valid in
      let k : ℕ = find_transaction block.tx (lowercase s) in
      let below : k < 2 ^ 31 = omega (
        arith,
        find_transaction-le-length block.tx (lowercase s),
        (active raw d.asked).length-tx-lt block d.block_answered,
      ) in
      rw d.fields (
        raw,
        block,
        d.asked,
        d.block_answered,
        refl,
        d.nonneg,
        rw (int_of_size_small k below, size_of_int_pos k below)
            (get_elem?-find_transaction block.tx (lowercase s) d.found),
        refl,
        is_64,
        all_hex,
      )

  -- If the input in lower case is a valid text, the node has a transaction of that text that is not
  -- empty, and its block, at a height that is not negative and at an index below 2 ^ 31, lists it,
  -- then a `Txid` is constructed, with that height, that index and the network's flag.
  pub make_of_answers :
      (s : Str) (exists raw : RawTransaction) (block : BlockInfo) (c : BlockchainInfo) (w : Log)
      → is_input_string_valid (lowercase s) ≡ true
      → btc.getrawtransaction (lowercase s) (pos 0) ≡ answer exists
      → is_empty exists.hex ≡ false
      → btc.getrawtransaction (lowercase s) (pos 1) ≡ answer raw
      → btc.getblock raw.blockhash ≡ answer block
      → btc.getblockchaininfo ≡ answer c
      → pos 0 ≤ℤ block.height
      → find_transaction block.tx (lowercase s) ≢ length block.tx
      → find_transaction block.tx (lowercase s) < 2 ^ 31
      → make btc s w ≡ (
        ok (record {
          block_height = record { height = block.height };
          transaction_index = record { index = pos (find_transaction block.tx (lowercase s)) };
          testnet = str_eq c.chain (bytes "test");
          txid_str = lowercase s;
        }),
        w,
      )
  unfolding make exists_in_network extract_transaction_details
  make_of_answers s exists raw block c w valid e0 hex er eb ec height found small = ground (
    arith,
    int_of_size_small (find_transaction block.tx (lowercase s)) small,
    BlockHeight.make_nonneg block.height w height,
    TransactionIndex.make_nonneg (pos (find_transaction block.tx (lowercase s))) w (omega arith),
  )
