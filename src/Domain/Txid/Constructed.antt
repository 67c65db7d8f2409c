-- ===== src/Domain/Txid/Constructed.antt =====
-- For which texts the constructor of `Txid` (src/domain/txid.cpp) returns, and what.
use btcr_did_method.Base.{
  ℕ, ◌^◌, ◌<◌, ◌≡◌, ◌↔◌, refl, inl, inr, true, false, none, [], ◌∷◌, arith, Str, bytes, str_eq,
  is_empty, is_one_of, find_first_not_of, lowercase, length, All, pos, ◌≤ℤ◌, int_of_size_small, ap,
  sym, ◌∙◌,
}
use btcr_did_method.Base.Answer.{answer, Answer-cases}
use btcr_did_method.Base.Run.{ok, Log}
use btcr_did_method.Rpc.{Btc, RawTransaction, BlockInfo, BlockchainInfo, IsActive}
use btcr_did_method.Domain.Txid.{
  Txid, is_input_string_valid, find_transaction, exists_in_network, make,
}
use btcr_did_method.Domain.Txid.Search.{
  IsFirstAt, find_transaction-IsFirstAt, find_transaction-le-length, get_elem?-find_transaction,
  find_transaction_first, get_elem?-lt,
}
use btcr_did_method.Domain.Txid.Details.{
  IsHex, is_input_string_valid-All, extract_transaction_details-Details, make_valid,
  make_of_answers,
}

is_one_of_hex : (c : ℕ) → IsHex c → is_one_of (bytes "0123456789abcdef") c ≡ true
unfolding is_one_of
is_one_of_hex c h = ground (arith, h)

find_first_not_of-All :
    (s : Str) → All IsHex s → find_first_not_of s (bytes "0123456789abcdef") ≡ none
unfolding find_first_not_of
find_first_not_of-All [] h = refl
find_first_not_of-All (c ∷ s) (h, hs) =
    ground (arith, is_one_of_hex c h, find_first_not_of-All s hs)

is_input_string_valid_hex : (s : Str) → length s ≡ 64 → All IsHex s → is_input_string_valid s ≡ true
unfolding is_input_string_valid
is_input_string_valid_hex s size hex = ground (arith, find_first_not_of-All s hex)

module _ (btc : Btc) where
  -- The `Txid` that a text stands for at a node: the text is 64 hexadecimal digits, the node has a
  -- transaction of the text in lower case that is not empty, and names a block for it, at a height
  -- that is not negative, in which it stands first at the index.
  pub record Describes (s : Str) (t : Txid) : Type 0 where
    pub exists : RawTransaction
    pub raw : RawTransaction
    pub block : BlockInfo
    pub c : BlockchainInfo
    pub k : ℕ
    pub is_64 : length (lowercase s) ≡ 64
    pub all_hex : All IsHex (lowercase s)
    pub known : btc.getrawtransaction (lowercase s) (pos 0) ≡ answer exists
    pub some_hex : is_empty exists.hex ≡ false
    pub asked : btc.getrawtransaction (lowercase s) (pos 1) ≡ answer raw
    pub block_answered : btc.getblock raw.blockhash ≡ answer block
    pub chain_answered : btc.getblockchaininfo ≡ answer c
    pub nonneg : pos 0 ≤ℤ block.height
    pub first : IsFirstAt block.tx (lowercase s) k
    pub fields : t ≡ record {
      block_height = record { height = block.height };
      transaction_index = record { index = pos k };
      testnet = str_eq c.chain (bytes "test");
      txid_str = lowercase s;
    }

  make-exists :
      (s : Str) (w : Log) (t : Txid)
      → (make btc s w).0 ≡ ok t
      → (exists : RawTransaction) × (btc.getrawtransaction (lowercase s) (pos 0) ≡ answer exists)
        × (is_empty exists.hex ≡ false)
  unfolding make exists_in_network
  make-exists s w t h = elim (Answer-cases (btc.getrawtransaction (lowercase s) (pos 0))) [
    | inr (x, e) ↦ absurd (ground arith)
    | inl (exists, e) ↦ (exists, e, ground arith)
  ]

  Describes-make :
      (s : Str) (w : Log) (t : Txid)
      → ((raw : RawTransaction)
          → btc.getrawtransaction (lowercase s) (pos 1) ≡ answer raw
          → IsActive btc raw.blockhash)
      → (make btc s w).0 ≡ ok t
      → Describes s t
  Describes-make s w t active h =
      let (valid, extracted) = make_valid btc s w t h in
      let (raw, block, c, d) =
        extract_transaction_details-Details btc (lowercase s) w t extracted in
      let (size, hex) = is_input_string_valid-All (lowercase s) valid in
      let (known, asked, found_hex) = make-exists s w t h in
      let below : find_transaction block.tx (lowercase s) < 2 ^ 31 = omega (
        arith,
        find_transaction-le-length block.tx (lowercase s),
        (active raw d.asked).length-tx-lt block d.block_answered,
      ) in
      record {
        exists = known;
        raw = raw;
        block = block;
        c = c;
        k = find_transaction block.tx (lowercase s);
        is_64 = size;
        all_hex = hex;
        known = asked;
        some_hex = found_hex;
        asked = d.asked;
        block_answered = d.block_answered;
        chain_answered = d.chain_answered;
        nonneg = d.nonneg;
        first = (
          get_elem?-find_transaction block.tx (lowercase s) d.found,
          find_transaction_first block.tx (lowercase s),
        );
        fields = rw (sym (int_of_size_small _ below)) d.fields;
      }

  make-Describes :
      (s : Str) (w : Log) (t : Txid)
      → ((raw : RawTransaction)
          → btc.getrawtransaction (lowercase s) (pos 1) ≡ answer raw
          → IsActive btc raw.blockhash)
      → Describes s t
      → (make btc s w).0 ≡ ok t
  make-Describes s w t active d =
      let index = find_transaction-IsFirstAt d.block.tx (lowercase s) d.k d.first in
      let below : d.k < length d.block.tx = get_elem?-lt d.block.tx d.k (lowercase s) d.first.0 in
      let short = (active d.raw d.asked).length-tx-lt d.block d.block_answered in
      ap (λ p. p.0)
        (make_of_answers btc s d.exists d.raw d.block d.c w
          (is_input_string_valid_hex (lowercase s) d.is_64 d.all_hex) d.known d.some_hex d.asked
          d.block_answered d.chain_answered d.nonneg (λ e. absurd (omega (arith, index, e)))
          (omega (arith, index, short)))
      ∙ ground (arith, index, d.fields)

  -- The constructor of `Txid` returns just where its text is 64 hexadecimal digits, the node has a
  -- transaction of that text in lower case that is not empty, and the block that the node names for
  -- it, at a height that is not negative, lists it: and then what it returns has that height, the first
  -- index at which the block lists the transaction, the flag of the test network and the text in lower
  -- case. The block that the node names is in the active chain.
  pub make-Describes_iff :
      (s : Str) (w : Log) (t : Txid)
      → ((raw : RawTransaction)
          → btc.getrawtransaction (lowercase s) (pos 1) ≡ answer raw
          → IsActive btc raw.blockhash)
      → ((make btc s w).0 ≡ ok t) ↔ Describes s t
  make-Describes_iff s w t active = (Describes-make s w t active, make-Describes s w t active)
