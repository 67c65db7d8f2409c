-- ===== src/T2t/RoundTrip.antt =====
-- A txid that is encoded to a txref and decoded again (src/t2tSupport.cpp).
use btcr_did_method.Base.{
  ℕ, ◌^◌, ◌<◌, ◌≡◌, ◌∙◌, ◌≢◌, ◌⊎◌, inl, inr, Bool, true, false, some, arith, Bool-cases, ltb_ℤ,
  if◌then◌else◌, Str, bytes, str_eq, str_eq_refl, get_elem?, length, ℤ, pos, int_of_size,
  int_of_size_small, size_of_int, size_of_int_pos,
}
use btcr_did_method.Base.Answer.{Answer, answer, Answer-cases}
use btcr_did_method.Base.Run.{ok, Log}
use btcr_did_method.Libtxref.{Libtxref, IsLawful, Inverts, DecodedResult}
use btcr_did_method.Rpc.{Btc, RawTransaction, BlockInfo, BlockchainInfo, IsActive}
use btcr_did_method.Domain.Txid.{find_transaction}
use btcr_did_method.Domain.Txid.Search.{find_transaction-le-length, get_elem?-find_transaction}
use btcr_did_method.T2t.{Transaction, is_network_mismatch, encode_txid, decode_txref}

-- The encoder and the prefix of a network, by its name.
abbrev pub encoder_for : Libtxref → Str → ℤ → ℤ → ℤ → Bool → Answer Str
encoder_for lib chain =
    if str_eq chain (bytes "test")
    then lib.encode_testnet
    else if str_eq chain (bytes "regtest")
    then lib.encode_regtest
    else lib.encode

abbrev pub hrp_for : Libtxref → Str → Str
hrp_for lib chain =
    if str_eq chain (bytes "test")
    then lib.hrp_test
    else if str_eq chain (bytes "regtest")
    then lib.hrp_regtest
    else lib.hrp_main

abbrev pub IsKnown : Str → Type 0
IsKnown chain = (chain ≡ bytes "main") ⊎ (chain ≡ bytes "test") ⊎ (chain ≡ bytes "regtest")

pub decode-encoder_for :
    (lib : Libtxref) (chain : Str)
    → IsLawful lib
    → Inverts (encoder_for lib chain) lib.decode (hrp_for lib chain)
decode-encoder_for lib chain lawful = elim (Bool-cases (str_eq chain (bytes "test"))) [
  | inl e ↦ rw e lawful.test
  | inr e ↦ elim (Bool-cases (str_eq chain (bytes "regtest"))) [
    | inl f ↦ rw (e, f) lawful.regtest
    | inr f ↦ rw (e, f) lawful.main
  ]
]

-- The prefix of a known network is that network's.
pub is_network_mismatch-hrp_for :
    (lib : Libtxref) (chain : Str)
    → IsKnown chain
    → is_network_mismatch lib (hrp_for lib chain) chain ≡ false
unfolding is_network_mismatch str_eq
is_network_mismatch-hrp_for lib chain (inl e) = rw e (ground (arith, str_eq_refl lib.hrp_main))
is_network_mismatch-hrp_for lib chain (inr (inl e)) =
    rw e (ground (arith, str_eq_refl lib.hrp_test))
is_network_mismatch-hrp_for lib chain (inr (inr e)) =
    rw e (ground (arith, str_eq_refl lib.hrp_regtest))

module _ (lib : Libtxref) (btc : Btc) where
  -- What `encodeTxid` returned, in terms of the node's answers.
  pub record Encoded (c : BlockchainInfo) (raw : RawTransaction) (block : BlockInfo) (txid : Str)
      (i : ℤ) (t : Transaction) : Type 0 where
    pub found : find_transaction block.tx txid ≢ length block.tx
    pub fits : ltb_ℤ i (int_of_size raw.vout_size) ≡ true
    pub encoded :
        encoder_for lib c.chain block.height (int_of_size (find_transaction block.tx txid)) i false
        ≡ answer t.txref
    pub fields : t ≡ record {
      txid = txid;
      txref = t.txref;
      network = c.chain;
      block_height = block.height;
      transaction_index = int_of_size (find_transaction block.tx txid);
      txo_index = i;
      query = txid;
    }

  pub encode_txid-Encoded :
      (c : BlockchainInfo) (raw : RawTransaction) (block : BlockInfo) (txid : Str) (i : ℤ) (w : Log)
      (t : Transaction)
      → btc.getblockchaininfo ≡ answer c
      → btc.getrawtransaction txid (pos 1) ≡ answer raw
      → btc.getblock raw.blockhash ≡ answer block
      → (encode_txid lib btc txid i w).0 ≡ ok t
      → Encoded c raw block txid i t
  unfolding encode_txid
  encode_txid-Encoded c raw block txid i w t ec er eb h = ground arith

  -- A successful run had an answer to each of its three questions.
  pub encode_txid-answers :
      (txid : Str) (i : ℤ) (w : Log) (t : Transaction)
      → (encode_txid lib btc txid i w).0 ≡ ok t
      → (c : BlockchainInfo) × (raw : RawTransaction) × (block : BlockInfo) × (btc.getblockchaininfo
          ≡ answer c)
        × (btc.getrawtransaction txid (pos 1) ≡ answer raw)
        × (btc.getblock raw.blockhash ≡ answer block)
  unfolding encode_txid
  encode_txid-answers txid i w t h = elim (Answer-cases btc.getblockchaininfo) [
    | inr (e, ec) ↦ absurd (ground arith)
    | inl (c, ec) ↦ elim (Answer-cases (btc.getrawtransaction txid (pos 1))) [
      | inr (e, er) ↦ absurd (ground arith)
      | inl (raw, er) ↦ elim (Answer-cases (btc.getblock raw.blockhash)) [
        | inr (e, eb) ↦ absurd (ground arith)
        | inl (block, eb) ↦ (c, raw, block, ec, er, eb)
      ]
    ]
  ]

  -- An index that was encoded is below the number of the transaction's outputs.
  pub encode_txid-fits :
      (raw : RawTransaction) (txid : Str) (i : ℤ) (w : Log) (t : Transaction)
      → btc.getrawtransaction txid (pos 1) ≡ answer raw
      → (encode_txid lib btc txid i w).0 ≡ ok t
      → ltb_ℤ i (int_of_size raw.vout_size) ≡ true
  encode_txid-fits raw txid i w t asked h =
      let (c, raw', block, ec, er, eb) = encode_txid-answers txid i w t h in
      let same : raw' ≡ raw = ground arith in
      ground (arith, (encode_txid-Encoded c raw' block txid i w t ec er eb h).fits)

  pub decode_txref_lem :
      (c : BlockchainInfo) (d : DecodedResult) (hash : Str) (block : BlockInfo) (text txid : Str)
      (w : Log)
      → btc.getblockchaininfo ≡ answer c
      → lib.decode text ≡ answer d
      → is_network_mismatch lib d.hrp c.chain ≡ false
      → btc.getblockhash d.block_height ≡ answer hash
      → btc.getblock hash ≡ answer block
      → get_elem? block.tx (size_of_int d.transaction_index) ≡ some txid
      → decode_txref lib btc text w ≡ (
        ok (record {
          txid = txid;
          txref = d.txref;
          network = c.chain;
          block_height = d.block_height;
          transaction_index = d.transaction_index;
          txo_index = d.txo_index;
          query = text;
        }),
        w,
      )
  unfolding decode_txref
  decode_txref_lem c d hash block text txid w ec ed em eh eb et = ground arith

  -- What libtxref and the node say of a txref that was encoded.
  pub record Located (c : BlockchainInfo) (raw : RawTransaction) (block : BlockInfo) (txid : Str)
      (t : Transaction) : Type 0 where
    pub decoded :
        lib.decode t.txref
        ≡ answer (record {
          hrp = hrp_for lib c.chain;
          txref = t.txref;
          block_height = t.block_height;
          transaction_index = t.transaction_index;
          txo_index = t.txo_index;
        })
    pub hash_answered : btc.getblockhash t.block_height ≡ answer raw.blockhash
    pub block_answered : btc.getblock raw.blockhash ≡ answer block
    pub at_index : get_elem? block.tx (size_of_int t.transaction_index) ≡ some txid

  pub Encoded-Located :
      IsLawful lib
      → (c : BlockchainInfo) (raw : RawTransaction) (block : BlockInfo) (txid : Str) (i : ℤ)
        (t : Transaction)
      → btc.getblock raw.blockhash ≡ answer block
      → IsActive btc raw.blockhash
      → Encoded c raw block txid i t
      → Located c raw block txid t
  Encoded-Located lawful c raw block txid i t eb active e =
      let k : ℕ = find_transaction block.tx txid in
      let below : k < 2 ^ 31 =
        omega (arith, find_transaction-le-length block.tx txid, active.length-tx-lt block eb) in
      let index : int_of_size k ≡ pos k = int_of_size_small k below in
      record {
        decoded =
            rw e.fields
              ((decode-encoder_for lib c.chain lawful).decode-encoder _ _ _ _ _ e.encoded);
        hash_answered = rw e.fields (active.getblockhash-height block eb);
        block_answered = eb;
        at_index =
            rw (e.fields, index, size_of_int_pos k below)
              (get_elem?-find_transaction block.tx txid e.found);
      }

  decode_txref-Encoded :
      IsLawful lib
      → (c : BlockchainInfo) (raw : RawTransaction) (block : BlockInfo) (txid : Str) (i : ℤ)
        (w : Log) (t : Transaction)
      → btc.getblockchaininfo ≡ answer c
      → IsKnown c.chain
      → btc.getblock raw.blockhash ≡ answer block
      → IsActive btc raw.blockhash
      → Encoded c raw block txid i t
      → decode_txref lib btc t.txref w ≡ (ok (record t { query = t.txref }), w)
  decode_txref-Encoded lawful c raw block txid i w t ec known eb active e =
      let l = Encoded-Located lawful c raw block txid i t eb active e in
      decode_txref_lem c _ raw.blockhash block t.txref txid w ec l.decoded
        (is_network_mismatch-hrp_for lib c.chain known) l.hash_answered l.block_answered l.at_index
      ∙ rw e.fields

  -- A txid that `encodeTxid` turned into a txref is found again: `decodeTxref` of that txref returns
  -- the same transaction with the txref as its query, and prints nothing. The network is one of the
  -- three that bitcoind names, libtxref is lawful, and the block is in the active chain.
  pub encode_txid-decode_txref :
      IsLawful lib
      → (txid : Str) (i : ℤ) (w w' : Log) (t : Transaction)
      → ((c : BlockchainInfo) → btc.getblockchaininfo ≡ answer c → IsKnown c.chain)
      → ((raw : RawTransaction)
          → btc.getrawtransaction txid (pos 1) ≡ answer raw
          → IsActive btc raw.blockhash)
      → (encode_txid lib btc txid i w).0 ≡ ok t
      → decode_txref lib btc t.txref w' ≡ (ok (record t { query = t.txref }), w')
  encode_txid-decode_txref lawful txid i w w' t known active h =
      let (c, raw, block, ec, er, eb) = encode_txid-answers txid i w t h in
      decode_txref-Encoded lawful c raw block txid i w' t ec (known c ec) eb (active raw er)
        (encode_txid-Encoded c raw block txid i w t ec er eb h)
