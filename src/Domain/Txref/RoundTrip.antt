-- ===== src/Domain/Txref/RoundTrip.antt =====
-- A `Txref` that is built from a `Txid` and a `Vout` and read back from its text
-- (src/domain/txref.cpp).
use btcr_did_method.Base.{
  ◌≡◌, ◌∙◌, inl, inr, true, some, arith, Str, lowercase, get_elem?, if◌then◌else◌, leb, pos, ◌≤ℤ◌,
  size_of_int,
}
use btcr_did_method.Base.Answer.{answer, Answer-cases}
use btcr_did_method.Base.Run.{ok, Log}
use btcr_did_method.Libtxref.{Libtxref, IsLawful, DecodedResult}
use btcr_did_method.Rpc.{Btc, RawTransaction, BlockInfo, IsActive}
use btcr_did_method.Domain.Vout
use btcr_did_method.Domain.Vout.{Vout}
use btcr_did_method.Domain.Txid
use btcr_did_method.Domain.Txid.{Txid}
use btcr_did_method.Domain.Txid.Details.{make_locates}
use btcr_did_method.Domain.Txid.Quiet.{make_again}
use btcr_did_method.Domain.Txref.{Txref, make, parse}

module _ (lib : Libtxref) (btc : Btc) where
  -- What the constructor from a `Txid` and a `Vout` returned.
  pub record Built (txid : Txid) (vout : Vout) (raw : RawTransaction) (r : Txref) : Type 0 where
    pub asked : btc.getrawtransaction txid.txid_str (pos 1) ≡ answer raw
    pub fits : leb (size_of_int vout.index) raw.vout_size ≡ true
    pub encoded :
        (if txid.testnet then lib.encode_testnet else lib.encode) txid.block_height.height
          txid.transaction_index.index vout.index true
        ≡ answer r.txref_str
    pub fields : r ≡ record { txid = txid; vout = vout; txref_str = r.txref_str }

  answer-Built :
      (txid : Txid) (vout : Vout) (raw : RawTransaction) (r : Txref) (w : Log)
      → btc.getrawtransaction txid.txid_str (pos 1) ≡ answer raw
      → (make lib btc txid vout w).0 ≡ ok r
      → Built txid vout raw r
  unfolding make
  answer-Built txid vout raw r w er h = ground arith

  pub make-Built :
      (txid : Txid) (vout : Vout) (r : Txref) (w : Log)
      → (make lib btc txid vout w).0 ≡ ok r
      → (raw : RawTransaction) × Built txid vout raw r
  unfolding make
  make-Built txid vout r w h = elim (Answer-cases (btc.getrawtransaction txid.txid_str (pos 1))) [
    | inr (e, er) ↦ absurd (ground arith)
    | inl (raw, er) ↦ (raw, answer-Built txid vout raw r w er h)
  ]

  pub parse_lem :
      (d : DecodedResult) (hash : Str) (block : BlockInfo) (text txid_str : Str) (txid : Txid)
      (w : Log)
      → lib.decode text ≡ answer d
      → btc.getblockhash d.block_height ≡ answer hash
      → btc.getblock hash ≡ answer block
      → get_elem? block.tx (size_of_int d.transaction_index) ≡ some txid_str
      → Txid.make btc txid_str w ≡ (ok txid, w)
      → pos 0 ≤ℤ d.txo_index
      → parse lib btc text w
        ≡ (ok (record { txid = txid; vout = record { index = d.txo_index }; txref_str = text }), w)
  unfolding parse
  parse_lem d hash block text txid_str txid w ed eh eb et em nonneg =
      ground (arith, Vout.make_nonneg d.txo_index w)

  -- The text that the constructor encoded decodes to the parts it encoded.
  pub decode-Built :
      IsLawful lib
      → (txid : Txid) (vout : Vout) (raw : RawTransaction) (r : Txref) → Built txid vout raw r
      → lib.decode r.txref_str
        ≡ answer (record {
          hrp = if txid.testnet then lib.hrp_test else lib.hrp_main;
          txref = r.txref_str;
          block_height = txid.block_height.height;
          transaction_index = txid.transaction_index.index;
          txo_index = vout.index;
        })
  decode-Built lawful txid vout raw r b = ground (
    arith,
    b.encoded,
    lawful.test.decode-encoder txid.block_height.height txid.transaction_index.index vout.index true
        r.txref_str,
    lawful.main.decode-encoder txid.block_height.height txid.transaction_index.index vout.index true
        r.txref_str,
  )

  -- A `Txref` that was built from a constructed `Txid` and a `Vout` is read back from its text as it
  -- was, and reading it prints nothing, on any network, provided that libtxref is lawful, the block
  -- is in the active chain, and the `Vout` is not negative.
  pub make-parse :
      IsLawful lib
      → (s : Str) (vout : Vout) (txid : Txid) (r : Txref) (w w' w'' : Log)
      → ((raw : RawTransaction)
          → btc.getrawtransaction (lowercase s) (pos 1) ≡ answer raw
          → IsActive btc raw.blockhash)
      → pos 0 ≤ℤ vout.index
      → (Txid.make btc s w).0 ≡ ok txid
      → (make lib btc txid vout w').0 ≡ ok r
      → parse lib btc r.txref_str w'' ≡ (ok r, w'')
  make-parse lawful s vout txid r w w' w'' active nonneg constructed h =
      let (raw0, built) = make-Built txid vout r w' h in
      let (raw, block, asked, block_answered, height, _, at_index, text, _, _) =
        make_locates btc s w txid constructed active in
      let hash_of_height : btc.getblockhash txid.block_height.height ≡ answer raw.blockhash =
        rw height ((active raw (rw text at asked)).getblockhash-height block block_answered) in
      let again = make_again btc s txid w w'' constructed text in
      parse_lem _ raw.blockhash block r.txref_str txid.txid_str txid w''
        (decode-Built lawful txid vout raw0 r built) hash_of_height block_answered at_index again
        nonneg
      ∙ rw built.fields
