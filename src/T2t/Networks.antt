-- ===== src/T2t/Networks.antt =====
-- A txref of one network at a node of another one, for `decodeTxref` (src/t2tSupport.cpp).
use btcr_did_method.Base.{◌≡◌, ◌≢◌, true, arith, Str, sym, str_eq, str_eq_ne, ℤ, ◌∷◌, Message}
use btcr_did_method.Base.Answer.{answer}
use btcr_did_method.Base.Run.{ok, exits, failed, stderr, Log}
use btcr_did_method.Libtxref.{Libtxref, IsLawful, HasThreePrefixes, DecodedResult}
use btcr_did_method.Rpc.{Btc, BlockchainInfo}
use btcr_did_method.T2t.{Transaction, is_network_mismatch, encode_txid, decode_txref}
use btcr_did_method.T2t.RoundTrip.{
  IsKnown, hrp_for, decode-encoder_for, encode_txid-answers, encode_txid-Encoded,
}

-- The prefix of a known network is not that of another known network.
pub is_network_mismatch-other :
    (lib : Libtxref) (chain other : Str)
    → HasThreePrefixes lib
    → IsKnown chain
    → IsKnown other
    → other ≢ chain
    → is_network_mismatch lib (hrp_for lib chain) other ≡ true
unfolding is_network_mismatch str_eq
is_network_mismatch-other lib chain other three known known' differ =
    let mt = str_eq_ne lib.hrp_main lib.hrp_test three.main_test in
    let mr = str_eq_ne lib.hrp_main lib.hrp_regtest three.main_regtest in
    let tr = str_eq_ne lib.hrp_test lib.hrp_regtest three.test_regtest in
    let tm = str_eq_ne lib.hrp_test lib.hrp_main (λ e. three.main_test (sym e)) in
    let rm = str_eq_ne lib.hrp_regtest lib.hrp_main (λ e. three.main_regtest (sym e)) in
    let rt = str_eq_ne lib.hrp_regtest lib.hrp_test (λ e. three.test_regtest (sym e)) in
    ground (arith, mt, mr, tr, tm, rm, rt, known, known')

-- What libtxref says of the text that `encodeTxid` made.
pub decode-encode_txid :
    (lib : Libtxref) (btc : Btc) (c : BlockchainInfo) (txid : Str) (i : ℤ) (w : Log)
    (t : Transaction)
    → IsLawful lib
    → btc.getblockchaininfo ≡ answer c
    → (encode_txid lib btc txid i w).0 ≡ ok t
    → lib.decode t.txref
      ≡ answer (record {
        hrp = hrp_for lib c.chain;
        txref = t.txref;
        block_height = t.block_height;
        transaction_index = t.transaction_index;
        txo_index = i;
      })
decode-encode_txid lib btc c txid i w t lawful asked h =
    let (c', raw, block, ec, er, eb) = encode_txid-answers lib btc txid i w t h in
    let e = encode_txid-Encoded lib btc c raw block txid i w t asked er eb h in
    rw e.fields ((decode-encoder_for lib c.chain lawful).decode-encoder _ _ _ _ _ e.encoded)

pub decode_txref_wrong_network :
    (lib : Libtxref) (btc : Btc) (c : BlockchainInfo) (d : DecodedResult) (text : Str) (w : Log)
    → lib.decode text ≡ answer d
    → btc.getblockchaininfo ≡ answer c
    → is_network_mismatch lib d.hrp c.chain ≡ true
    → decode_txref lib btc text w ≡ (exits failed, stderr (Message.wrong_network text c.chain) ∷ w)
unfolding decode_txref
decode_txref_wrong_network lib btc c d text w ed ec em = ground arith

module _ (lib : Libtxref) (here there : Btc) where
  -- A txref that `encodeTxid` made at a node of one network is refused by `decodeTxref` at a node of
  -- another one: it asks nothing of the blocks, prints that the network is wrong, and exits with -1.
  -- The two networks are among the three that bitcoind names, libtxref is lawful, and its prefixes of
  -- the three networks differ.
  pub encode_txid-decode_txref_elsewhere :
      IsLawful lib
      → HasThreePrefixes lib
      → (c c' : BlockchainInfo) (txid : Str) (i : ℤ) (w w' : Log) (t : Transaction)
      → here.getblockchaininfo ≡ answer c
      → there.getblockchaininfo ≡ answer c'
      → IsKnown c.chain
      → IsKnown c'.chain
      → c'.chain ≢ c.chain
      → (encode_txid lib here txid i w).0 ≡ ok t
      → decode_txref lib there t.txref w'
        ≡ (exits failed, stderr (Message.wrong_network t.txref c'.chain) ∷ w')
  encode_txid-decode_txref_elsewhere lawful three c c' txid i w w' t asked asked' known known'
        differ h =
      decode_txref_wrong_network lib there c' _ t.txref w'
        (decode-encode_txid lib here c txid i w t lawful asked h) asked'
        (is_network_mismatch-other lib c.chain c'.chain three known known' differ)
