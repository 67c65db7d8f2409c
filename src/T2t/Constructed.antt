-- ===== src/T2t/Constructed.antt =====
-- What `decodeTxref` (src/t2tSupport.cpp) makes of the text of a `Txref` that was constructed at the
-- same node (src/domain/txref.cpp).
use btcr_did_method.Base.{
  ◌≡◌, refl, Bool, Bool-cases, inl, inr, sym, ap, ◌∙◌, arith, Str, bytes, str_eq, lowercase, pos,
  if◌then◌else◌, ◌∷◌, Message,
}
use btcr_did_method.Base.Answer.{answer}
use btcr_did_method.Base.Run.{ok, exits, failed, stderr, Log}
use btcr_did_method.Libtxref.{Libtxref, IsLawful, HasThreePrefixes, DecodedResult}
use btcr_did_method.Rpc.{Btc, RawTransaction, BlockchainInfo, IsActive}
use btcr_did_method.Domain.Vout.{Vout}
use btcr_did_method.Domain.Txid
use btcr_did_method.Domain.Txid.{Txid}
use btcr_did_method.Domain.Txid.Details.{make_locates, make-testnet}
use btcr_did_method.Domain.Txref
use btcr_did_method.Domain.Txref.{Txref}
use btcr_did_method.Domain.Txref.RoundTrip.{make-Built, decode-Built}
use btcr_did_method.T2t.{Transaction, is_network_mismatch, decode_txref}
use btcr_did_method.T2t.RoundTrip.{IsKnown, decode_txref_lem, is_network_mismatch-hrp_for}
use btcr_did_method.T2t.Networks.{is_network_mismatch-other, decode_txref_wrong_network}

-- The prefix that the constructor chooses is that of the network, but for the regression test
-- network, to which it gives the main one.
abbrev hrp_of : (lib : Libtxref) → Str → Str
hrp_of lib chain = if str_eq chain (bytes "test") then lib.hrp_test else lib.hrp_main

is_network_mismatch-hrp_of :
    (lib : Libtxref) (chain : Str)
    → HasThreePrefixes lib
    → IsKnown chain
    → is_network_mismatch lib (hrp_of lib chain) chain ≡ str_eq chain (bytes "regtest")
unfolding str_eq
is_network_mismatch-hrp_of lib chain three (inl e) =
    rw e (is_network_mismatch-hrp_for lib (bytes "main") (inl refl))
is_network_mismatch-hrp_of lib chain three (inr (inl e)) =
    rw e (is_network_mismatch-hrp_for lib (bytes "test") (inr (inl refl)))
is_network_mismatch-hrp_of lib chain three (inr (inr e)) = rw e (
    is_network_mismatch-other lib (bytes "main") (bytes "regtest") three (inl refl) (inr (inr refl))
      (λ same. ground arith))

module _ (lib : Libtxref) (btc : Btc) where
  -- The transaction that a `Txref` stands for.
  abbrev pub transaction_of : BlockchainInfo → Txref → Transaction
  transaction_of c r = record {
    txid = r.txid.txid_str;
    txref = r.txref_str;
    network = c.chain;
    block_height = r.txid.block_height.height;
    transaction_index = r.txid.transaction_index.index;
    txo_index = r.vout.index;
    query = r.txref_str;
  }

  -- What libtxref says of its text, by the flag of its `Txid`.
  abbrev decoded_as : Txid → Vout → Txref → Bool → DecodedResult
  decoded_as txid vout r flagged = record {
    hrp = if flagged then lib.hrp_test else lib.hrp_main;
    txref = r.txref_str;
    block_height = txid.block_height.height;
    transaction_index = txid.transaction_index.index;
    txo_index = vout.index;
  }

  -- The text of a `Txref` that was constructed of a `Txid` and a `Vout` is decoded by `decodeTxref` at
  -- the same node to the transaction, the position and the index that it was constructed of, on the
  -- main and the test network; on the regression test network it is refused as one of a wrong network,
  -- and the program exits. The network is one of these three, libtxref is lawful, its prefixes of the
  -- three differ, and the block of the transaction is in the active chain.
  pub make-decode_txref :
      IsLawful lib
      → HasThreePrefixes lib
      → (c : BlockchainInfo) (s : Str) (vout : Vout) (txid : Txid) (r : Txref) (w w' w'' : Log)
      → btc.getblockchaininfo ≡ answer c
      → IsKnown c.chain
      → ((raw : RawTransaction)
          → btc.getrawtransaction (lowercase s) (pos 1) ≡ answer raw
          → IsActive btc raw.blockhash)
      → (Txid.make btc s w).0 ≡ ok txid
      → (Txref.make lib btc txid vout w').0 ≡ ok r
      → decode_txref lib btc r.txref_str w'' ≡ (
          if str_eq c.chain (bytes "regtest")
          then (exits failed, stderr (Message.wrong_network r.txref_str c.chain) ∷ w'')
          else (ok (transaction_of c r), w''))
  make-decode_txref lawful three c s vout txid r w w' w'' ec known active constructed h =
      let (raw0, built) = make-Built lib btc txid vout r w' h in
      let (raw, block, asked, block_answered, height, _, at_index, text, _, _) =
        make_locates btc s w txid constructed active in
      let hash_of_height : btc.getblockhash txid.block_height.height ≡ answer raw.blockhash =
        rw height ((active raw (rw text at asked)).getblockhash-height block block_answered) in
      let flag = make-testnet btc s w txid c ec constructed in
      let decoded : lib.decode r.txref_str
          ≡ answer (record {
            hrp = hrp_of lib c.chain;
            txref = r.txref_str;
            block_height = txid.block_height.height;
            transaction_index = txid.transaction_index.index;
            txo_index = vout.index;
          }) =
        decode-Built lib btc lawful txid vout raw0 r built
        ∙ ap (λ flagged. answer (decoded_as txid vout r flagged)) flag in
      let mismatch = is_network_mismatch-hrp_of lib c.chain three known in
      elim (Bool-cases (str_eq c.chain (bytes "regtest"))) [
        | inl e ↦
            rw e (decode_txref_wrong_network lib btc c _ r.txref_str w'' decoded ec (mismatch ∙ e))
        | inr e ↦ rw e (
            decode_txref_lem lib btc c _ raw.blockhash block r.txref_str txid.txid_str w'' ec
              decoded (mismatch ∙ e) hash_of_height block_answered at_index
            ∙ ap (λ u. (ok (transaction_of c u), w'')) (sym built.fields))
      ]
