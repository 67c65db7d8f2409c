-- ===== src/Domain/Txid/Quiet.antt =====
-- Constructing a `Txid` (src/domain/txid.cpp) prints nothing and depends on the node alone.
use btcr_did_method.Base.{sym, ap, ◌≡◌, ◌∙◌, [], arith, Str, lowercase, lowercase_idem, ℤ}
use btcr_did_method.Base.Run.{ok, Log}
use btcr_did_method.Rpc.{Btc}
use btcr_did_method.Domain.BlockHeight
use btcr_did_method.Domain.TransactionIndex
use btcr_did_method.Domain.Txid.{Txid, extract_transaction_details, make}

module _ (btc : Btc) where
  -- The case of the letters does not matter.
  pub make-lowercase : (s : Str) → make btc (lowercase s) ≡ make btc s
  unfolding make
  make-lowercase s = rw lowercase_idem

  BlockHeight-make_quiet : (h : ℤ) (w : Log) → BlockHeight.make h w ≡ ((BlockHeight.make h []).0, w)
  unfolding BlockHeight.make
  BlockHeight-make_quiet h w = ground arith

  TransactionIndex-make_quiet :
      (h : ℤ) (w : Log) → TransactionIndex.make h w ≡ ((TransactionIndex.make h []).0, w)
  unfolding TransactionIndex.make
  TransactionIndex-make_quiet h w = ground arith

  extract_transaction_details_quiet :
      (s : Str) (w : Log)
      → extract_transaction_details btc s w ≡ ((extract_transaction_details btc s []).0, w)
  unfolding extract_transaction_details
  extract_transaction_details_quiet s w = ground arith

  pub make_quiet : (s : Str) (w : Log) → make btc s w ≡ ((make btc s []).0, w)
  unfolding make
  make_quiet s w = ground (arith, extract_transaction_details_quiet (lowercase s) w)

  -- Constructing a `Txid` once more from the text of one that was constructed, where that text is
  -- the input in lower case, gives the same, and prints nothing.
  pub make_again :
      (s : Str) (t : Txid) (w w' : Log)
      → (make btc s w).0 ≡ ok t
      → t.txid_str ≡ lowercase s
      → make btc t.txid_str w' ≡ (ok t, w')
  make_again s t w w' h text =
      ap (λ u. make btc u w') text
      ∙ ap (λ f. f w') (make-lowercase s)
      ∙ make_quiet s w'
      ∙ ap (λ o. (o, w')) (sym (ap (λ p. p.0) (make_quiet s w)) ∙ h)
