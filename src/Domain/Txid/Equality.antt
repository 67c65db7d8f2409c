-- ===== src/Domain/Txid/Equality.antt =====
-- `operator==` of `Txid` (src/domain/txid.cpp).
use mathlib.Core.Path.{subst}
use btcr_did_method.Base.{◌≡◌, ◌↔◌, refl, true, str_eq→eq, str_eq_refl, arith}
use btcr_did_method.Domain.BlockHeight
use btcr_did_method.Domain.TransactionIndex
use btcr_did_method.Domain.Txid
use btcr_did_method.Domain.Txid.{Txid}

eq_refl : (a : Txid) → Txid.eq a a ≡ true
unfolding Txid.eq
eq_refl a = ground (
  arith,
  (BlockHeight.eq_iff a.block_height a.block_height).1 refl,
  (TransactionIndex.eq_iff a.transaction_index a.transaction_index).1 refl,
  str_eq_refl a.txid_str,
)

eq→≡ : (a b : Txid) → Txid.eq a b ≡ true → a ≡ b
unfolding Txid.eq
eq→≡ a b h = ground (
  arith,
  (BlockHeight.eq_iff a.block_height b.block_height).0,
  (TransactionIndex.eq_iff a.transaction_index b.transaction_index).0,
  str_eq→eq a.txid_str b.txid_str,
)

-- Two `Txid`s are equal for `operator==` just if they agree in all of their four members, the
-- network flag included.
pub eq_iff : (a b : Txid) → (Txid.eq a b ≡ true) ↔ (a ≡ b)
eq_iff a b = (eq→≡ a b, λ p. subst (λ c. Txid.eq a c ≡ true) p (eq_refl a))
