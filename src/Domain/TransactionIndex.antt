-- ===== src/Domain/TransactionIndex.antt =====
-- `TransactionIndex` of src/domain/transactionIndex.h and src/domain/transactionIndex.cpp. `value()` is the field.
use btcr_did_method.Base.{◌≡◌, ◌↔◌, Bool, true, not, arith, ℤ, pos, ltb_ℤ, eqb_ℤ, ◌≤ℤ◌, Message}
use btcr_did_method.Base.Run.{Run, Log, ok, throws, runtime, pure, require, ◌>>◌}

pub record TransactionIndex : Type 0 where
  pub index : ℤ

-- The constructor.
unfoldable pub make : ℤ → Run TransactionIndex
make i = do
  require (not (ltb_ℤ i (pos 0))) (runtime Message.index_negative)
  pure (record { index = i })

-- `operator==`
unfoldable pub eq : TransactionIndex → TransactionIndex → Bool
eq a b = eqb_ℤ a.index b.index

-- `operator!=`
unfoldable pub ne : TransactionIndex → TransactionIndex → Bool
unfolding eq
ne a b = not (eq b a)

-- A number that is not negative is kept, and nothing is printed.
pub make_nonneg : (i : ℤ) (w : Log) → pos 0 ≤ℤ i → make i w ≡ (ok (record { index = i }), w)
unfolding make
make_nonneg i w h = ground arith

-- A negative number is refused.
pub make_negative :
    (i : ℤ) (w : Log) → ¬ (pos 0 ≤ℤ i) → make i w ≡ (throws (runtime Message.index_negative), w)
unfolding make
make_negative i w h = ground arith

pub eq_iff : (a b : TransactionIndex) → (eq a b ≡ true) ↔ (a ≡ b)
unfolding eq
eq_iff a b = ground arith
