-- ===== src/Domain/BlockHeight.antt =====
-- `BlockHeight` of src/domain/blockHeight.h and src/domain/blockHeight.cpp. `value()` is the field.
use btcr_did_method.Base.{◌≡◌, ◌↔◌, Bool, true, not, arith, ℤ, pos, ltb_ℤ, eqb_ℤ, ◌≤ℤ◌, Message}
use btcr_did_method.Base.Run.{Run, Log, ok, throws, runtime, pure, require, ◌>>◌}

pub record BlockHeight : Type 0 where
  pub height : ℤ

-- The constructor.
unfoldable pub make : ℤ → Run BlockHeight
make i = do
  require (not (ltb_ℤ i (pos 0))) (runtime Message.height_negative)
  pure (record { height = i })

-- `operator==`
unfoldable pub eq : BlockHeight → BlockHeight → Bool
eq a b = eqb_ℤ a.height b.height

-- `operator!=`
unfoldable pub ne : BlockHeight → BlockHeight → Bool
unfolding eq
ne a b = not (eq b a)

-- A number that is not negative is kept, and nothing is printed.
pub make_nonneg : (i : ℤ) (w : Log) → pos 0 ≤ℤ i → make i w ≡ (ok (record { height = i }), w)
unfolding make
make_nonneg i w h = ground arith

-- A negative number is refused.
pub make_negative :
    (i : ℤ) (w : Log) → ¬ (pos 0 ≤ℤ i) → make i w ≡ (throws (runtime Message.height_negative), w)
unfolding make
make_negative i w h = ground arith

pub eq_iff : (a b : BlockHeight) → (eq a b ≡ true) ↔ (a ≡ b)
unfolding eq
eq_iff a b = ground arith
