-- ===== src/Base/Run.antt =====
-- The programs' effects: what a function prints, requests and submits is a list of events, the
-- newest first, and it returns, throws, exits or is aborted.
use Prim.Native.Nat.{ℕ}
use mathlib.Core.Bool.{Bool, true, false}
use mathlib.Core.List.{List, ◌∷◌}
use btcr_did_method.Base.Int.{ℤ, negsuc}
use btcr_did_method.Base.Bytes.{Str}
use btcr_did_method.Base.Messages.{Message}

-- The exceptions that are thrown: `BitcoinException`, `std::runtime_error`, and those of other
-- types, which no handler of the programs names.
pub data Exception : Type 0 where
  bitcoin : ℤ → Str → Exception
  runtime : Message → Exception
  foreign : ℕ → Exception

-- `std::out_of_range`, a `std::logic_error`.
abbrev pub out_of_range : Exception
out_of_range = foreign 0

pub data Event : Type 0 where
  stdout stderr : Message → Event
  usage : Event
  sleep : ℕ → Event
  fetch : Str → Event
  submit : Str → Event

abbrev pub Log : Type 0
Log = List Event

pub data Outcome (A : Type 0) : Type 0 where
  ok : A → Outcome A
  throws : Exception → Outcome A
  exits : ℤ → Outcome A
  aborts : Outcome A
  -- The model's fuel ran out.
  unfinished : Outcome A

abbrev pub Run : Type 0 → Type 0
Run A = Log → Outcome A × Log

-- The status of `std::exit(-1)`.
abbrev pub failed : ℤ
failed = negsuc 0

module _ {A : Type 0} where
  abbrev pub pure : A → Run A
  pure a w = (ok a, w)

  abbrev pub throw : Exception → Run A
  throw e w = (throws e, w)

  abbrev pub exit : ℤ → Run A
  exit n w = (exits n, w)

  abbrev pub abort : Run A
  abort w = (aborts, w)

  abbrev pub out_of_fuel : Run A
  out_of_fuel w = (unfinished, w)

infixl 5 ◌>>=◌ ◌>>◌
abbrev pub ◌>>=◌ : {A B : Type 0} → Run A → (A → Run B) → Run B
◌>>=◌ m f w =
    let (r, w') = m w in
    elim r [
      | ok a ↦ f a w'
      | throws e ↦ throw e w'
      | exits n ↦ exit n w'
      | aborts ↦ abort w'
      | unfinished ↦ out_of_fuel w'
    ]

abbrev pub ◌>>◌ : {A B : Type 0} → Run A → Run B → Run B
m >> k = m >>= λ _. k

abbrev pub emit : Event → Run (Unit {0})
emit e w = (ok tt, e ∷ w)

abbrev pub when : Bool → Run (Unit {0}) → Run (Unit {0})
when true m w = m w
when false m w = (ok tt, w)

-- `try { m } catch(...) { handler }`
abbrev pub try_catch : {A : Type 0} → Run A → (Exception → Run A) → Run A
try_catch m handler w =
    let (r, w') = m w in
    elim r [
      | ok a ↦ pure a w'
      | throws e ↦ handler e w'
      | exits n ↦ exit n w'
      | aborts ↦ abort w'
      | unfinished ↦ out_of_fuel w'
    ]

-- `if(!b) throw e;`
abbrev pub require : Bool → Exception → Run (Unit {0})
require true e w = (ok tt, w)
require false e w = (throws e, w)

-- `if(!b) { std::cerr << m; std::exit(-1); }`
abbrev pub require_or_exit : Bool → Message → Run (Unit {0})
require_or_exit true m w = (ok tt, w)
require_or_exit false m w = (exits failed, stderr m ∷ w)
