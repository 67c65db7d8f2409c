-- ===== src/Programs/Statuses.antt =====
-- The statuses with which the programs end, by `std::exit` or by the return of `main`, and the
-- exceptions that leave them.
pub mod Queries
pub mod Steps
pub mod Runs
pub mod CommandLines
pub mod Mains
use btcr_did_method.Base.{
  ℕ, zero, suc, ◌≡◌, refl, Bool, true, false, ◌||◌, Bool-cases, inl, inr, Option, none, some,
  Option-cases, Str, bytes, ℤ, pos, eqb_ℤ, List, [], ◌∷◌, Message, ltb, ltb_ℤ, if◌then◌else◌, arith,
}
use btcr_did_method.Base.Answer.{Answer, answer, raise, Answer-cases, call}
use btcr_did_method.Base.Run.{
  Log, Event, Exception, bitcoin, runtime, foreign, Outcome, Run, ok, throws, exits, aborts,
  unfinished, failed, emit, exit, pure, require, usage, stderr, try_catch, ◌>>=◌,
}

-- The statuses 0 and -1.
unfoldable pub is_status : ℤ → Bool
is_status n = eqb_ℤ n (pos 0) || eqb_ℤ n failed

-- The exceptions that no handler of the programs names, and all of them.
unfoldable pub is_foreign : Exception → Bool
is_foreign (bitcoin code message) = false
is_foreign (runtime m) = false
is_foreign (foreign n) = true

abbrev pub any_exception : Exception → Bool
any_exception e = true

-- A function ends with an exception and a value that pass their tests, an exit with a status, or
-- neither.
unfoldable pub ends : {A : Type 0} → (Exception → Bool) → (A → Bool) → Outcome A → Bool
unfolding is_status
ends p q (ok a) = q a
ends p q (throws e) = p e
ends p q (exits n) = is_status n
ends p q aborts = true
ends p q unfinished = true

abbrev pub any_value : {A : Type 0} → A → Bool
any_value a = true

pub record Ends {A : Type 0} (x : Exception → Bool) (q : A → Bool) (m : Run A) : Type 0 where
  pub ended : (w : Log) → ends x q (m w).0 ≡ true

pub >>=-Ends :
    {A B : Type 0} (x : Exception → Bool) (p : A → Bool) (q : B → Bool) (m : Run A) (f : A → Run B)
    → Ends x p m
    → ((a : A) → p a ≡ true → Ends x q (f a))
    → Ends x q (m >>= f)
unfolding ends
>>=-Ends {A} x p q m f first rest = record { ended = λ w. go w (m w).0 (m w).1 (first.ended w) }
  where
    go :
        (w : Log) (r : Outcome A) (w' : Log)
        → ends x p r ≡ true
        → ends x q (((λ (v : Log). (r, w')) >>= f) w).0 ≡ true
    go w (ok a) w' h = (rest a h).ended w'
    go w (throws e) w' h = h
    go w (exits n) w' h = h
    go w aborts w' h = refl
    go w unfinished w' h = refl

-- Whatever the first part returns.
pub >>=-Ends_any :
    {A B : Type 0} (x : Exception → Bool) (q : B → Bool) (m : Run A) (f : A → Run B)
    → Ends x any_value m
    → ((a : A) → Ends x q (f a))
    → Ends x q (m >>= f)
>>=-Ends_any x q m f first rest = >>=-Ends x any_value q m f first (λ a _. rest a)

pub elim-Ends :
    {A : Type 0} (x : Exception → Bool) (q : A → Bool) (b : Bool) (m k : Run A)
    → Ends x q m
    → Ends x q k
    → Ends x q (elim b [ true ↦ m | false ↦ k ])
elim-Ends x q true m k h h' = h
elim-Ends x q false m k h h' = h'

pub try_catch-Ends :
    {A : Type 0} (x : Exception → Bool) (q : A → Bool) (m : Run A) (h : Exception → Run A)
    → Ends any_exception q m
    → ((e : Exception) → Ends x q (h e))
    → Ends x q (try_catch m h)
unfolding ends
try_catch-Ends {A} x q m h first rest = record { ended = λ w. go w (m w).0 (m w).1 (first.ended w) }
  where
    go :
        (w : Log) (r : Outcome A) (w' : Log)
        → ends any_exception q r ≡ true
        → ends x q (try_catch (λ (v : Log). (r, w')) h w).0 ≡ true
    go w (ok a) w' e = e
    go w (throws y) w' e = (rest y).ended w'
    go w (exits n) w' e = e
    go w aborts w' e = refl
    go w unfinished w' e = refl

pub call-Ends : {A : Type 0} (x : Answer A) → Ends any_exception any_value (call x)
unfolding ends
call-Ends (answer a) = record { ended = λ w. refl }
call-Ends (raise e) = record { ended = λ w. refl }

pub require-Ends : (b : Bool) (e : Exception) → Ends any_exception any_value (require b e)
unfolding ends
require-Ends true e = record { ended = λ w. refl }
require-Ends false e = record { ended = λ w. refl }

pub pure-Ends :
    {A : Type 0} (x : Exception → Bool) (q : A → Bool) (a : A) → q a ≡ true → Ends x q (pure a)
unfolding ends
pure-Ends x q a h = record { ended = λ w. h }

pub emit-Ends : (x : Exception → Bool) (e : Event) → Ends x any_value (emit e)
unfolding ends
emit-Ends x e = record { ended = λ w. refl }

-- The rules of a `do` block.
pub ruleset steps = (>>=-Ends_any, call-Ends, require-Ends, pure-Ends, emit-Ends)
