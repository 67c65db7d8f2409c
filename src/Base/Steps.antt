-- ===== src/Base/Steps.antt =====
-- A program step by step: how it goes on behind a part whose end is known.
use mathlib.Core.Path.{◌≡◌, ap}
use native.Mathlib.Omega.{arith}
use btcr_did_method.Base.Int.{ℤ}
use btcr_did_method.Base.Answer.{Answer, answer, call}
use btcr_did_method.Base.Run.{Log, Run, Exception, ok, exits, try_catch, ◌>>=◌}

pub >>=-ok :
    {A B : Type 0} (m : Run A) (f : A → Run B) (a : A) (w w' : Log)
    → m w ≡ (ok a, w')
    → (m >>= f) w ≡ f a w'
>>=-ok m f a w w' e = ground (arith, e)

pub >>=-exits :
    {A B : Type 0} (m : Run A) (f : A → Run B) (n : ℤ) (w w' : Log)
    → m w ≡ (exits n, w')
    → (m >>= f) w ≡ (exits n, w')
>>=-exits m f n w w' e = ground (arith, e)

pub call-answer :
    {A : Type 0} (x : Answer A) (a : A) (w : Log) → x ≡ answer a → call x w ≡ (ok a, w)
call-answer x a w e = ap (λ y. call y w) e

pub try_catch-ok :
    {A : Type 0} (m : Run A) (h : Exception → Run A) (a : A) (w w' : Log)
    → m w ≡ (ok a, w')
    → try_catch m h w ≡ (ok a, w')
try_catch-ok m h a w w' e = ground (arith, e)

pub try_catch-exits :
    {A : Type 0} (m : Run A) (h : Exception → Run A) (n : ℤ) (w w' : Log)
    → m w ≡ (exits n, w')
    → try_catch m h w ≡ (exits n, w')
try_catch-exits m h n w w' e = ground (arith, e)
