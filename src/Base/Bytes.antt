-- ===== src/Base/Bytes.antt =====
-- `std::string` as its list of bytes, with the operations of the standard library that the
-- program calls: `==`, `tolower` over a string, `find`, `find_first_not_of` and `find_first_of`.
use Prim.Native.Char.{code}
use Prim.Native.String.{String}
use Prim.Native.Nat.{ℕ, suc, ◌+◌}
use mathlib.Core.Path.{◌≡◌, refl, ap₂}
use mathlib.Core.Logic.{◌↔◌, ◌≢◌}
use mathlib.Core.Bool.{Bool, true, false, ◌&&◌, ◌||◌}
use mathlib.Core.Option.{Option, none, some}
use mathlib.Core.Option
use mathlib.Core.List.{List, [], ◌∷◌, map}
use native.Mathlib.Omega.{arith}
use btcr_did_method.Base.Tests.{leb, ◌==◌, if◌then◌else◌, Bool-cases}

abbrev pub Str : Type 0
Str = List ℕ

-- The bytes of an ASCII literal.
abbrev pub bytes : String → Str
bytes String.[] = []
bytes (String.◌∷◌ c s) = code c ∷ bytes s

-- `operator==` on strings.
unfoldable pub str_eq : Str → Str → Bool
str_eq [] [] = true
str_eq [] (d ∷ t) = false
str_eq (c ∷ s) [] = false
str_eq (c ∷ s) (d ∷ t) = c == d && str_eq s t

pub str_eq_refl : (s : Str) → str_eq s s ≡ true
unfolding str_eq
str_eq_refl [] = refl
str_eq_refl (c ∷ s) = ground (arith, str_eq_refl s)

pub str_eq→eq : (s t : Str) → str_eq s t ≡ true → s ≡ t
unfolding str_eq
str_eq→eq [] [] h = refl
str_eq→eq [] (d ∷ t) h = ground arith
str_eq→eq (c ∷ s) [] h = ground arith
str_eq→eq (c ∷ s) (d ∷ t) h = ground (arith, str_eq→eq s t)

pub str_eq_ne : (s t : Str) → s ≢ t → str_eq s t ≡ false
str_eq_ne s t h = ground (arith, str_eq→eq s t, Bool-cases (str_eq s t))

pub str_eq_iff : (s t : Str) → (str_eq s t ≡ true) ↔ (s ≡ t)
str_eq_iff s t = (str_eq→eq s t, λ e. rw e (str_eq_refl t))

-- `s.empty()`
abbrev pub is_empty : Str → Bool
is_empty [] = true
is_empty (c ∷ s) = false

-- Does `s` begin with `p`?
unfoldable pub starts_with : Str → Str → Bool
starts_with s [] = true
starts_with [] (d ∷ p) = false
starts_with (c ∷ s) (d ∷ p) = c == d && starts_with s p

-- `s.find(p)`: the first position at which `p` stands in `s`; `none` is `std::string::npos`.
unfoldable pub find : Str → Str → Option ℕ
unfolding starts_with
find [] p = if starts_with [] p then some 0 else none
find (c ∷ s) p =
    let later = Option.map suc (find s p) in if starts_with (c ∷ s) p then some 0 else later

-- Is the byte one of the set?
unfoldable pub is_one_of : Str → ℕ → Bool
is_one_of [] c = false
is_one_of (d ∷ set) c = c == d || is_one_of set c

-- `s.find_first_of(set)`
unfoldable pub find_first_of : Str → Str → Option ℕ
unfolding is_one_of
find_first_of [] set = none
find_first_of (c ∷ s) set =
    let later = Option.map suc (find_first_of s set) in if is_one_of set c then some 0 else later

-- `s.find_first_not_of(set)`
unfoldable pub find_first_not_of : Str → Str → Option ℕ
unfolding is_one_of
find_first_not_of [] set = none
find_first_not_of (c ∷ s) set =
    let later = Option.map suc (find_first_not_of s set) in
    if is_one_of set c then later else some 0

-- `::tolower` in the "C" locale.
unfoldable pub to_lower : ℕ → ℕ
to_lower c = if leb b'A' c && leb c b'Z' then c + 32 else c

-- `std::transform(s.begin(), s.end(), s.begin(), &::tolower)`
abbrev pub lowercase : Str → Str
lowercase = map to_lower

pub to_lower_idem : (c : ℕ) → to_lower (to_lower c) ≡ to_lower c
unfolding to_lower
to_lower_idem c = ground arith

pub lowercase_idem : (s : Str) → lowercase (lowercase s) ≡ lowercase s
lowercase_idem [] = refl
lowercase_idem (c ∷ s) = ap₂ ◌∷◌ (to_lower_idem c) (lowercase_idem s)
