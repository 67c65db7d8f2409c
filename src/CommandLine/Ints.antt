-- ===== src/CommandLine/Ints.antt =====
-- What `convertIntegerArg` (src/txid2txref.cpp, src/createBtcrDid.cpp) lets through is an `int`.
use btcr_did_method.Base.{
  ◌≡◌, ◌^◌, ◌-◌, Bool, true, false, [], ◌∷◌, Str, ℤ, pos, negsuc, ◌≤ℤ◌, arith,
}
use btcr_did_method.Base.Run.{Log, ok}
use btcr_did_method.CommandLine.{convert_integer, convert_integer_arg}
use btcr_did_method.CommandLine.Numbers.{value, stoi, signed_part, unsigned_part}

-- The range of an `int`, and the index that a program goes on with: -1 stands for none.
abbrev pub IsInt : ℤ → Type 0
IsInt i = (negsuc (2 ^ 31 - 1) ≤ℤ i) × (i ≤ℤ pos (2 ^ 31 - 1))

abbrev pub IsIndex : ℤ → Type 0
IsIndex i = (negsuc 0 ≤ℤ i) × (i ≤ℤ pos (2 ^ 31 - 1))

unsigned_part-IsInt :
    (negative : Bool) (s : Str) (i : ℤ) → unsigned_part negative s ≡ value i → IsInt i
unfolding unsigned_part
unsigned_part-IsInt negative s i h = (ground arith, ground arith)

signed_part-IsInt : (s : Str) (i : ℤ) → signed_part s ≡ value i → IsInt i
unfolding signed_part
signed_part-IsInt [] i h = absurd (ground arith)
signed_part-IsInt (c ∷ s) i h =
    let minus = unsigned_part-IsInt true s i in
    let plus = unsigned_part-IsInt false s i in
    let none = unsigned_part-IsInt false (c ∷ s) i in
    (ground (arith, minus, plus, none), ground (arith, minus, plus, none))

-- What `std::stoi` returns is an `int`.
stoi-IsInt : (s : Str) (i : ℤ) → stoi s ≡ value i → IsInt i
unfolding stoi
stoi-IsInt [] i h = absurd (ground arith)
stoi-IsInt (c ∷ s) i h =
    let later = stoi-IsInt s i in
    let now = signed_part-IsInt (c ∷ s) i in
    (ground (arith, later, now), ground (arith, later, now))

pub convert_integer_arg-IsInt :
    (name text : Str) (i : ℤ) (v : Log) → (convert_integer_arg name text v).0 ≡ ok i → IsInt i
unfolding convert_integer_arg convert_integer
convert_integer_arg-IsInt name text i v h =
    let read = stoi-IsInt text i in (ground (arith, read), ground (arith, read))
