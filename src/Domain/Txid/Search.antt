-- ===== src/Domain/Txid/Search.antt =====
-- The loop of src/domain/txid.cpp and src/t2tSupport.cpp over the transactions of a block.
use btcr_did_method.Base.{
  zero, suc, ◌≤◌, ◌<◌, ◌≡◌, refl, ◌≢◌, ap, some, List, [], ◌∷◌, arith, Str, str_eq→eq, str_eq_refl,
  get_elem?, length, ℕ,
}
use btcr_did_method.Domain.Txid.{find_transaction}

pub find_transaction-le-length : (ts : List Str) (t : Str) → find_transaction ts t ≤ length ts
unfolding find_transaction
find_transaction-le-length [] t = omega arith
find_transaction-le-length (x ∷ ts) t = ground (arith, find_transaction-le-length ts t)

-- Where the loop stops before the end, the transaction stands at that index.
pub get_elem?-find_transaction :
    (ts : List Str) (t : Str)
    → find_transaction ts t ≢ length ts
    → get_elem? ts (find_transaction ts t) ≡ some t
unfolding find_transaction
get_elem?-find_transaction [] t h = absurd (h refl)
get_elem?-find_transaction (x ∷ ts) t h =
    ground (arith, str_eq→eq x t, get_elem?-find_transaction ts t)

-- It stops at the first one: no transaction before that index is the one looked for.
pub find_transaction_first :
    (ts : List Str) (t : Str) (i : ℕ) → i < find_transaction ts t → get_elem? ts i ≢ some t
unfolding find_transaction
find_transaction_first [] t i h = elim h [ ]
find_transaction_first (x ∷ ts) t zero h = λ e. ground (arith, str_eq_refl x)
find_transaction_first (x ∷ ts) t (suc i) h = find_transaction_first ts t i (ground arith)

-- The transaction stands at the index of the list, and at none before it.
abbrev pub IsFirstAt : List Str → Str → ℕ → Type 0
IsFirstAt txs txid k =
    (get_elem? txs k ≡ some txid) × ((j : ℕ) → j < k → get_elem? txs j ≢ some txid)

-- The loop stops at the first index at which the transaction stands.
pub find_transaction-IsFirstAt :
    (ts : List Str) (t : Str) (k : ℕ) → IsFirstAt ts t k → find_transaction ts t ≡ k
unfolding find_transaction
find_transaction-IsFirstAt [] t k h = absurd (ground (arith, h.0))
find_transaction-IsFirstAt (x ∷ ts) t zero h = ground (arith, h.0, str_eq_refl t)
find_transaction-IsFirstAt (x ∷ ts) t (suc k) (at, first) =
    let other : x ≢ t = λ e. first 0 (omega arith) (ap some e) in
    let later = find_transaction-IsFirstAt ts t k (at, λ j lt. first (suc j) (omega (arith, lt))) in
    ground (arith, other, str_eq→eq x t, later)

pub get_elem?-lt : (ts : List Str) (k : ℕ) (t : Str) → get_elem? ts k ≡ some t → k < length ts
get_elem?-lt [] k t e = absurd (ground arith)
get_elem?-lt (x ∷ ts) zero t e = omega arith
get_elem?-lt (x ∷ ts) (suc k) t e = omega (arith, get_elem?-lt ts k t e)
