-- ===== src/ChainSo/Retries.antt =====
-- The retries of `retrieveJsonData` (src/chainSoQuery.cpp): what it returns, how often it asks, and
-- how long it sleeps.
use mathlib.Core.Path.{subst}
use btcr_did_method.Base.{
  ℕ, zero, suc, ◌+◌, ◌*◌, ◌<◌, ◌≡◌, ap, sym, ◌∙◌, false, Str, bytes, is_empty, [], ◌∷◌, arith,
  Bool-cases, Message, inl, inr,
}
use btcr_did_method.Base.Run.{sleep, fetch, stderr, Log, ok}
use btcr_did_method.Curl.{Curl, download, download_lem, received}
use btcr_did_method.ChainSo.{contains, retrieve_json_data}

-- The requests in a log, and the seconds slept.
abbrev pub requests : Log → ℕ
requests [] = 0
requests (fetch url ∷ w) = suc (requests w)
requests (_ ∷ w) = requests w

abbrev pub slept : Log → ℕ
slept [] = 0
slept (sleep n ∷ w) = n + slept w
slept (_ ∷ w) = slept w

-- A reply that ends the retries: it is not empty, and does not complain of too many requests.
abbrev pub IsUsable : Str → Type 0
IsUsable s = (is_empty s ≡ false) × (contains s (bytes "Too many requests") ≡ false)

module _ (curl : Curl) where
  -- Whatever the replies are, a text that is returned is usable.
  pub retrieve_json_data-IsUsable :
      (fuel : ℕ) (url : Str) (attempt : ℕ) (w : Log) (s : Str)
      → (retrieve_json_data curl fuel url attempt w).0 ≡ ok s
      → IsUsable s
  unfolding retrieve_json_data
  retrieve_json_data-IsUsable zero url attempt w s h = ground arith
  retrieve_json_data-IsUsable (suc fuel) url zero w s h = ground arith
  retrieve_json_data-IsUsable (suc fuel) url (suc attempt) w s h =
      let w1 = (download curl url (sleep 1 ∷ w)).1 in
      let n : ℕ = 5 * suc attempt in
      ground (
        arith,
        download_lem curl url (sleep 1 ∷ w),
        retrieve_json_data-IsUsable fuel url (suc (suc attempt))
            (sleep n ∷ stderr (Message.no_data_returned n) ∷ w1) s,
        retrieve_json_data-IsUsable fuel url (suc (suc attempt))
            (sleep n ∷ stderr (Message.too_many_requests n) ∷ w1) s,
      )

  -- The replies are a script: the reply to a request is determined by the number of the requests
  -- before it.
  module _ (script : ℕ → Str) where
    abbrev pub IsScripted : Type 0
    IsScripted = (w : Log) (url : Str) → received curl url w ≡ script (requests w)

    -- So many replies in a row from that number on are not usable.
    abbrev pub AreFailing : ℕ → ℕ → Type 0
    AreFailing first zero = Unit
    AreFailing first (suc k) = ¬ (IsUsable (script first)) × AreFailing (suc first) k

download_log :
    (curl : Curl) (url : Str) (w : Log)
    → (requests (download curl url w).1 ≡ suc (requests w))
      × (slept (download curl url w).1 ≡ slept w)
unfolding download
download_log curl url w = ground arith

module _ (curl : Curl) (url : Str) where
  -- A usable reply ends the loop.
  retrieve_usable :
      (fuel attempt : ℕ) (w : Log)
      → IsUsable (received curl url (sleep 1 ∷ w))
      → retrieve_json_data curl (suc fuel) url (suc attempt) w
        ≡ (ok (received curl url (sleep 1 ∷ w)), (download curl url (sleep 1 ∷ w)).1)
  unfolding retrieve_json_data
  retrieve_usable fuel attempt w h = ground (arith, download_lem curl url (sleep 1 ∷ w))

  -- Any other reply is followed by a pause and the next attempt.
  retrieve_failing :
      (fuel attempt : ℕ) (w : Log)
      → ¬ (IsUsable (received curl url (sleep 1 ∷ w)))
      → (w' : Log) × (retrieve_json_data curl (suc fuel) url (suc attempt) w
          ≡ retrieve_json_data curl fuel url (suc (suc attempt)) w')
        × (requests w' ≡ suc (requests w))
        × (slept w' ≡ slept w + 1 + 5 * suc attempt)
  unfolding retrieve_json_data
  retrieve_failing fuel attempt w h =
      let n : ℕ = 5 * suc attempt in
      let w1 : Log = (download curl url (sleep 1 ∷ w)).1 in
      elim (Bool-cases (is_empty (received curl url (sleep 1 ∷ w)))) [
        | inl e ↦ (
          sleep n ∷ stderr (Message.no_data_returned n) ∷ w1,
          ground (arith, download_lem curl url (sleep 1 ∷ w)),
          omega (arith, (download_log curl url (sleep 1 ∷ w)).0),
          omega (arith, (download_log curl url (sleep 1 ∷ w)).1),
        )
        | inr e ↦ (
          sleep n ∷ stderr (Message.too_many_requests n) ∷ w1,
          ground (arith, download_lem curl url (sleep 1 ∷ w)),
          omega (arith, (download_log curl url (sleep 1 ∷ w)).0),
          omega (arith, (download_log curl url (sleep 1 ∷ w)).1),
        )
      ]

  module _ (script : ℕ → Str) (scripted : IsScripted curl script) where
    -- The replies are a script. After `k` replies that are not usable the next one is returned, if it is usable and the fuel
    -- exceeds `k`: `k + 1` requests are made, and with the pauses before each request and the growing
    -- ones after each failure twice the seconds slept are `2 (k + 1) + 5 k (2 attempt + k + 1)`, where
    -- the first attempt has the number `attempt + 1`.
    pub retrieve_after_failures :
        (k fuel attempt : ℕ) (w : Log)
        → k < fuel
        → AreFailing curl script (requests w) k
        → IsUsable (script (requests w + k))
        → let (r, w') = retrieve_json_data curl fuel url (suc attempt) w in
          (r ≡ ok (script (requests w + k)))
          × (requests w' ≡ requests w + suc k)
          × (2 * slept w' ≡ 2 * slept w + 2 * suc k + 5 * k * (2 * attempt + k + 1))
    retrieve_after_failures k zero attempt w lt failing usable = absurd (omega arith)
    retrieve_after_failures zero (suc fuel) attempt w lt failing usable =
        let e : script (requests w + 0) ≡ received curl url (sleep 1 ∷ w) =
          ap script (omega arith) ∙ sym (scripted (sleep 1 ∷ w) url) in
        rw (retrieve_usable fuel attempt w (subst IsUsable e usable)) (
          ap ok (sym e),
          omega (arith, (download_log curl url (sleep 1 ∷ w)).0),
          omega (arith, (download_log curl url (sleep 1 ∷ w)).1),
        )
    retrieve_after_failures (suc k) (suc fuel) attempt w lt failing usable =
        let e = scripted (sleep 1 ∷ w) url in
        let (w1, step, asked, paused) =
          retrieve_failing fuel attempt w (λ u. failing.0 (subst IsUsable e u)) in
        let reply : script (requests w + suc k) ≡ script (requests w1 + k) =
          ap script (omega arith) in
        let ih =
          retrieve_after_failures k fuel (suc attempt) w1 (omega arith)
            (subst (λ n. AreFailing curl script n k) (sym asked) failing.1)
            (subst IsUsable reply usable) in
        rw step (ih.0 ∙ ap ok (sym reply), omega (arith, ih.1), omega (arith, ih.2))
