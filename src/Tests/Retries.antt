-- ===== src/Tests/Retries.antt =====
-- The theorems about `retrieveJsonData` (src/chainSoQuery.cpp), with two failures before a reply.
use btcr_did_method.Base.{
  ◌≡◌, refl, ◌*◌, ℕ, zero, suc, true, Str, bytes, [], ◌∷◌, find, starts_with, arith,
}
use btcr_did_method.Base.Run.{ok}
use btcr_did_method.Curl.{Curl, write_all, write_data}
use btcr_did_method.ChainSo.{contains, retrieve_json_data}
use btcr_did_method.ChainSo.Retries.{retrieve_after_failures, requests, slept}

script : ℕ → Str
script zero = bytes ""
script (suc zero) = bytes "Too many requests"
script (suc (suc n)) = bytes "{}"

abbrev scripted_curl : Curl
scripted_curl w url = record { pieces = script (requests w) ∷ []; succeeded = true }

retrieve_after_failures_example :
    let (r, w') = retrieve_json_data scripted_curl 3 (bytes "u") 1 [] in
    (r ≡ ok (script 2)) × (requests w' ≡ 3) × (2 * slept w' ≡ 36)
unfolding write_all write_data script contains find starts_with
retrieve_after_failures_example =
    retrieve_after_failures scripted_curl (bytes "u") script (λ w url. refl) 2 3 0 [] (omega arith)
      (λ u. ground (arith, u), (λ u. ground (arith, u), tt)) (refl, refl)
