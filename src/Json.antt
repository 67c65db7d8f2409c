-- ===== src/Json.antt =====
-- What the program uses of nlohmann::json (vendored in external/nlohmann): a parameter. A key
-- that is missing gives null or an exception, as the library decides.
use btcr_did_method.Base.{ℕ, Bool, ◌||◌, Str, bytes, ℤ, List, [], ◌∷◌}
use btcr_did_method.Base.Answer.{Answer, answer, ◌>>=◌}

pub record JsonOps (Json : Type 0) : Type 0 where
  pub parse : Str → Answer Json
  -- `j["key"]`
  pub at_key : Json → Str → Answer Json
  -- `j[i]`
  pub at_index : Json → ℕ → Answer Json
  pub is_null : Json → Bool
  -- `j == "text"`
  pub equals_text : Json → Str → Bool
  pub size : Json → ℕ
  pub to_bool : Json → Answer Bool
  pub to_text : Json → Answer Str
  pub to_int : Json → Answer ℤ

module _ {Json : Type 0} (ops : JsonOps Json) where
  open ops use {at_key, is_null, equals_text}

  -- `j["k1"]["k2"]...`
  unfoldable pub path : List Str → Json → Answer Json
  path [] j = answer j
  path (k ∷ ks) j = at_key j k >>= path ks

  -- `obj["status"].is_null() || obj["status"] == "fail"`
  unfoldable pub has_failed : Json → Answer Bool
  has_failed obj = do
    status ← at_key obj (bytes "status")
    answer (is_null status || equals_text status (bytes "fail"))
