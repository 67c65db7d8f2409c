-- ===== src/Rpc/BitcoinApi.antt =====
-- What `BitcoinRPCFacade` uses of bitcoin-api-cpp and of jsoncpp, neither of which is in this
-- repository: parameters, with what jsoncpp documents of arrays and objects.
use btcr_did_method.Base.{
  ◌≡◌, ℕ, Bool, true, Option, none, some, Str, str_eq, ℤ, List, [], ◌∷◌, ◌++◌, if◌then◌else◌,
}
use btcr_did_method.Base.Answer.{Answer}
use btcr_did_method.Rpc.Types.{Double, RawTransaction, BlockInfo, UtxoInfo, TxOut}

-- `Json::Value`
pub record JsonCpp (Value : Type 0) : Type 0 where
  pub null : Value
  -- `Value(Json::arrayValue)`
  pub array : Value
  pub of_text : Str → Value
  pub of_unsigned : ℕ → Value
  -- `v.append(e)` and `v[key] = e`: the value afterwards
  pub append : Value → Value → Value
  pub set : Value → Str → Value → Value
  -- `v[key]`
  pub get : Value → Str → Answer Value
  pub as_string : Value → Answer Str
  pub as_int : Value → Answer ℤ
  pub as_double : Value → Answer Double
  pub as_bool : Value → Answer Bool

-- What jsoncpp documents of `append` and of `operator[]`: a null value becomes an array or an object
-- with the first element or member, and a member that is assigned again is replaced.
pub record IsJson {Value : Type 0} (json : JsonCpp Value) : Type 0 where
  pub elements : Value → List Value
  pub member : Value → Str → Option Value
  -- Is it null or an array? Is it null or an object?
  pub takes_elements : Value → Bool
  pub takes_members : Value → Bool
  pub takes_elements-null : takes_elements json.null ≡ true
  pub takes_elements-array : takes_elements json.array ≡ true
  pub takes_elements-append :
      (v e : Value) → takes_elements v ≡ true → takes_elements (json.append v e) ≡ true
  pub takes_members-null : takes_members json.null ≡ true
  pub takes_members-set :
      (v : Value) (key : Str) (e : Value)
      → takes_members v ≡ true
      → takes_members (json.set v key e) ≡ true
  pub elements-null : elements json.null ≡ []
  pub elements-array : elements json.array ≡ []
  pub elements-append :
      (v e : Value) → takes_elements v ≡ true → elements (json.append v e) ≡ elements v ++ e ∷ []
  pub member-null : (key : Str) → member json.null key ≡ none
  pub member-set :
      (v : Value) (key key' : Str) (e : Value)
      → takes_members v ≡ true
      → member (json.set v key e) key' ≡ (if str_eq key key' then some e else member v key')

-- `BitcoinAPI`, connected to one node.
pub record BitcoinApi (Value : Type 0) : Type 0 where
  pub getblockcount : Answer ℤ
  pub getrawtransaction : Str → ℤ → Answer RawTransaction
  pub getblock : Str → Answer BlockInfo
  pub getblockhash : ℤ → Answer Str
  pub gettxout : Str → ℤ → Answer UtxoInfo
  pub createrawtransaction : List TxOut → List (Str × Str) → Answer Str
  pub sendcommand : Str → Value → Answer Value
