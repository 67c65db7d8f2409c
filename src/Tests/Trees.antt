-- ===== src/Tests/Trees.antt =====
-- JSON values as trees, which meet the laws of `IsJson`, and the theorem about the request of
-- signrawtransactionwithkey (src/bitcoinRPCFacade.cpp) on a node that signs.
use btcr_did_method.Base.{
  ◌≡◌, ◌⊎◌, refl, Bool, true, false, Option, none, some, Str, bytes, str_eq, ℕ, pos, List, [], ◌∷◌,
  ◌++◌, if◌then◌else◌,
}
use btcr_did_method.Base.Answer.{Answer, answer, raise}
use btcr_did_method.Base.Run.{out_of_range}
use btcr_did_method.Rpc.{SignRawTxIn}
use btcr_did_method.Rpc.BitcoinApi.{JsonCpp, IsJson, BitcoinApi}
use btcr_did_method.Facade.{string_at, bool_at, signrawtransactionwithkey}
use btcr_did_method.Facade.Request.{texts, DescribesEach, signrawtransactionwithkey-sends}

-- An array and an object are built by one element or member after another.
pub data Tree : Type 0 where
  null_tree empty_array : Tree
  text : Str → Tree
  number : ℕ → Tree
  flag : Bool → Tree
  appended : Tree → Tree → Tree
  assigned : Tree → Str → Tree → Tree

unfoldable pub elements : Tree → List Tree
elements (appended v e) = elements v ++ e ∷ []
elements _ = []

unfoldable pub member : Tree → Str → Option Tree
member (assigned v key e) key' = if str_eq key key' then some e else member v key'
member _ key' = none

unfoldable pub takes_elements : Tree → Bool
takes_elements null_tree = true
takes_elements empty_array = true
takes_elements (appended v e) = true
takes_elements _ = false

unfoldable pub takes_members : Tree → Bool
takes_members null_tree = true
takes_members (assigned v key e) = true
takes_members _ = false

abbrev refused : {A : Type 0} → Answer A
refused = raise out_of_range

unfoldable pub to_text : Tree → Answer Str
to_text (text s) = answer s
to_text _ = refused

unfoldable pub to_flag : Tree → Answer Bool
to_flag (flag b) = answer b
to_flag _ = refused

-- A key that is missing gives null.
unfoldable pub or_null : Option Tree → Tree
or_null none = null_tree
or_null (some v) = v

abbrev tree_json : JsonCpp Tree
tree_json = record {
  null = null_tree;
  array = empty_array;
  of_text = text;
  of_unsigned = number;
  append = appended;
  set = assigned;
  get = λ v key. answer (or_null (member v key));
  as_string = to_text;
  as_int = λ v. refused;
  as_double = λ v. refused;
  as_bool = to_flag;
}

tree_json-IsJson : IsJson tree_json
unfolding elements member takes_elements takes_members
tree_json-IsJson = record {
  elements = elements;
  member = member;
  takes_elements = takes_elements;
  takes_members = takes_members;
  takes_elements-null = refl;
  takes_elements-array = refl;
  takes_elements-append = λ v e h. refl;
  takes_members-null = refl;
  takes_members-set = λ v key e h. refl;
  elements-null = refl;
  elements-array = refl;
  elements-append = λ v e h. refl;
  member-null = λ key. refl;
  member-set = λ v key key' e h. refl;
}

abbrev signed_reply : Tree
signed_reply =
    assigned (assigned null_tree (bytes "hex") (text (bytes "0201"))) (bytes "complete") (flag true)

abbrev api : BitcoinApi Tree
api = record {
  getblockcount = answer (pos 0);
  getrawtransaction = λ txid verbose. refused;
  getblock = λ hash. refused;
  getblockhash = λ height. refused;
  gettxout = λ txid n. refused;
  createrawtransaction = λ inputs amounts. refused;
  sendcommand = λ command value. answer signed_reply;
}

abbrev inputs : List SignRawTxIn
inputs =
    record {
      txid = bytes "ab";
      n = 1;
      script_pub_key = bytes "0014";
      redeem_script = bytes "";
      witness_script = bytes "00";
      amount = bytes "0.00200000";
    }
    ∷ []

signs :
    signrawtransactionwithkey tree_json api (bytes "0200") inputs (bytes "key" ∷ []) (bytes "ALL")
    ≡ answer (bytes "0201")
unfolding signrawtransactionwithkey bool_at string_at member str_eq or_null to_flag to_text
signs = refl

signrawtransactionwithkey-sends_example :
    (params : Tree) × (result : Tree) × (keys_json : Tree) × (inputs_json : Tree) × (api.sendcommand
        (bytes "signrawtransactionwithkey")
        params
      ≡ answer result)
    × (elements params ≡ text (bytes "0200") ∷ keys_json ∷ inputs_json ∷ text (bytes "ALL") ∷ [])
    × (elements keys_json ≡ texts tree_json (bytes "key" ∷ []))
    × DescribesEach tree_json tree_json-IsJson api inputs (elements inputs_json)
    × (((bool_at tree_json api result (bytes "complete") ≡ answer true)
          × (string_at tree_json api result (bytes "hex") ≡ answer (bytes "0201")))
        ⊎ ((bool_at tree_json api result (bytes "complete") ≡ answer false)
            × (bytes "0201" ≡ bytes "")))
unfolding tree_json-IsJson
signrawtransactionwithkey-sends_example =
    signrawtransactionwithkey-sends tree_json tree_json-IsJson api (bytes "0200") inputs
      (bytes "key" ∷ []) (bytes "ALL") (bytes "0201") signs
