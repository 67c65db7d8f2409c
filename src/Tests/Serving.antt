-- ===== src/Tests/Serving.antt =====
-- chain.so as a concrete function of the address that is asked, for a ledger of each network; one
-- output is spent, on the main network.
use btcr_did_method.Base.{
  ◌≡◌, refl, ℕ, zero, suc, Bool, true, false, Option, none, some, if◌then◌else◌, Str, bytes, str_eq,
  is_empty, find, starts_with, ℤ, pos, List, [], ◌∷◌, get_elem?, ◌==◌, arith,
}
use btcr_did_method.Base.Answer.{answer}
use btcr_did_method.Base.Run.{ok, Log}
use btcr_did_method.Curl.{Curl, write_all, write_data, download}
use btcr_did_method.Json.{path, has_failed}
use btcr_did_method.ChainSo.{contains, retrieve_json_data}
use btcr_did_method.ChainSo.Urls.{is_tx_spent_url, get_tx_url}
use btcr_did_method.ChainSo.Ledger.{Output, Ledger, is_spent?, Serves, Describes}
use btcr_did_method.Tests.Node.{payment}
use btcr_did_method.Tests.Docs.{
  text_doc, number_doc, flag_doc, spent_reply, tx_reply, outputs_doc, op_return, paid_output,
  at_key, at_index, to_text, to_int, to_bool, equals_text, size, parse, ops,
}

-- The output 1 of the payment is spent by the transaction "b".
unfoldable pub is_spent : Str → Bool
is_spent url = str_eq url (is_tx_spent_url (bytes "main") payment (pos 1))

abbrev spent_text : Bool → Str
spent_text b = if b then bytes "spent" else bytes "unspent"

-- The byte behind "https://sochain.com/api/v2/" tells the two queries apart.
asks_for_tx : Option ℕ → Bool
asks_for_tx none = false
asks_for_tx (some c) = c == b'g'

pub reply : Str → Str
reply url =
    if asks_for_tx (get_elem? url 27) then bytes "transaction" else spent_text (is_spent url)

abbrev pub curl : Curl
curl w url = record { pieces = reply url ∷ []; succeeded = true }

abbrev pub tx_outputs : List Output
tx_outputs =
    record { number = pos 0; script = bytes "OP_RETURN 00" }
    ∷ record { number = pos 1; script = bytes "OP_DUP" }
    ∷ []

abbrev pub ledger_of : Str → Ledger
ledger_of network = record {
  spent_by = λ txid i. if is_spent (is_tx_spent_url network txid i) then some (bytes "b") else none;
  outputs = λ txid. tx_outputs;
}

abbrev pub ledger : Ledger
ledger = ledger_of (bytes "main")

retrieve_one :
    (url s : Str) (w : Log)
    → reply url ≡ s
    → is_empty s ≡ false
    → contains s (bytes "Too many requests") ≡ false
    → (retrieve_json_data curl 1 url 1 w).0 ≡ ok s
unfolding retrieve_json_data download write_all write_data
retrieve_one url s w e h h' = ground arith

reply_spent :
    (network txid : Str) (i : ℤ)
    → reply (is_tx_spent_url network txid i)
      ≡ spent_text (is_spent (is_tx_spent_url network txid i))
unfolding reply asks_for_tx is_tx_spent_url
reply_spent network txid i = refl

reply_tx : (network txid : Str) → reply (get_tx_url network txid) ≡ bytes "transaction"
unfolding reply asks_for_tx get_tx_url
reply_tx network txid = refl

spent_contains : (b : Bool) → contains (spent_text b) (bytes "Too many requests") ≡ false
unfolding contains find starts_with
spent_contains true = refl
spent_contains false = refl

tx_contains : contains (bytes "transaction") (bytes "Too many requests") ≡ false
unfolding contains find starts_with
tx_contains = refl

spent_nonempty : (b : Bool) → is_empty (spent_text b) ≡ false
spent_nonempty true = refl
spent_nonempty false = refl

parse_spent : (b : Bool) → parse (spent_text b) ≡ answer (spent_reply b)
unfolding parse str_eq
parse_spent true = refl
parse_spent false = refl

parse_tx : parse (bytes "transaction") ≡ answer tx_reply
unfolding parse str_eq
parse_tx = refl

spent_status : (b : Bool) → has_failed ops (spent_reply b) ≡ answer false
unfolding has_failed at_key equals_text str_eq
spent_status b = refl

pub tx_status : has_failed ops tx_reply ≡ answer false
unfolding has_failed at_key equals_text str_eq
tx_status = refl

at_flag :
    (b : Bool)
    → path ops (bytes "data" ∷ bytes "is_spent" ∷ []) (spent_reply b) ≡ answer (flag_doc b)
unfolding path at_key str_eq
at_flag b = refl

at_next :
    (b : Bool)
    → path ops (bytes "data" ∷ bytes "spent" ∷ bytes "txid" ∷ []) (spent_reply b)
      ≡ answer (text_doc (bytes "b"))
unfolding path at_key str_eq
at_next b = refl

next_text :
    (b : Bool) (next : Str)
    → (if b then some (bytes "b") else none) ≡ some next
    → to_text (text_doc (bytes "b")) ≡ answer next
unfolding to_text
next_text b next h = ground arith

flag_bool :
    (network : Str) (b : Bool)
    → to_bool (flag_doc b)
      ≡ answer
          (is_spent? (ledger_of network) ops curl 1 network (if b then some (bytes "b") else none))
unfolding to_bool
flag_bool network true = refl
flag_bool network false = refl

pub at_outputs : path ops (bytes "data" ∷ bytes "outputs" ∷ []) tx_reply ≡ answer outputs_doc
unfolding path at_key str_eq
at_outputs = refl

describes :
    (network : Str) (k : ℕ) (o : Output)
    → get_elem? tx_outputs k ≡ some o
    → Describes (ledger_of network) ops curl 1 network outputs_doc k o
unfolding at_key at_index to_text to_int str_eq
describes network zero o h = record {
  output_json = op_return;
  script_json = text_doc (bytes "OP_RETURN 00");
  number_json = number_doc (pos 0);
  at_output = refl;
  at_script = refl;
  script_text = ground arith;
  at_number = refl;
  number_int = ground arith;
}
describes network (suc zero) o h = record {
  output_json = paid_output;
  script_json = text_doc (bytes "OP_DUP");
  number_json = number_doc (pos 1);
  at_output = refl;
  at_script = refl;
  script_text = ground arith;
  at_number = refl;
  number_int = ground arith;
}
describes network (suc (suc k)) o h = absurd (ground arith)

pub tx_retrieved :
    (network txid : Str) (w : Log)
    → (s : Str) × ((retrieve_json_data curl 1 (get_tx_url network txid) 1 w).0 ≡ ok s)
      × (parse s ≡ answer tx_reply)
tx_retrieved network txid w = (
  bytes "transaction",
  retrieve_one (get_tx_url network txid) (bytes "transaction") w (reply_tx network txid) refl
      tx_contains,
  parse_tx,
)

abbrev is_spent_at : Str → Str → ℤ → Bool
is_spent_at network txid i = is_spent (is_tx_spent_url network txid i)

pub network-Serves : (network : Str) → Serves (ledger_of network) ops curl 1 network
unfolding size
network-Serves network = record {
  spent_json = λ txid i. spent_reply (is_spent_at network txid i);
  spent_retrieved = λ txid i w. (
    spent_text (is_spent_at network txid i),
    retrieve_one (is_tx_spent_url network txid i) (spent_text (is_spent_at network txid i)) w
        (reply_spent network txid i) (spent_nonempty (is_spent_at network txid i))
        (spent_contains (is_spent_at network txid i)),
    parse_spent (is_spent_at network txid i),
  );
  spent_status = λ txid i. spent_status (is_spent_at network txid i);
  flag_json = λ txid i. flag_doc (is_spent_at network txid i);
  at_flag = λ txid i. at_flag (is_spent_at network txid i);
  flag_bool = λ txid i. flag_bool network (is_spent_at network txid i);
  next_json = λ txid i. text_doc (bytes "b");
  at_next = λ txid i next e. at_next (is_spent_at network txid i);
  next_text = λ txid i next e. next_text (is_spent_at network txid i) next e;
  tx_json = λ txid. tx_reply;
  tx_retrieved = tx_retrieved network;
  tx_status = λ txid. tx_status;
  outputs_json = λ txid. outputs_doc;
  at_outputs = λ txid. at_outputs;
  size_outputs = λ txid. refl;
  describes = λ txid k o e. describes network k o e;
}

pub ledger-Serves : Serves ledger ops curl 1 (bytes "main")
ledger-Serves = network-Serves (bytes "main")
