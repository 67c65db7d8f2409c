-- ===== src/Tests/Docs.antt =====
-- The replies of chain.so (src/chainSoQuery.cpp) as values, with the operations on them.
use btcr_did_method.Base.{
  ℕ, zero, suc, Bool, true, false, if◌then◌else◌, Str, bytes, str_eq, ℤ, pos,
}
use btcr_did_method.Base.Answer.{Answer, answer, raise}
use btcr_did_method.Base.Run.{out_of_range}
use btcr_did_method.Json.{JsonOps}

-- The values in the replies.
pub data Doc : Type 0 where
  text_doc : Str → Doc
  number_doc : ℤ → Doc
  flag_doc spent_reply spent_data : Bool → Doc
  spender tx_reply tx_data outputs_doc op_return paid_output : Doc

abbrev pub missing : {A : Type 0} → Answer A
missing = raise out_of_range

unfoldable pub at_key : Doc → Str → Answer Doc
at_key (spent_reply b) key =
    if str_eq key (bytes "data") then answer (spent_data b) else answer (text_doc (bytes "success"))
at_key (spent_data b) key =
    if str_eq key (bytes "is_spent") then answer (flag_doc b) else answer spender
at_key spender key = answer (text_doc (bytes "b"))
at_key tx_reply key =
    if str_eq key (bytes "data") then answer tx_data else answer (text_doc (bytes "success"))
at_key tx_data key = answer outputs_doc
at_key op_return key =
    if str_eq key (bytes "script")
    then answer (text_doc (bytes "OP_RETURN 00"))
    else answer (number_doc (pos 0))
at_key paid_output key =
    if str_eq key (bytes "script")
    then answer (text_doc (bytes "OP_DUP"))
    else answer (number_doc (pos 1))
at_key _ key = missing

unfoldable pub at_index : Doc → ℕ → Answer Doc
at_index outputs_doc zero = answer op_return
at_index outputs_doc (suc zero) = answer paid_output
at_index _ i = missing

unfoldable pub to_text : Doc → Answer Str
to_text (text_doc s) = answer s
to_text _ = missing

unfoldable pub to_int : Doc → Answer ℤ
to_int (number_doc n) = answer n
to_int _ = missing

unfoldable pub to_bool : Doc → Answer Bool
to_bool (flag_doc b) = answer b
to_bool _ = missing

unfoldable pub equals_text : Doc → Str → Bool
equals_text (text_doc s) t = str_eq s t
equals_text _ t = false

unfoldable pub size : Doc → ℕ
size outputs_doc = 2
size _ = 0

unfoldable pub parse : Str → Answer Doc
parse s =
    if str_eq s (bytes "spent")
    then answer (spent_reply true)
    else if str_eq s (bytes "unspent")
    then answer (spent_reply false)
    else answer tx_reply

abbrev pub ops : JsonOps Doc
ops = record {
  parse = parse;
  at_key = at_key;
  at_index = at_index;
  is_null = λ j. false;
  equals_text = equals_text;
  size = size;
  to_bool = to_bool;
  to_text = to_text;
  to_int = to_int;
}
