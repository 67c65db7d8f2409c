-- ===== src/Tests/Unspents.antt =====
-- The theorem about the unspent outputs of an address (src/chainSoQuery.cpp), at one output.
use btcr_did_method.Base.{
  ◌≡◌, refl, ℕ, zero, suc, Bool, true, false, Option, none, some, Str, bytes, str_eq, find,
  starts_with, ℤ, pos, [], ◌∷◌, get_elem?, length, arith,
}
use btcr_did_method.Base.Answer.{Answer, answer, raise}
use btcr_did_method.Base.Run.{ok, out_of_range}
use btcr_did_method.Curl.{Curl, download, write_all, write_data}
use btcr_did_method.Json.{JsonOps, path, has_failed}
use btcr_did_method.ChainSo.{contains, retrieve_json_data, get_unspent_outputs}
use btcr_did_method.ChainSo.Unspent.{
  Unspent, at_int, Lists, Replies, found, get_unspent_outputs-at_int,
}
use btcr_did_method.Tests.Trees.{
  Tree, null_tree, empty_array, text, number, appended, assigned, elements, member, or_null,
  to_text, to_flag,
}
use btcr_did_method.Tests.Fixed.{fixed_point}

pub is_null_tree : Tree → Bool
is_null_tree null_tree = true
is_null_tree _ = false

pub is_text : Tree → Str → Bool
is_text (text s) t = str_eq s t
is_text _ t = false

pub to_int : Tree → Answer ℤ
to_int (number n) = answer (pos n)
to_int _ = raise out_of_range

or_refused : Option Tree → Answer Tree
or_refused none = raise out_of_range
or_refused (some v) = answer v

abbrev listed : Tree
listed =
    assigned
      (assigned
        (assigned (assigned null_tree (bytes "txid") (text (bytes "ab"))) (bytes "script_hex")
          (text (bytes "0014")))
        (bytes "value") (text (bytes "0.002")))
      (bytes "output_no") (number 3)

abbrev listing : Tree
listing = appended empty_array listed

abbrev reply : Tree
reply =
    assigned (assigned null_tree (bytes "data") (assigned null_tree (bytes "txs") listing))
      (bytes "status") (text (bytes "success"))

-- Every text is the reply.
abbrev ops : JsonOps Tree
ops = record {
  parse = λ s. answer reply;
  at_key = λ v key. answer (or_null (member v key));
  at_index = λ v k. or_refused (get_elem? (elements v) k);
  is_null = is_null_tree;
  equals_text = is_text;
  size = λ v. length (elements v);
  to_bool = to_flag;
  to_text = to_text;
  to_int = to_int;
}

abbrev curl : Curl
curl w url = record { pieces = bytes "{}" ∷ []; succeeded = true }

abbrev unspent : Unspent
unspent = record { txid = bytes "ab"; script = bytes "0014"; value = bytes "0.002"; number = pos 3 }

retrieved : (s : Str) → (retrieve_json_data curl 1 s 1 []).0 ≡ ok (bytes "{}")
unfolding retrieve_json_data download write_all write_data contains find starts_with
retrieved s = refl

listed-Lists : (k : ℕ) (u : Unspent) → get_elem? (unspent ∷ []) k ≡ some u → Lists ops listing k u
unfolding elements member str_eq or_null or_refused to_text to_int
listed-Lists zero u h = record {
  tx_json = listed;
  txid_json = text (bytes "ab");
  script_json = text (bytes "0014");
  value_json = text (bytes "0.002");
  number_json = number 3;
  at_tx = refl;
  at_txid = refl;
  txid_text = ground arith;
  at_script = refl;
  script_text = ground arith;
  at_value = refl;
  value_text = ground arith;
  at_number = refl;
  number_int = ground arith;
}
listed-Lists (suc k) u h = absurd (ground arith)

reply-Replies : Replies ops reply (unspent ∷ [])
unfolding elements member str_eq or_null is_null_tree is_text path has_failed
reply-Replies = record {
  status = refl;
  txs_json = listing;
  at_txs = refl;
  present = refl;
  size_txs = refl;
  lists = listed-Lists;
}

-- The only listed output has the number 3, and stands at the position 0.
get_unspent_outputs-at_int_example :
    (get_unspent_outputs ops curl 1 fixed_point (bytes "bc1q") (pos 0) (bytes "main") []).0
    ≡ found ops curl 1 fixed_point (bytes "bc1q") (pos 0) (at_int (unspent ∷ []) (pos 0))
get_unspent_outputs-at_int_example =
    get_unspent_outputs-at_int ops curl 1 fixed_point (bytes "bc1q") (bytes "main") (bytes "{}")
      (pos 0) reply (unspent ∷ []) [] (retrieved _) refl reply-Replies (omega arith) (omega arith)
      (omega arith)
