-- ===== src/Tests/Programs.antt =====
-- The theorems about the programs (src/createBtcrDid.cpp, src/txid2txref.cpp), at the node's payment.
use btcr_did_method.Base.{
  ◌≡◌, Str, Message, refl, true, false, some, bytes, str_eq, size_of_int, get_elem?, pos, [], ◌∷◌,
  arith,
}
use btcr_did_method.Base.Answer.{answer, raise}
use btcr_did_method.Base.Run.{Log, ok, out_of_range, stdout, submit}
use btcr_did_method.Rpc.{RpcConfig, Btc, UtxoInfo, AddressInfo}
use btcr_did_method.Programs.CreateBtcrDid.Submission.{IsSigned}
use btcr_did_method.Satoshis.{Fpu}
use btcr_did_method.CommandLine.{QueryInput, CreateInput}
use btcr_did_method.T2t.{Transaction, decode_txref, is_network_mismatch}
use btcr_did_method.Programs.CreateBtcrDid.{
  get_transaction, amounts, run, create, find_input, find_unspent, only_address, make_signed,
  finish, print_as_json,
}
use btcr_did_method.Programs.CreateBtcrDid.Success.{IsDone, run-IsDone}
use btcr_did_method.Programs.CreateBtcrDid.Outputs.{amounts_second}
use btcr_did_method.Programs.Txid2txref
use btcr_did_method.Programs.Txid2txref.{convert, txref2did}
use btcr_did_method.Programs.Txid2txref.Printed.{Ends, run-Ends}
use btcr_did_method.Tests.Node.{node, lib, payment}

amounts_second_example :
    get_elem? (amounts (bytes "bc1q") (bytes "0.5") (bytes "00")) 1
    ≡ some (bytes "data", bytes "00")
amounts_second_example =
    amounts_second b'b' (bytes "c1q") (bytes "0.5") (bytes "00") (λ e. ground (arith, e))

abbrev pub input : CreateInput
input = record {
  query = bytes "tx1:yyy";
  txo_index = pos 0;
  output_address = bytes "bc1q";
  private_key = bytes "key";
  ddo_ref = bytes "ref";
  fee = 0;
  dryrun = true;
}

abbrev pub decoded : Transaction
decoded = record {
  txid = payment;
  txref = bytes "tx1:yyy";
  network = bytes "main";
  block_height = pos 7;
  transaction_index = pos 1;
  txo_index = pos 1;
  query = bytes "tx1:yyy";
}

-- Arithmetic in which every number is a 0.
abbrev fpu : Fpu
fpu = record {
  zero = 0;
  half = 0;
  minus_half = 0;
  add = λ a b. 0;
  mul = λ a b. 0;
  div = λ a b. 0;
  ltb = λ a b. false;
  of_int = λ n. 0;
  to_int = λ d. pos 0;
  to_fixed = λ width precision d. bytes "0.00000000";
  atof = λ s. 0;
  stod = λ s. raise out_of_range;
}

abbrev pub config : RpcConfig
config = record {
  rpcuser = bytes "user";
  rpcpassword = bytes "password";
  rpcconnect = bytes "127.0.0.1";
  rpcport = pos 0;
}

abbrev query_input : QueryInput
query_input = record { query = bytes "tx1:yyy"; txo_index = pos 0 }

-- A node that signs and accepts everything.
abbrev pub paid_output : UtxoInfo
paid_output = record {
  bestblock = bytes "00ab";
  confirmations = pos 9;
  value = 0;
  addresses = bytes "bc1q" ∷ [];
  script_pub_key_hex = bytes "0014";
}

abbrev pub address : AddressInfo
address = record {
  address = bytes "bc1q";
  script_pub_key = bytes "0014";
  ismine = true;
  iswatchonly = false;
  solvable = true;
  desc = bytes "";
  isscript = false;
  ischange = false;
  iswitness = false;
  witness_version = pos 0;
  witness_program = bytes "";
  script = bytes "";
  hex = bytes "";
  sigsrequired = pos 1;
  pubkey = bytes "";
  iscompressed = true;
  label = bytes "";
  timestamp = pos 0;
  hdkeypath = bytes "";
  hdseedid = bytes "";
  hdmasterfingerprint = bytes "";
}

abbrev pub signing_node : Btc
signing_node = record node {
  gettxout = λ txid n. answer paid_output;
  getaddressinfo = λ a. answer address;
  createrawtransaction = λ inputs outputs. answer (bytes "0200");
  signrawtransactionwithkey = λ raw inputs keys hash_type. answer (bytes "0201");
  sendrawtransaction = λ hex. answer payment;
}

run-Ends_example :
    Ends
      (λ t did.
        (btc : Btc) × (answer node ≡ answer btc)
        × ((convert lib btc query_input []).0 ≡ ok t)
        × ((txref2did t.txref []).0 ≡ ok did))
      []
      (Txid2txref.run lib (λ c. answer node) config query_input [])
run-Ends_example = run-Ends lib (λ c. answer node) config query_input []

abbrev wet_input : CreateInput
wet_input = record input { dryrun = false }

abbrev wet_log : Log
wet_log =
    stdout (
      Message.json (
        (bytes "comment", bytes "transaction submitted")
        ∷ (bytes "txid", payment)
        ∷ (bytes "txoIndex", bytes "1")
        ∷ []))
    ∷ stdout (Message.plain_text (bytes "txid2txref"))
    ∷ submit (bytes "0201")
    ∷ stdout Message.signed_and_submitting
    ∷ []

returned : run lib fpu true (λ c. answer signing_node) config wet_input [] ≡ (ok (pos 0), wet_log)
unfolding run create find_input get_transaction decode_txref is_network_mismatch str_eq size_of_int
    find_unspent only_address make_signed finish print_as_json
returned = refl

run-IsDone_example :
    (pos 0 ≡ pos 0)
    × ((btc : Btc) × (answer signing_node ≡ answer btc)
        × ((hex : Str) × IsSigned btc wet_input hex × IsDone btc wet_input hex [] wet_log))
run-IsDone_example =
    run-IsDone lib fpu true (λ c. answer signing_node) config wet_input (pos 0) [] wet_log returned
