-- ===== src/Tests/CommandLine.antt =====
-- The theorems about command lines, at one with an index.
use btcr_did_method.Base.{◌≡◌, true, false, none, some, bytes, pos, []}
use btcr_did_method.Base.Answer.{answer}
use btcr_did_method.Rpc.{RpcConfig}
use btcr_did_method.CommandLine.{AnyOption, QueryInput, CreateInput, parse_query, parse_create}
use btcr_did_method.CommandLine.Ints.{IsIndex}
use btcr_did_method.CommandLine.Bounds.{Passes, parsers-IsIndex}
use btcr_did_method.Programs.Txid2txref
use btcr_did_method.Programs.CreateBtcrDid
use btcr_did_method.Programs.DidResolver
use btcr_did_method.Programs.DidVerifier
use btcr_did_method.Programs.Statuses.{is_foreign, is_status, ends}
use btcr_did_method.Programs.Statuses.Mains.{mains-Ends}
use btcr_did_method.Tests.Node.{node, lib}
use btcr_did_method.Tests.Fixed.{fixed_point}
use btcr_did_method.Tests.Docs.{ops}
use btcr_did_method.Tests.Serving.{curl}

-- Every option that takes a value is given as "5".
abbrev pub any : AnyOption (Unit {0})
any = record {
  empty = tt;
  set_file_delimiter_char = λ c opt. tt;
  add_usage = λ opt. tt;
  set_flag = λ name c opt. tt;
  set_option = λ name opt. tt;
  set_command_option = λ name opt. tt;
  process_command_args = λ args opt. tt;
  process_file = λ path opt. (true, tt);
  has_options = λ opt. true;
  get_value = λ opt name. some (bytes "5");
  get_flag = λ opt name. false;
  get_flag_char = λ opt c. false;
  get_argc = λ opt. 4;
  get_argv = λ opt n. some (bytes "argument");
}

abbrev pub config : RpcConfig
config = record {
  rpcuser = bytes "5";
  rpcpassword = bytes "5";
  rpcconnect = bytes "5";
  rpcport = pos 5;
}

parsers-IsIndex_example :
    Passes any (λ (input : QueryInput). IsIndex input.txo_index) (parse_query any none [] []).0
    × Passes any
        (λ (input : CreateInput). IsIndex input.txo_index)
        (parse_create any (λ s. answer 0) none [] []).0
parsers-IsIndex_example = parsers-IsIndex any (λ s. answer 0) none [] []

mains-Ends_example :
    (ends is_foreign is_status (Txid2txref.main lib any (λ c. answer node) none [] []).0 ≡ true)
    × (ends is_foreign is_status
          (CreateBtcrDid.main lib fixed_point true any (λ c. answer node) none [] []).0
        ≡ true)
    × (ends is_foreign is_status
          (DidResolver.main ops curl 1 2 lib any (λ c. answer node) none [] []).0
        ≡ true)
    × (ends is_foreign is_status (DidVerifier.main lib any (λ c. answer node) none [] []).0 ≡ true)
mains-Ends_example = mains-Ends any ops curl 1 2 lib fixed_point true (λ c. answer node) none [] []
