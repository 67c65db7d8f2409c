-- ===== src/Tests/Given.antt =====
-- createBtcrDid (src/createBtcrDid.cpp) from its command line on.
use btcr_did_method.Base.{
  ℕ, ◌==◌, ◌≡◌, refl, true, false, Option, none, some, Str, bytes, str_eq, pos, zero, suc, [],
  if◌then◌else◌, arith, to_string,
}
use btcr_did_method.Base.Answer.{answer}
use btcr_did_method.CommandLine.{AnyOption, parse_create, read_options, find_homedir}
use btcr_did_method.CommandLine.Given.{config_of}
use btcr_did_method.Programs.CreateBtcrDid.{run, main}
use btcr_did_method.Programs.CreateBtcrDid.Given.{input_of, main-to_string}
use btcr_did_method.Programs.CreateBtcrDid.DryRun.{submissions}
use btcr_did_method.Programs.CreateBtcrDid.Submission.{AtMostOne}
use btcr_did_method.Programs.CreateBtcrDid.Arguments.{IsAsked, main_dry, main-AtMostOne}
use btcr_did_method.Tests.Amounts.{paying_node, txid_lib}
use btcr_did_method.Tests.Node.{lib, payment}
use btcr_did_method.Tests.Fixed.{fixed_point}

abbrev value_of : Str → Option Str
value_of name =
    if str_eq name (bytes "rpcuser")
    then some (bytes "user")
    else if str_eq name (bytes "rpcpassword")
    then some (bytes "secret")
    else if str_eq name (bytes "rpcport")
    then some (bytes "8332")
    else if str_eq name (bytes "txoIndex")
    then some (bytes "1")
    else none

-- The payment, an address, a key, the fee and a reference.
abbrev argument_of : ℕ → Option Str
argument_of zero = some payment
argument_of (suc zero) = some (bytes "bc1q")
argument_of (suc (suc zero)) = some (bytes "key")
argument_of (suc (suc (suc zero))) = some (bytes "fee")
argument_of (suc (suc (suc (suc zero)))) = some (bytes "ddo")
argument_of (suc (suc (suc (suc (suc n))))) = none

abbrev payer : AnyOption (Unit {0})
payer = record {
  empty = tt;
  set_file_delimiter_char = λ c opt. tt;
  add_usage = λ opt. tt;
  set_flag = λ name c opt. tt;
  set_option = λ name opt. tt;
  set_command_option = λ name opt. tt;
  process_command_args = λ args opt. tt;
  process_file = λ path opt. (true, tt);
  has_options = λ opt. true;
  get_value = λ opt name. value_of name;
  get_flag = λ opt name. false;
  get_flag_char = λ opt c. false;
  get_argc = λ opt. 5;
  get_argv = λ opt n. argument_of n;
}

main-to_string_example :
    main lib fixed_point true payer (λ c. answer paying_node) none [] []
    ≡ run lib fixed_point true
        (λ c. answer paying_node)
        (config_of payer tt (bytes "user") (bytes "secret") (pos 8332))
        (input_of payer tt (pos 1) 0)
        []
unfolding read_options find_homedir to_string str_eq
main-to_string_example =
    main-to_string payer lib fixed_point true (λ c. answer paying_node) none [] tt (bytes "user")
      (bytes "secret") (pos 8332) (pos 1) 0 [] [] refl refl refl refl refl refl (omega arith)
      (omega arith) refl (omega arith) (omega arith) refl refl

-- The same with the flag for a dry run.
abbrev dry_payer : AnyOption (Unit {0})
dry_payer = record payer { get_flag_char = λ opt c. c == b'n' }

main_dry_example :
    submissions (main txid_lib fixed_point true dry_payer (λ c. answer paying_node) none [] []).1
    ≡ []
main_dry_example =
    main_dry dry_payer txid_lib fixed_point true (λ c. answer paying_node) none [] []
      (λ opt _. refl)

main-AtMostOne_example :
    AtMostOne
      (IsAsked (parse_create payer fixed_point.stod none [] []).0 (λ c. answer paying_node))
      []
      (main txid_lib fixed_point true payer (λ c. answer paying_node) none [] []).1
main-AtMostOne_example =
    main-AtMostOne payer txid_lib fixed_point true (λ c. answer paying_node) none [] []
