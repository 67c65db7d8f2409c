-- ===== src/Programs/CreateBtcrDid/Given.antt =====
-- From the command line of createBtcrDid (src/createBtcrDid.cpp) to its run.
use btcr_did_method.Base.{
  ◌-◌, ◌^◌, ◌≡◌, ◌∙◌, Bool, true, false, Option, some, ◌||◌, Str, bytes, ℤ, pos, negsuc, ◌≤ℤ◌, ltb,
  List, to_string, arith,
}
use btcr_did_method.Base.Answer.{Answer, answer}
use btcr_did_method.Base.Run.{Log, ok, exit}
use btcr_did_method.Base.Steps.{>>=-ok}
use btcr_did_method.Libtxref.{Libtxref}
use btcr_did_method.Rpc.{RpcConfig, Btc, Double}
use btcr_did_method.Satoshis.{Fpu}
use btcr_did_method.CommandLine.{
  AnyOption, stop, proceed, CreateInput, common_options, read_options, read_config, with_txo_index,
  convert_double, parse_create, argument,
}
use btcr_did_method.CommandLine.Bounds.{create_rest}
use btcr_did_method.CommandLine.Given.{
  config_of, with_options_lem, read_config_lem, with_txo_index_lem,
}
use btcr_did_method.Programs.CreateBtcrDid.{run, main}

module _ {Options : Type 0} (any : AnyOption Options) where
  open any use {get_value, get_flag, get_flag_char, get_argc}

  -- What the program declares, as the first pass over the arguments leaves it.
  abbrev pub first_pass : List Str → Options
  first_pass args =
      any.process_command_args args (
        any.set_option (bytes "txoIndex") (common_options any (any.set_flag (bytes "dryrun") b'n')))

  -- The options after the last but one, once they are there.
  abbrev pub input_of : Options → ℤ → Double → CreateInput
  input_of opt i fee = record {
    query = argument any opt 0;
    txo_index = i;
    output_address = argument any opt 1;
    private_key = argument any opt 2;
    ddo_ref = argument any opt 4;
    fee = fee;
    dryrun = get_flag opt (bytes "dryrun") || get_flag_char opt b'n';
  }

  create_rest_lem :
      (stod : Str → Answer Double) (opt : Options) (c : RpcConfig) (i : ℤ) (fee : Double) (w : Log)
      → ltb (get_argc opt) 4 ≡ false
      → stod (argument any opt 3) ≡ answer fee
      → create_rest any stod opt c i w ≡ (ok (proceed c (input_of opt i fee)), w)
  unfolding convert_double
  create_rest_lem stod opt c i fee w enough number = ground arith

  -- The options are read without a message of help; the user and the password are given, the port and
  -- the output index as the decimal texts of an `int` and of one that is not negative, and at least
  -- four arguments, of which the last but one of these is a number. Then `main` is the run with just
  -- these: the port and the index are the numbers that were written, the other texts are taken as they
  -- are, and nothing is printed behind the reading of the options.
  pub main-to_string :
      (lib : Libtxref) (fpu : Fpu) (signed : Bool) (connect : RpcConfig → Answer Btc)
      (home : Option Str) (args : List Str) (opt : Options) (user password : Str) (port i : ℤ)
      (fee : Double) (w w' : Log)
      → any.has_options (first_pass args) ≡ true
      → read_options any home args (first_pass args) w ≡ (ok opt, w')
      → (get_flag opt (bytes "help") || get_flag_char opt b'h') ≡ false
      → get_value opt (bytes "rpcuser") ≡ some user
      → get_value opt (bytes "rpcpassword") ≡ some password
      → get_value opt (bytes "rpcport") ≡ some (to_string port)
      → negsuc (2 ^ 31 - 1) ≤ℤ port
      → port ≤ℤ pos (2 ^ 31 - 1)
      → get_value opt (bytes "txoIndex") ≡ some (to_string i)
      → pos 0 ≤ℤ i
      → i ≤ℤ pos (2 ^ 31 - 1)
      → ltb (get_argc opt) 4 ≡ false
      → fpu.stod (argument any opt 3) ≡ answer fee
      → main lib fpu signed any connect home args w
        ≡ run lib fpu signed connect (config_of any opt user password port) (input_of opt i fee) w'
  unfolding main parse_create
  main-to_string lib fpu signed connect home args opt user password port i fee w w' given read
        no_help user_given password_given port_given port_low port_high index_given nonneg small
        enough stod =
      let config = config_of any opt user password port in
      let parsed : parse_create any fpu.stod home args w
          ≡ (ok (proceed config (input_of opt i fee)), w') =
        with_options_lem any home args _ opt
          (λ o. read_config any o (λ c. with_txo_index any o (create_rest any fpu.stod o c))) w w'
          given read no_help
        ∙ read_config_lem any opt user password port
            (λ c. with_txo_index any opt (create_rest any fpu.stod opt c)) w' user_given
            password_given port_given port_low port_high
        ∙ with_txo_index_lem any opt i (create_rest any fpu.stod opt config) w' index_given nonneg
            small
        ∙ create_rest_lem fpu.stod opt config i fee w' enough stod in
      >>=-ok (parse_create any fpu.stod home args)
        (λ parsed. elim parsed [
          | stop status ↦ exit status
          | proceed config input ↦ run lib fpu signed connect config input
        ])
        (proceed config (input_of opt i fee)) w w' parsed
