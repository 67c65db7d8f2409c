-- ===== src/CommandLine.antt =====
-- The command lines of the four programs: `parseCommandLineArgs`, `convertIntegerArg` and
-- `find_homedir` of src/txid2txref.cpp, src/createBtcrDid.cpp, src/didResolver.cpp and
-- src/didVerifier.cpp. AnyOption is vendored in external/anyoption: a parameter.
pub mod Numbers
pub mod Options
unfoldable pub use Options.*
pub mod Ints
pub mod Bounds
pub mod RoundTrip
pub mod Given
use btcr_did_method.Base.{
  ℕ, Bool, true, false, not, ◌&&◌, ◌||◌, Option, none, some, Str, bytes, is_empty, ℤ, pos, negsuc,
  ltb_ℤ, ltb, List, [], ◌∷◌, ◌++◌, if◌then◌else◌, Message,
}
use btcr_did_method.Base.Answer.{Answer, answer, raise}
use btcr_did_method.Base.Run.{
  Run, Event, usage, stderr, failed, pure, exit, emit, when, ◌>>=◌, ◌>>◌,
}
use btcr_did_method.Rpc.{RpcConfig, Double}

module _ {Options : Type 0} (any : AnyOption Options) where
  open any use {get_value, get_flag, get_flag_char, get_argc, get_argv}

  -- The options that all the programs have, with the flags that one has after `help`.
  unfoldable pub common_options : (Options → Options) → Options
  common_options flags =
      let opt1 = any.add_usage (any.set_file_delimiter_char b'=' any.empty) in
      let opt2 = flags (any.set_flag (bytes "help") b'h' opt1) in
      let opt3 = any.set_option (bytes "rpcuser") (any.set_option (bytes "rpcconnect") opt2) in
      let opt4 = any.set_option (bytes "rpcport") (any.set_option (bytes "rpcpassword") opt3) in
      any.set_command_option (bytes "config") opt4

  -- The configuration file, and the second pass over the arguments.
  unfoldable pub read_options : Option Str → List Str → Options → Run Options
  unfolding find_homedir
  read_options home args opt = elim (get_value opt (bytes "config")) [
    | some path ↦ pure (any.process_command_args args (any.process_file path opt).1)
    | none ↦
        let directory = find_homedir home in
        elim (is_empty directory) [
          | true ↦ pure (any.process_command_args args opt)
          | false ↦
              let (readable, opt') =
                any.process_file (directory ++ bytes "/.bitcoin/bitcoin.conf") opt in
              do
                when (not readable) (
                    emit (
                      stderr (
                        Message.config_not_readable (directory ++ bytes "/.bitcoin/bitcoin.conf"))))
                pure (any.process_command_args args opt')
        ]
  ]

  -- `getValue("rpcport")`, if it is given.
  unfoldable pub read_port : Options → Run ℤ
  unfolding convert_integer_arg
  read_port opt = elim (get_value opt (bytes "rpcport")) [
    | none ↦ pure (pos 0)
    | some text ↦ convert_integer_arg (bytes "rpcport") text
  ]

  -- From the user to the port: `return -1`, or the configuration for the rest of the function.
  unfoldable pub read_config :
      {A : Type 0} → Options → (RpcConfig → Run (Parsed A)) → Run (Parsed A)
  unfolding read_port
  read_config opt rest = elim (get_value opt (bytes "rpcuser")) [
    | none ↦ complain (Message.rpcuser_missing (bytes "rpcuser"))
    | some user ↦ elim (get_value opt (bytes "rpcpassword")) [
      | none ↦ complain (Message.rpcpassword_missing (bytes "rpcpassword"))
      | some password ↦ do
        port ← read_port opt
        rest (record {
          rpcuser = user;
          rpcpassword = password;
          rpcconnect = or_default (get_value opt (bytes "rpcconnect")) default_config.rpcconnect;
          rpcport = port;
        })
    ]
  ]

  -- The first pass, the test for any options, the second pass and the test for help.
  unfoldable pub with_options :
      {A : Type 0} → Option Str → List Str → Options → (Options → Run (Parsed A)) → Run (Parsed A)
  unfolding read_options
  with_options home args declared rest =
      let opt = any.process_command_args args declared in
      elim (any.has_options opt) [
        | false ↦ do emit usage; pure (stop (pos 0))
        | true ↦ do
          opt' ← read_options home args opt
          elim (get_flag opt' (bytes "help") || get_flag_char opt' b'h') [
            | true ↦ do emit usage; pure (stop (pos 0))
            | false ↦ rest opt'
          ]
      ]

  -- `--txoIndex`: -1 if it is not given.
  unfoldable pub with_txo_index : {A : Type 0} → Options → (ℤ → Run (Parsed A)) → Run (Parsed A)
  unfolding convert_integer_arg
  with_txo_index opt rest = elim (get_value opt (bytes "txoIndex")) [
    | none ↦ rest (negsuc 0)
    | some text ↦ do
      index ← convert_integer_arg (bytes "txoIndex") text
      elim (ltb_ℤ index (pos 0)) [
        | true ↦ complain (Message.txo_index_negative index)
        | false ↦ rest index
      ]
  ]

  -- An argument of the position; the source reads it only where it is there, or tests it.
  abbrev pub argument : Options → ℕ → Str
  argument opt n = or_default (get_argv opt n) (bytes "")

  -- `parseCommandLineArgs` of src/txid2txref.cpp
  unfoldable pub parse_query : Option Str → List Str → Run (Parsed QueryInput)
  unfolding common_options with_options read_config with_txo_index
  parse_query home args =
      with_options home args (any.set_option (bytes "txoIndex") (common_options (λ opt. opt)))
        λ opt. read_config opt λ config. with_txo_index opt λ index.
          if ltb (get_argc opt) 1
          then complain Message.arguments_missing
          else pure (proceed config (record { query = argument opt 0; txo_index = index }))

  -- `parseCommandLineArgs` of src/createBtcrDid.cpp
  unfoldable pub parse_create :
      (Str → Answer Double) → Option Str → List Str → Run (Parsed CreateInput)
  unfolding common_options with_options read_config with_txo_index convert_double
  parse_create stod home args =
      with_options home args
        (any.set_option (bytes "txoIndex") (common_options (any.set_flag (bytes "dryrun") b'n')))
        λ opt. read_config opt λ config. with_txo_index opt λ index. elim (ltb (get_argc opt) 4) [
          | true ↦ complain Message.arguments_missing
          | false ↦ do
            fee ← convert_double (stod (argument opt 3)) 3
            pure (
                proceed config (record {
                  query = argument opt 0;
                  txo_index = index;
                  output_address = argument opt 1;
                  private_key = argument opt 2;
                  ddo_ref = argument opt 4;
                  fee = fee;
                  dryrun = get_flag opt (bytes "dryrun") || get_flag_char opt b'n';
                }))
        ]

  -- `parseCommandLineArgs` of src/didResolver.cpp: the DID, and the flag for tests
  unfoldable pub parse_resolver : Option Str → List Str → Run (Parsed (Str × Bool))
  unfolding common_options with_options read_config
  parse_resolver home args =
      with_options home args
        (any.set_flag (bytes "exitAfterFollowTip") b'f' (common_options (λ opt. opt)))
        λ opt. read_config opt λ config.
          if ltb (get_argc opt) 1
          then complain Message.arguments_missing
          else pure (
              proceed config (
                argument opt 0,
                get_flag opt (bytes "exitAfterFollowTip") || get_flag_char opt b'f',
              ))

  -- `parseCommandLineArgs` of src/didVerifier.cpp
  unfoldable pub parse_verifier : Option Str → List Str → Run (Parsed Str)
  unfolding common_options with_options read_config
  parse_verifier home args = with_options home args (common_options (λ opt. opt)) λ opt.
      read_config opt λ config.
        if ltb (get_argc opt) 1
        then complain Message.arguments_missing
        else pure (proceed config (argument opt 0))
