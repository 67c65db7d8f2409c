-- ===== src/CommandLine/Options.antt =====
-- What the parsers of the command lines (src/txid2txref.cpp, src/createBtcrDid.cpp) share: AnyOption,
-- which is vendored in external/anyoption and a parameter, and the conversion of numbers.
use btcr_did_method.Base.{ℕ, Bool, Option, none, some, Str, bytes, ℤ, pos, List, ◌++◌, Message}
use btcr_did_method.Base.Answer.{Answer, answer, raise}
use btcr_did_method.Base.Run.{Run, usage, stderr, failed, pure, exit, emit, ◌>>◌}
use btcr_did_method.Rpc.{RpcConfig, Double}
use btcr_did_method.CommandLine.Numbers.{Stoi, value, invalid_argument, too_large, stoi}

-- The calls of `AnyOption`, over the state of such an object. A value that is missing is `nullptr`.
pub record AnyOption (Options : Type 0) : Type 0 where
  pub empty : Options
  pub set_file_delimiter_char : ℕ → Options → Options
  pub add_usage : Options → Options
  pub set_flag : Str → ℕ → Options → Options
  pub set_option : Str → Options → Options
  pub set_command_option : Str → Options → Options
  pub process_command_args : List Str → Options → Options
  pub process_file : Str → Options → Bool × Options
  pub has_options : Options → Bool
  pub get_value : Options → Str → Option Str
  pub get_flag : Options → Str → Bool
  pub get_flag_char : Options → ℕ → Bool
  pub get_argc : Options → ℕ
  pub get_argv : Options → ℕ → Option Str

-- What `parseCommandLineArgs` returns: a number below 1, with which the program exits, or 1 and what
-- it filled in.
pub data Parsed (A : Type 0) : Type 0 where
  stop : ℤ → Parsed A
  proceed : RpcConfig → A → Parsed A

-- The initial `RpcConfig`.
abbrev pub default_config : RpcConfig
default_config = record {
  rpcuser = bytes "";
  rpcpassword = bytes "";
  rpcconnect = bytes "127.0.0.1";
  rpcport = pos 0;
}

-- `CmdlineInput` of src/txid2txref.cpp
pub record QueryInput : Type 0 where
  pub query : Str
  pub txo_index : ℤ

-- `CmdlineInput` of src/createBtcrDid.cpp
pub record CreateInput : Type 0 where
  pub query : Str
  pub txo_index : ℤ
  pub output_address : Str
  pub private_key : Str
  pub ddo_ref : Str
  pub fee : Double
  pub dryrun : Bool

-- `find_homedir`; the environment variable is an argument.
unfoldable pub find_homedir : Option Str → Str
find_homedir none = bytes ""
find_homedir (some home) = bytes "" ++ home

-- `if(v != nullptr) target = v;`
abbrev pub or_default : Option Str → Str → Str
or_default none target = target
or_default (some v) target = v

-- `convertIntegerArg`: its two handlers are alike.
unfoldable pub convert_integer : Stoi → Str → Run ℤ
convert_integer (value i) arg_name = pure i
convert_integer invalid_argument arg_name = do
  emit (stderr (Message.invalid_integer arg_name))
  emit usage
  exit failed
convert_integer too_large arg_name = do
  emit (stderr (Message.invalid_integer arg_name))
  emit usage
  exit failed

unfoldable pub convert_integer_arg : Str → Str → Run ℤ
unfolding convert_integer
convert_integer_arg arg_name text = convert_integer (stoi text) arg_name

-- `convertDoubleArg` of src/createBtcrDid.cpp, over the library's `std::stod`. Only the exceptions
-- `std::invalid_argument` and `std::out_of_range` are documented for it, and both are caught.
unfoldable pub convert_double : Answer Double → ℕ → Run Double
convert_double (answer d) position = pure d
convert_double (raise e) position = do
  emit (stderr (Message.invalid_argument_at position))
  emit usage
  exit failed

-- A message, the usage, and `return -1`.
abbrev pub complain : {A : Type 0} → Message → Run (Parsed A)
complain m = do emit (stderr m); emit usage; pure (stop failed)
