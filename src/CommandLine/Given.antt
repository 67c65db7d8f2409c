-- ===== src/CommandLine/Given.antt =====
-- What `parseCommandLineArgs` (src/createBtcrDid.cpp, src/txid2txref.cpp) reads from options that are
-- given.
use btcr_did_method.Base.{
  ◌-◌, ◌^◌, ◌≡◌, true, false, ◌||◌, Option, some, Str, bytes, ℤ, pos, negsuc, ◌≤ℤ◌, List, to_string,
  arith,
}
use btcr_did_method.Base.Run.{Log, Run, ok}
use btcr_did_method.Base.Steps.{>>=-ok}
use btcr_did_method.Rpc.{RpcConfig}
use btcr_did_method.CommandLine.{
  AnyOption, Parsed, read_options, read_port, read_config, with_options, with_txo_index, or_default,
  default_config,
}
use btcr_did_method.CommandLine.RoundTrip.{convert_integer_arg-to_string}

module _ {Options : Type 0} (any : AnyOption Options) where
  open any use {get_value, get_flag, get_flag_char}

  -- The configuration with a user, a password and a port.
  abbrev pub config_of : Options → Str → Str → ℤ → RpcConfig
  config_of opt user password port = record {
    rpcuser = user;
    rpcpassword = password;
    rpcconnect = or_default (get_value opt (bytes "rpcconnect")) default_config.rpcconnect;
    rpcport = port;
  }

  read_port_lem :
      (opt : Options) (port : ℤ) (w : Log)
      → get_value opt (bytes "rpcport") ≡ some (to_string port)
      → negsuc (2 ^ 31 - 1) ≤ℤ port
      → port ≤ℤ pos (2 ^ 31 - 1)
      → read_port any opt w ≡ (ok port, w)
  unfolding read_port
  read_port_lem opt port w given low high =
      rw (read_port, given) (convert_integer_arg-to_string (bytes "rpcport") port w low high)

  module _ {A : Type 0} where
    pub with_options_lem :
        (home : Option Str) (args : List Str) (declared opt : Options)
        (rest : Options → Run (Parsed A)) (w w' : Log)
        → any.has_options (any.process_command_args args declared) ≡ true
        → read_options any home args (any.process_command_args args declared) w ≡ (ok opt, w')
        → (get_flag opt (bytes "help") || get_flag_char opt b'h') ≡ false
        → with_options any home args declared rest w ≡ rest opt w'
    unfolding with_options
    with_options_lem home args declared opt rest w w' given read no_help = ground arith

    pub read_config_lem :
        (opt : Options) (user password : Str) (port : ℤ) (rest : RpcConfig → Run (Parsed A))
        (w : Log)
        → get_value opt (bytes "rpcuser") ≡ some user
        → get_value opt (bytes "rpcpassword") ≡ some password
        → get_value opt (bytes "rpcport") ≡ some (to_string port)
        → negsuc (2 ^ 31 - 1) ≤ℤ port
        → port ≤ℤ pos (2 ^ 31 - 1)
        → read_config any opt rest w ≡ rest (config_of opt user password port) w
    unfolding read_config
    read_config_lem opt user password port rest w user_given password_given port_given low high =
        rw (read_config, user_given, password_given)
          (>>=-ok (read_port any opt) (λ p. rest (config_of opt user password p)) port w w
            (read_port_lem opt port w port_given low high))

    pub with_txo_index_lem :
        (opt : Options) (i : ℤ) (rest : ℤ → Run (Parsed A)) (w : Log)
        → get_value opt (bytes "txoIndex") ≡ some (to_string i)
        → pos 0 ≤ℤ i
        → i ≤ℤ pos (2 ^ 31 - 1)
        → with_txo_index any opt rest w ≡ rest i w
    unfolding with_txo_index
    with_txo_index_lem opt i rest w given nonneg small =
        let low : negsuc (2 ^ 31 - 1) ≤ℤ i = omega (arith, nonneg) in
        ground (arith, convert_integer_arg-to_string (bytes "txoIndex") i w low small)
