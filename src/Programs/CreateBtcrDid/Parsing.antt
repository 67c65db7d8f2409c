-- ===== src/Programs/CreateBtcrDid/Parsing.antt =====
-- The command line of createBtcrDid (src/createBtcrDid.cpp) submits nothing.
use btcr_did_method.Base.{
  true, false, ◌||◌, inl, inr, Option, Option-cases, Bool-cases, Str, bytes, ℤ, pos, negsuc, List,
  arith,
}
use btcr_did_method.Base.Answer.{Answer}
use btcr_did_method.Base.Run.{Run, emit, usage, pure, ◌>>=◌}
use btcr_did_method.Rpc.{RpcConfig, Double}
use btcr_did_method.CommandLine.{
  AnyOption, Parsed, stop, convert_integer, convert_integer_arg, convert_double, read_options,
  read_port, read_config, with_options, with_txo_index, parse_create,
}
use btcr_did_method.CommandLine.Bounds.{create_rest, index_or_complaint, config_of}
use btcr_did_method.Programs.CreateBtcrDid.DryRun.{Submitless, >>=-Submitless}

convert_integer_arg-Submitless : (name text : Str) → Submitless (convert_integer_arg name text)
unfolding convert_integer_arg convert_integer
convert_integer_arg-Submitless name text w = ground arith

module _ {Options : Type 0} (any : AnyOption Options) where
  read_options-Submitless :
      (home : Option Str) (args : List Str) (opt : Options)
      → Submitless (read_options any home args opt)
  unfolding read_options
  read_options-Submitless home args opt w = ground arith

  read_port-Submitless : (opt : Options) → Submitless (read_port any opt)
  unfolding read_port
  read_port-Submitless opt w = elim (Option-cases (any.get_value opt (bytes "rpcport"))) [
    | inl e ↦ ground arith
    | inr (text, e) ↦ ground (arith, convert_integer_arg-Submitless (bytes "rpcport") text w)
  ]

  module _ {A : Type 0} where
    with_options-Submitless :
        (home : Option Str) (args : List Str) (declared : Options) (rest : Options → Run (Parsed A))
        → ((opt : Options) → Submitless (rest opt))
        → Submitless (with_options any home args declared rest)
    unfolding with_options
    with_options-Submitless home args declared rest h w =
        let opt = any.process_command_args args declared in
        let helped = λ (o : Options).
          elim (any.get_flag o (bytes "help") || any.get_flag_char o b'h')
            as (λ b. Run (Parsed A)) [
              | true ↦ emit usage >>= λ _. pure (stop (pos 0))
              | false ↦ rest o
            ] in
        let helped-lem : (o : Options) → Submitless (helped o) = λ o v. ground (arith, h o v) in
        ground (
          arith,
          >>=-Submitless (read_options any home args opt) helped
              (read_options-Submitless home args opt) helped-lem w,
          Bool-cases (any.has_options opt),
        )

    index_or_complaint-Submitless :
        (rest : ℤ → Run (Parsed A))
        → ((i : ℤ) → Submitless (rest i))
        → (i : ℤ) → Submitless (index_or_complaint rest i)
    index_or_complaint-Submitless rest h i w = ground (arith, h i w)

    with_txo_index-Submitless :
        (opt : Options) (rest : ℤ → Run (Parsed A))
        → ((i : ℤ) → Submitless (rest i))
        → Submitless (with_txo_index any opt rest)
    unfolding with_txo_index
    with_txo_index-Submitless opt rest h w =
        elim (Option-cases (any.get_value opt (bytes "txoIndex"))) [
          | inl e ↦ ground (arith, h (negsuc 0) w)
          | inr (text, e) ↦ ground (
            arith,
            >>=-Submitless (convert_integer_arg (bytes "txoIndex") text) (index_or_complaint rest)
                (convert_integer_arg-Submitless (bytes "txoIndex") text)
                (index_or_complaint-Submitless rest h) w,
          )
        ]

    read_config-Submitless :
        (opt : Options) (rest : RpcConfig → Run (Parsed A))
        → ((c : RpcConfig) → Submitless (rest c))
        → Submitless (read_config any opt rest)
    unfolding read_config
    read_config-Submitless opt rest h w =
        elim (Option-cases (any.get_value opt (bytes "rpcuser"))) [
          | inl missing ↦ ground arith
          | inr (user, e1) ↦ elim (Option-cases (any.get_value opt (bytes "rpcpassword"))) [
            | inl missing ↦ ground arith
            | inr (password, e2) ↦
                let made = config_of user password (any.get_value opt (bytes "rpcconnect")) in
                ground (
                  arith,
                  >>=-Submitless (read_port any opt) (λ port. rest (made port))
                      (read_port-Submitless opt) (λ port. h (made port)) w,
                )
          ]
        ]

  create_rest-Submitless :
      (stod : Str → Answer Double) (opt : Options) (c : RpcConfig) (i : ℤ)
      → Submitless (create_rest any stod opt c i)
  unfolding convert_double
  create_rest-Submitless stod opt c i w = ground arith

  pub parse_create-Submitless :
      (stod : Str → Answer Double) (home : Option Str) (args : List Str)
      → Submitless (parse_create any stod home args)
  unfolding parse_create
  parse_create-Submitless stod home args =
      with_options-Submitless home args _
        (λ opt. read_config any opt (λ c. with_txo_index any opt (create_rest any stod opt c)))
        λ opt.
          read_config-Submitless opt (λ c. with_txo_index any opt (create_rest any stod opt c))
            λ c.
              with_txo_index-Submitless opt (create_rest any stod opt c)
                (create_rest-Submitless stod opt c)
