-- ===== src/Programs/Statuses/CommandLines.antt =====
-- The statuses that the parsers of the command lines return.
use btcr_did_method.Base.{
  ℕ, refl, Bool, true, false, ◌||◌, inl, inr, Option, Option-cases, Bool-cases, Str, bytes, ℤ, pos,
  negsuc, List, ltb, ltb_ℤ, if◌then◌else◌, Message, arith,
}
use btcr_did_method.Base.Answer.{Answer, answer, raise}
use btcr_did_method.Base.Run.{Run, emit, pure, usage, ◌>>=◌}
use btcr_did_method.Rpc.{RpcConfig, Double}
use btcr_did_method.CommandLine.{
  AnyOption, Parsed, stop, proceed, complain, argument, or_default, default_config, convert_integer,
  convert_integer_arg, convert_double, read_options, read_port, read_config, with_options,
  with_txo_index, parse_query, parse_create, parse_resolver, parse_verifier,
}
use btcr_did_method.CommandLine.Bounds.{create_rest}
use btcr_did_method.Programs.Statuses.{is_foreign, is_status, ends, any_value, Ends, >>=-Ends_any}

-- What a parser returns: one of the two statuses, or what it filled in.
unfoldable pub is_parsed : {A : Type 0} → Parsed A → Bool
is_parsed (stop n) = is_status n
is_parsed (proceed config a) = true

complain-Ends : (A : Type 0) (m : Message) → Ends is_foreign is_parsed (complain {A = A} m)
unfolding ends is_parsed is_status is_foreign
complain-Ends A m = record { ended = λ w. refl }

convert_integer_arg-Ends :
    (name text : Str) → Ends is_foreign any_value (convert_integer_arg name text)
unfolding convert_integer_arg convert_integer ends is_status is_foreign
convert_integer_arg-Ends name text = record { ended = λ w. ground arith }

convert_double-Ends : (x : Answer Double) (n : ℕ) → Ends is_foreign any_value (convert_double x n)
unfolding convert_double ends is_status is_foreign
convert_double-Ends (answer d) n = record { ended = λ w. refl }
convert_double-Ends (raise e) n = record { ended = λ w. refl }

read_options-Ends :
    {Options : Type 0} (any : AnyOption Options) (home : Option Str) (args : List Str)
    (opt : Options)
    → Ends is_foreign any_value (read_options any home args opt)
unfolding read_options ends
read_options-Ends any home args opt = record { ended = λ w. ground arith }

read_port-Ends :
    {Options : Type 0} (any : AnyOption Options) (opt : Options)
    → Ends is_foreign any_value (read_port any opt)
unfolding read_port ends
read_port-Ends any opt = record {
  ended = λ w. elim (Option-cases (any.get_value opt (bytes "rpcport"))) [
    | inl e ↦ ground arith
    | inr (text, e) ↦ ground (arith, (convert_integer_arg-Ends (bytes "rpcport") text).ended w)
  ];
}

module _ {Options : Type 0} (any : AnyOption Options) {A : Type 0} where
  with_options-Ends :
      (home : Option Str) (args : List Str) (declared : Options) (rest : Options → Run (Parsed A))
      → ((opt : Options) → Ends is_foreign is_parsed (rest opt))
      → Ends is_foreign is_parsed (with_options any home args declared rest)
  unfolding with_options ends is_parsed is_status is_foreign
  with_options-Ends home args declared rest h =
      let opt = any.process_command_args args declared in
      let helped = λ (o : Options).
        elim (any.get_flag o (bytes "help") || any.get_flag_char o b'h') as (λ b. Run (Parsed A)) [
          | true ↦ emit usage >>= λ _. pure (stop (pos 0))
          | false ↦ rest o
        ] in
      let helped-ends : (o : Options) → Ends is_foreign is_parsed (helped o) =
        λ o. record { ended = λ w. ground (arith, (h o).ended w) } in
      let read : Ends is_foreign is_parsed (read_options any home args opt >>= helped) =
        search (>>=-Ends_any, read_options-Ends, helped-ends) in
      record { ended = λ w. ground (arith, read.ended w, Bool-cases (any.has_options opt)) }

  with_txo_index-Ends :
      (opt : Options) (rest : ℤ → Run (Parsed A))
      → ((i : ℤ) → Ends is_foreign is_parsed (rest i))
      → Ends is_foreign is_parsed (with_txo_index any opt rest)
  unfolding with_txo_index ends is_parsed is_status is_foreign
  with_txo_index-Ends opt rest h =
      let checked = λ (i : ℤ). elim (ltb_ℤ i (pos 0)) as (λ b. Run (Parsed A)) [
        | true ↦ complain (Message.txo_index_negative i)
        | false ↦ rest i
      ] in
      let checked-ends : (i : ℤ) → Ends is_foreign is_parsed (checked i) =
        λ i. record { ended = λ w. ground (arith, (h i).ended w) } in
      let converted : (text : Str)
          → Ends is_foreign is_parsed (convert_integer_arg (bytes "txoIndex") text >>= checked) =
        λ text. search (>>=-Ends_any, convert_integer_arg-Ends, checked-ends) in
      record {
        ended = λ w. elim (Option-cases (any.get_value opt (bytes "txoIndex"))) [
          | inl e ↦ ground (arith, (h (negsuc 0)).ended w)
          | inr (text, e) ↦ ground (arith, (converted text).ended w)
        ];
      }

  read_config-Ends :
      (opt : Options) (rest : RpcConfig → Run (Parsed A))
      → ((c : RpcConfig) → Ends is_foreign is_parsed (rest c))
      → Ends is_foreign is_parsed (read_config any opt rest)
  unfolding read_config ends is_parsed is_status is_foreign
  read_config-Ends opt rest h = record {
    ended = λ w. elim (Option-cases (any.get_value opt (bytes "rpcuser"))) [
      | inl e ↦ ground arith
      | inr (user, e) ↦ elim (Option-cases (any.get_value opt (bytes "rpcpassword"))) [
        | inl e' ↦ ground arith
        | inr (password, e') ↦
            let made = λ (port : ℤ). rest (record {
              rpcuser = user;
              rpcpassword = password;
              rpcconnect =
                  or_default (any.get_value opt (bytes "rpcconnect")) default_config.rpcconnect;
              rpcport = port;
            }) in
            let at_port : Ends is_foreign is_parsed (read_port any opt >>= made) =
              search (>>=-Ends_any, read_port-Ends, h) in
            ground (arith, at_port.ended w)
      ]
    ];
  }

-- A message if an argument is missing, and else the arguments.
if-Ends :
    {A : Type 0} (b : Bool) (m : Message) (config : RpcConfig) (a : A)
    → Ends is_foreign is_parsed (if b then complain m else pure (proceed config a))
unfolding ends is_parsed is_status is_foreign
if-Ends true m config a = record { ended = λ w. refl }
if-Ends false m config a = record { ended = λ w. refl }

module _ {Options : Type 0} (any : AnyOption Options) where
  pub parse_query-Ends :
      (home : Option Str) (args : List Str) → Ends is_foreign is_parsed (parse_query any home args)
  unfolding parse_query
  parse_query-Ends home args =
      let given = λ (opt : Options) (config : RpcConfig) (index : ℤ).
        if ltb (any.get_argc opt) 1
        then complain Message.arguments_missing
        else pure (proceed config (record { query = argument any opt 0; txo_index = index })) in
      let indexed =
        λ (opt : Options) (config : RpcConfig). with_txo_index any opt (given opt config) in
      with_options-Ends any home args _ (λ opt. read_config any opt (indexed opt))
        λ opt. read_config-Ends any opt (indexed opt) λ config.
          with_txo_index-Ends any opt (given opt config)
            λ index. if-Ends (ltb (any.get_argc opt) 1) _ config _

  create_rest-Ends :
      (stod : Str → Answer Double) (opt : Options) (config : RpcConfig) (index : ℤ)
      → Ends is_foreign is_parsed (create_rest any stod opt config index)
  unfolding convert_double ends is_parsed is_status is_foreign
  create_rest-Ends stod opt config index = record { ended = λ w. ground arith }

  pub parse_create-Ends :
      (stod : Str → Answer Double) (home : Option Str) (args : List Str)
      → Ends is_foreign is_parsed (parse_create any stod home args)
  unfolding parse_create
  parse_create-Ends stod home args =
      let indexed = λ (opt : Options) (config : RpcConfig).
        with_txo_index any opt (create_rest any stod opt config) in
      with_options-Ends any home args _ (λ opt. read_config any opt (indexed opt))
        λ opt. read_config-Ends any opt (indexed opt) λ config.
          with_txo_index-Ends any opt (create_rest any stod opt config)
            (create_rest-Ends stod opt config)

  pub parse_resolver-Ends :
      (home : Option Str) (args : List Str)
      → Ends is_foreign is_parsed (parse_resolver any home args)
  unfolding parse_resolver
  parse_resolver-Ends home args =
      let given = λ (opt : Options) (config : RpcConfig).
        if ltb (any.get_argc opt) 1
        then complain Message.arguments_missing
        else pure (
            proceed config (
              argument any opt 0,
              any.get_flag opt (bytes "exitAfterFollowTip") || any.get_flag_char opt b'f',
            )) in
      with_options-Ends any home args _ (λ opt. read_config any opt (given opt))
        λ opt.
          read_config-Ends any opt (given opt)
            λ config. if-Ends (ltb (any.get_argc opt) 1) _ config _

  pub parse_verifier-Ends :
      (home : Option Str) (args : List Str)
      → Ends is_foreign is_parsed (parse_verifier any home args)
  unfolding parse_verifier
  parse_verifier-Ends home args =
      let given = λ (opt : Options) (config : RpcConfig).
        if ltb (any.get_argc opt) 1
        then complain Message.arguments_missing
        else pure (proceed config (argument any opt 0)) in
      with_options-Ends any home args _ (λ opt. read_config any opt (given opt))
        λ opt.
          read_config-Ends any opt (given opt)
            λ config. if-Ends (ltb (any.get_argc opt) 1) _ config _
