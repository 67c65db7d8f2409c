-- ===== src/CommandLine/Bounds.antt =====
-- The output index that `parseCommandLineArgs` (src/txid2txref.cpp, src/createBtcrDid.cpp) lets
-- through.
use btcr_did_method.CommandLine.Ints.{IsInt, IsIndex, convert_integer_arg-IsInt}
use btcr_did_method.Base.{
  ◌≡◌, refl, inl, inr, Option, true, false, ◌||◌, if◌then◌else◌, ltb, Str, bytes, ℤ, pos, negsuc,
  List, ltb_ℤ, Bool-cases, Option-cases, arith, Message,
}
use btcr_did_method.Base.Answer.{Answer}
use btcr_did_method.Base.Run.{
  Log, Run, Outcome, failed, ok, throws, exits, aborts, unfinished, stderr, usage, emit, pure,
  ◌>>=◌,
}
use btcr_did_method.Rpc.{RpcConfig, Double}
use btcr_did_method.CommandLine.{
  AnyOption, Parsed, stop, proceed, or_default, complain, argument, default_config, QueryInput,
  CreateInput, read_options, read_port, with_options, read_config, with_txo_index,
  convert_integer_arg, convert_double, parse_query, parse_create,
}

abbrev pub config_of : Str → Str → Option Str → ℤ → RpcConfig
config_of user password host port = record {
  rpcuser = user;
  rpcpassword = password;
  rpcconnect = or_default host default_config.rpcconnect;
  rpcport = port;
}

-- What `with_txo_index` does with a number.
abbrev pub index_or_complaint : {A : Type 0} → (ℤ → Run (Parsed A)) → ℤ → Run (Parsed A)
index_or_complaint rest index = elim (ltb_ℤ index (pos 0)) [
  | true ↦ emit (stderr (Message.txo_index_negative index)) >>= λ _.
      emit usage >>= λ _. pure (stop failed)
  | false ↦ rest index
]

module _ {A : Type 0} (P : A → Type 0) where
  -- Whatever a parser lets through has the property.
  abbrev pub Lets : Run (Parsed A) → Type 0
  Lets m = (w : Log) (config : RpcConfig) (a : A) → (m w).0 ≡ ok (proceed config a) → P a

  >>=-Lets :
      {B : Type 0} (m : Run B) (f : B → Run (Parsed A))
      → ((b : B) (v : Log) → (m v).0 ≡ ok b → Lets (f b))
      → Lets (m >>= f)
  >>=-Lets {B = B} m f h w config a e = go (m w).0 (m w).1 refl e
    where
      go :
          (r : Outcome B) (w' : Log)
          → (m w).0 ≡ r
          → (((λ (v : Log). (r, w')) >>= f) w).0 ≡ ok (proceed config a)
          → P a
      go (ok b) w' made e' = h b w made w' config a e'
      go (throws x) w' made e' = absurd (ground arith)
      go (exits n) w' made e' = absurd (ground arith)
      go aborts w' made e' = absurd (ground arith)
      go unfinished w' made e' = absurd (ground arith)

  stop-Lets : (n : ℤ) → Lets (pure (stop n))
  stop-Lets n w config a e = absurd (ground arith)

  -- A message, the usage, and the end.
  complain-Lets :
      (x : Message) (n : ℤ) → Lets (emit (stderr x) >>= λ _. emit usage >>= λ _. pure (stop n))
  complain-Lets x n w config a e = absurd (ground arith)

  index_or_complaint-Lets :
      (rest : ℤ → Run (Parsed A))
      → ((i : ℤ) → IsIndex i → Lets (rest i))
      → (i : ℤ) → IsInt i
      → Lets (index_or_complaint rest i)
  index_or_complaint-Lets rest h i range w config a e = elim (Bool-cases (ltb_ℤ i (pos 0))) [
    | inl negative ↦ absurd (ground arith)
    | inr other ↦ h i (ground arith, range.1) w config a (ground arith)
  ]

  module _ {Options : Type 0} (any : AnyOption Options) where
    pub with_options-Lets :
        (home : Option Str) (args : List Str) (opt : Options) (rest : Options → Run (Parsed A))
        → ((o : Options) (v : Log)
            → (read_options any home args (any.process_command_args args opt) v).0 ≡ ok o
            → Lets (rest o))
        → Lets (with_options any home args opt rest)
    unfolding with_options
    with_options-Lets home args opt rest h w config a e = ground (
      arith,
      >>=-Lets (read_options any home args (any.process_command_args args opt)) (λ o. rest o) h w
          config a,
    )

    pub with_txo_index-Lets :
        (opt : Options) (rest : ℤ → Run (Parsed A))
        → ((i : ℤ) → IsIndex i → Lets (rest i))
        → Lets (with_txo_index any opt rest)
    unfolding with_txo_index
    with_txo_index-Lets opt rest h w config a e =
        elim (Option-cases (any.get_value opt (bytes "txoIndex"))) [
          | inl missing ↦ h (negsuc 0) (omega arith, omega arith) w config a (ground arith)
          | inr (text, given) ↦
              >>=-Lets (convert_integer_arg (bytes "txoIndex") text) (index_or_complaint rest)
                (λ i v made.
                  index_or_complaint-Lets rest h i
                    (convert_integer_arg-IsInt (bytes "txoIndex") text i v made))
                w config a (ground arith)
        ]

    pub read_config-Lets :
        (opt : Options) (rest : RpcConfig → Run (Parsed A))
        → ((c : RpcConfig) → Lets (rest c))
        → Lets (read_config any opt rest)
    unfolding read_config
    read_config-Lets opt rest h w config a e =
        elim (Option-cases (any.get_value opt (bytes "rpcuser"))) [
          | inl missing ↦ absurd (ground arith)
          | inr (user, e1) ↦ elim (Option-cases (any.get_value opt (bytes "rpcpassword"))) [
            | inl missing ↦ absurd (ground arith)
            | inr (password, e2) ↦
                let made = config_of user password (any.get_value opt (bytes "rpcconnect")) in
                >>=-Lets (read_port any opt) (λ port. rest (made port)) (λ port _ _. h (made port))
                  w config a (ground arith)
          ]
        ]

module _ {Options : Type 0} (any : AnyOption Options) where
  -- What the parsers do behind the index.
  abbrev pub query_rest : Options → RpcConfig → ℤ → Run (Parsed QueryInput)
  query_rest opt config index =
      if ltb (any.get_argc opt) 1
      then complain Message.arguments_missing
      else pure (proceed config (record { query = argument any opt 0; txo_index = index }))

  abbrev pub create_rest :
      (Str → Answer Double) → Options → RpcConfig → ℤ → Run (Parsed CreateInput)
  create_rest stod opt config index = elim (ltb (any.get_argc opt) 4) [
    | true ↦ complain Message.arguments_missing
    | false ↦ convert_double (stod (argument any opt 3)) 3 >>= λ fee. pure (
        proceed config (record {
          query = argument any opt 0;
          txo_index = index;
          output_address = argument any opt 1;
          private_key = argument any opt 2;
          ddo_ref = argument any opt 4;
          fee = fee;
          dryrun = any.get_flag opt (bytes "dryrun") || any.get_flag_char opt b'n';
        }))
  ]

  query_rest-Lets :
      (opt : Options) (c : RpcConfig) (i : ℤ)
      → IsIndex i
      → Lets (λ a. IsIndex a.txo_index) (query_rest opt c i)
  query_rest-Lets opt c i bound w config a e = ground arith

  create_rest-Lets :
      (stod : Str → Answer Double) (opt : Options) (c : RpcConfig) (i : ℤ)
      → IsIndex i
      → Lets (λ a. IsIndex a.txo_index) (create_rest stod opt c i)
  unfolding convert_double
  create_rest-Lets stod opt c i bound w config a e = ground arith

  parse_query-IsIndex :
      (home : Option Str) (args : List Str) (w : Log) (config : RpcConfig) (input : QueryInput)
      → (parse_query any home args w).0 ≡ ok (proceed config input)
      → IsIndex input.txo_index
  unfolding parse_query
  parse_query-IsIndex home args w config input e =
      with_options-Lets (λ a. IsIndex a.txo_index) any home args _
        (λ opt. read_config any opt (λ c. with_txo_index any opt (query_rest opt c)))
        (λ opt _ _.
          read_config-Lets (λ a. IsIndex a.txo_index) any opt
            (λ c. with_txo_index any opt (query_rest opt c))
            (λ c.
              with_txo_index-Lets (λ a. IsIndex a.txo_index) any opt (query_rest opt c)
                (query_rest-Lets opt c)))
        w config input e

  parse_create-IsIndex :
      (stod : Str → Answer Double) (home : Option Str) (args : List Str) (w : Log)
      (config : RpcConfig) (input : CreateInput)
      → (parse_create any stod home args w).0 ≡ ok (proceed config input)
      → IsIndex input.txo_index
  unfolding parse_create
  parse_create-IsIndex stod home args w config input e =
      with_options-Lets (λ a. IsIndex a.txo_index) any home args _
        (λ opt. read_config any opt (λ c. with_txo_index any opt (create_rest stod opt c)))
        (λ opt _ _.
          read_config-Lets (λ a. IsIndex a.txo_index) any opt
            (λ c. with_txo_index any opt (create_rest stod opt c))
            (λ c.
              with_txo_index-Lets (λ a. IsIndex a.txo_index) any opt (create_rest stod opt c)
                (create_rest-Lets stod opt c)))
        w config input e

  -- The property of what a parser lets through.
  abbrev pub Passes : {A : Type 0} → (A → Type 0) → Outcome (Parsed A) → Type 0
  Passes P (ok (proceed config a)) = P a
  Passes P _ = Unit {0}

  Passes-intro :
      {A : Type 0} (P : A → Type 0) (r : Outcome (Parsed A))
      → ((config : RpcConfig) (a : A) → r ≡ ok (proceed config a) → P a)
      → Passes P r
  Passes-intro P (ok (proceed config a)) h = h config a refl
  Passes-intro P (ok (stop n)) h = tt
  Passes-intro P (throws x) h = tt
  Passes-intro P (exits n) h = tt
  Passes-intro P aborts h = tt
  Passes-intro P unfinished h = tt

  -- Whatever the command line and the configuration file are, the output index with which txid2txref
  -- and createBtcrDid go on is an `int` that is not below -1, which stands for none.
  pub parsers-IsIndex :
      (stod : Str → Answer Double) (home : Option Str) (args : List Str) (w : Log)
      → Passes (λ (input : QueryInput). IsIndex input.txo_index) (parse_query any home args w).0
        × Passes
            (λ (input : CreateInput). IsIndex input.txo_index)
            (parse_create any stod home args w).0
  parsers-IsIndex stod home args w = (
    Passes-intro (λ (input : QueryInput). IsIndex input.txo_index) _
        (parse_query-IsIndex home args w),
    Passes-intro (λ (input : CreateInput). IsIndex input.txo_index) _
        (parse_create-IsIndex stod home args w),
  )
