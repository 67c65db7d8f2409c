-- ===== src/Programs/CreateBtcrDid/Arguments.antt =====
-- What createBtcrDid (src/createBtcrDid.cpp) submits, from its command line on.
use btcr_did_method.Base.{
  ◌≡◌, refl, ◌∙◌, ap, true, ◌||◌, inl, Option, Bool, Str, bytes, ℤ, List, arith,
}
use btcr_did_method.Base.Answer.{Answer, answer}
use btcr_did_method.Base.Run.{Log, Outcome, Run, ok, exit}
use btcr_did_method.Libtxref.{Libtxref}
use btcr_did_method.Rpc.{RpcConfig, Btc, Double}
use btcr_did_method.Satoshis.{Fpu}
use btcr_did_method.CommandLine.{
  AnyOption, Parsed, stop, proceed, CreateInput, convert_double, read_options, read_config,
  with_txo_index, parse_create,
}
use btcr_did_method.CommandLine.Bounds.{
  create_rest, Lets, with_options-Lets, read_config-Lets, with_txo_index-Lets,
}
use btcr_did_method.Programs.CreateBtcrDid.{run, main}
use btcr_did_method.Programs.CreateBtcrDid.Given.{first_pass}
use btcr_did_method.Programs.CreateBtcrDid.Submission.{
  AtMostOne, AtMostOne-map, >>=-AtMostOne, IsSigned, run-AtMostOne,
}
use btcr_did_method.Programs.CreateBtcrDid.DryRun.{
  submissions, Submitless, >>=-Submitless_of, run_dry,
}
use btcr_did_method.Programs.CreateBtcrDid.Parsing.{parse_create-Submitless}

abbrev IsDry : CreateInput → Type 0
IsDry input = input.dryrun ≡ true

-- What `main` does behind the command line.
abbrev behind : (RpcConfig → CreateInput → Run ℤ) → Parsed CreateInput → Run ℤ
behind go parsed = elim parsed [
  | stop status ↦ exit status
  | proceed config input ↦ go config input
]

behind_dry :
    (lib : Libtxref) (fpu : Fpu) (signed : Bool) (connect : RpcConfig → Answer Btc)
    (parsed : Parsed CreateInput)
    → ((config : RpcConfig) (input : CreateInput) → parsed ≡ proceed config input → IsDry input)
    → Submitless (behind (run lib fpu signed connect) parsed)
behind_dry lib fpu signed connect (stop status) h w = refl
behind_dry lib fpu signed connect (proceed config input) h w =
    run_dry lib fpu signed connect config input w (h config input refl)

-- What the node at the configuration that was read signed with the key that was read.
abbrev pub IsAsked : Outcome (Parsed CreateInput) → (RpcConfig → Answer Btc) → Str → Type 0
IsAsked r connect hex =
    (config : RpcConfig) × (input : CreateInput) × (btc : Btc) × (r ≡ ok (proceed config input))
    × (connect config ≡ answer btc)
    × IsSigned btc input hex

behind-AtMostOne :
    (lib : Libtxref) (fpu : Fpu) (signed : Bool) (connect : RpcConfig → Answer Btc)
    (parsed : Parsed CreateInput) (w : Log) (r : Outcome (Parsed CreateInput))
    → r ≡ ok parsed
    → AtMostOne (IsAsked r connect) w (behind (run lib fpu signed connect) parsed w).1
behind-AtMostOne lib fpu signed connect (stop status) w r e = inl refl
behind-AtMostOne lib fpu signed connect (proceed config input) w r e =
    AtMostOne-map (λ hex. (btc : Btc) × (connect config ≡ answer btc) × IsSigned btc input hex)
      (IsAsked r connect) w (run lib fpu signed connect config input w).1
      (λ hex (btc, connected, is_signed). (config, input, btc, e, connected, is_signed))
      (run-AtMostOne lib fpu signed connect config input w)

module _ {Options : Type 0} (any : AnyOption Options) where
  create_rest-IsDry :
      (stod : Str → Answer Double) (opt : Options)
      → (any.get_flag opt (bytes "dryrun") || any.get_flag_char opt b'n') ≡ true
      → (c : RpcConfig) (i : ℤ) → Lets IsDry (create_rest any stod opt c i)
  unfolding convert_double
  create_rest-IsDry stod opt given c i w config a e = ground arith

  -- The options that are read from the files and the arguments.
  abbrev pub IsRead : Option Str → List Str → Options → Type 0
  IsRead home args opt =
      (v : Log) × ((read_options any home args (first_pass any args) v).0 ≡ ok opt)

  parse_create-IsDry :
      (stod : Str → Answer Double) (home : Option Str) (args : List Str)
      → ((opt : Options)
          → IsRead home args opt
          → (any.get_flag opt (bytes "dryrun") || any.get_flag_char opt b'n') ≡ true)
      → Lets IsDry (parse_create any stod home args)
  unfolding parse_create
  parse_create-IsDry stod home args given =
      with_options-Lets IsDry any home args _
        (λ opt. read_config any opt (λ c. with_txo_index any opt (create_rest any stod opt c)))
        λ opt v read.
          read_config-Lets IsDry any opt (λ c. with_txo_index any opt (create_rest any stod opt c))
            λ c.
              with_txo_index-Lets IsDry any opt (create_rest any stod opt c)
                λ i _. create_rest-IsDry stod opt (given opt (v, read)) c i

  -- Where the options that are read have one of the two spellings of the flag for a dry run, `main`
  -- submits nothing, however it ends.
  pub main_dry :
      (lib : Libtxref) (fpu : Fpu) (signed : Bool) (connect : RpcConfig → Answer Btc)
      (home : Option Str) (args : List Str) (w : Log)
      → ((opt : Options)
          → IsRead home args opt
          → (any.get_flag opt (bytes "dryrun") || any.get_flag_char opt b'n') ≡ true)
      → submissions (main lib fpu signed any connect home args w).1 ≡ submissions w
  unfolding main
  main_dry lib fpu signed connect home args w given =
      >>=-Submitless_of (parse_create any fpu.stod home args) (behind (run lib fpu signed connect))
        w (parse_create-Submitless any fpu.stod home args w)
        λ parsed made. behind_dry lib fpu signed connect parsed λ config input e.
          parse_create-IsDry fpu.stod home args given w config input (made ∙ ap ok e)

  -- A run of createBtcrDid, whatever its command line is, submits nothing or one transaction,
  -- however it ends; that one is not empty, and is what the node at the configuration that was read
  -- returned for a signature with the private key that was read.
  pub main-AtMostOne :
      (lib : Libtxref) (fpu : Fpu) (signed : Bool) (connect : RpcConfig → Answer Btc)
      (home : Option Str) (args : List Str) (w : Log)
      → AtMostOne
          (IsAsked (parse_create any fpu.stod home args w).0 connect)
          w
          (main lib fpu signed any connect home args w).1
  unfolding main
  main-AtMostOne lib fpu signed connect home args w =
      let P = IsAsked (parse_create any fpu.stod home args w).0 connect in
      >>=-AtMostOne P (parse_create any fpu.stod home args) (behind (run lib fpu signed connect))
        (parse_create-Submitless any fpu.stod home args) w
        λ parsed w' made. behind-AtMostOne lib fpu signed connect parsed w' _ made
