-- ===== src/Programs/Statuses/Mains.antt =====
-- The statuses of `main` of the programs, and the exceptions that leave it.
use btcr_did_method.Base.{ℕ, ◌≡◌, Bool, true, Option, Str, ℤ, List}
use btcr_did_method.Base.Answer.{Answer}
use btcr_did_method.Base.Run.{Log, Run, exit, ◌>>=◌}
use btcr_did_method.Libtxref.{Libtxref}
use btcr_did_method.Rpc.{RpcConfig, Btc}
use btcr_did_method.Curl.{Curl}
use btcr_did_method.Json.{JsonOps}
use btcr_did_method.Satoshis.{Fpu}
use btcr_did_method.CommandLine.{
  AnyOption, Parsed, stop, proceed, parse_query, parse_create, parse_resolver, parse_verifier,
}
use btcr_did_method.Programs.Txid2txref
use btcr_did_method.Programs.CreateBtcrDid
use btcr_did_method.Programs.DidResolver
use btcr_did_method.Programs.DidVerifier
use btcr_did_method.Programs.Statuses.{is_foreign, is_status, ends, Ends, >>=-Ends}
use btcr_did_method.Programs.Statuses.Runs.{
  txid2txref-Ends, create-run-Ends, resolver-Ends, verifier-Ends,
}
use btcr_did_method.Programs.Statuses.CommandLines.{
  is_parsed, parse_query-Ends, parse_create-Ends, parse_resolver-Ends, parse_verifier-Ends,
}

-- `main`, behind a parser.
abbrev behind : {A : Type 0} → (RpcConfig → A → Run ℤ) → Parsed A → Run ℤ
behind run (stop n) = exit n
behind run (proceed config a) = run config a

behind-Ends :
    {A : Type 0} (run : RpcConfig → A → Run ℤ) (parsed : Parsed A)
    → ((config : RpcConfig) (a : A) → Ends is_foreign is_status (run config a))
    → is_parsed parsed ≡ true
    → Ends is_foreign is_status (behind run parsed)
unfolding ends is_parsed
behind-Ends run (stop n) h e = record { ended = λ w. e }
behind-Ends run (proceed config a) h e = h config a

main-Ends :
    {A : Type 0} (parse : Run (Parsed A)) (run : RpcConfig → A → Run ℤ)
    → Ends is_foreign is_parsed parse
    → ((config : RpcConfig) (a : A) → Ends is_foreign is_status (run config a))
    → Ends is_foreign is_status (parse >>= behind run)
main-Ends parse run h h' =
    >>=-Ends is_foreign is_parsed is_status parse (behind run) h
      (λ parsed e. behind-Ends run parsed h' e)

-- Where the `main` of one of the four programs returns, or the program exits, on whatever command line
-- and with whatever node and replies, the status is 0 or -1; and an exception that leaves it is
-- neither a `BitcoinException` nor a `std::runtime_error`.
pub mains-Ends :
    {Options Json : Type 0} (any : AnyOption Options) (ops : JsonOps Json) (curl : Curl)
    (patience fuel : ℕ) (lib : Libtxref) (fpu : Fpu) (signed : Bool)
    (connect : RpcConfig → Answer Btc) (home : Option Str) (args : List Str) (w : Log)
    → (ends is_foreign is_status (Txid2txref.main lib any connect home args w).0 ≡ true)
      × (ends is_foreign is_status (CreateBtcrDid.main lib fpu signed any connect home args w).0
          ≡ true)
      × (ends is_foreign is_status
            (DidResolver.main ops curl patience fuel lib any connect home args w).0
          ≡ true)
      × (ends is_foreign is_status (DidVerifier.main lib any connect home args w).0 ≡ true)
unfolding Txid2txref.main CreateBtcrDid.main DidResolver.main DidVerifier.main
mains-Ends any ops curl patience fuel lib fpu signed connect home args w =
    let query = Txid2txref.run lib connect in
    let create = CreateBtcrDid.run lib fpu signed connect in
    let resolve = DidResolver.run ops curl patience fuel lib connect in
    let verify = DidVerifier.run lib connect in
    let queried =
      main-Ends (parse_query any home args) query (parse_query-Ends any home args)
        (λ config input. txid2txref-Ends lib connect config input) in
    let created =
      main-Ends (parse_create any fpu.stod home args) create
        (parse_create-Ends any fpu.stod home args)
        (λ config input. create-run-Ends lib connect config fpu signed input) in
    let resolved =
      main-Ends (parse_resolver any home args) resolve (parse_resolver-Ends any home args)
        (λ config input. resolver-Ends lib connect config ops curl patience fuel input.0 input.1) in
    let verified =
      main-Ends (parse_verifier any home args) verify (parse_verifier-Ends any home args)
        (λ config input. verifier-Ends lib connect config input) in
    (queried.ended w, created.ended w, resolved.ended w, verified.ended w)
