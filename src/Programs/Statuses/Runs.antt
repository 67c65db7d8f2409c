-- ===== src/Programs/Statuses/Runs.antt =====
-- The statuses of the programs behind their command lines.
use btcr_did_method.Base.{ℕ, refl, Bool, true, false, Str, pos, if◌then◌else◌, arith}
use btcr_did_method.Base.Answer.{Answer}
use btcr_did_method.Base.Run.{Exception, exit, pure}
use btcr_did_method.Libtxref.{Libtxref}
use btcr_did_method.Rpc.{RpcConfig, Btc}
use btcr_did_method.Curl.{Curl}
use btcr_did_method.Json.{JsonOps}
use btcr_did_method.Satoshis.{Fpu}
use btcr_did_method.T2t.{Transaction}
use btcr_did_method.CommandLine.{QueryInput, CreateInput}
use btcr_did_method.Programs.Txid2txref
use btcr_did_method.Programs.Txid2txref.{convert, txref2did}
use btcr_did_method.Programs.CreateBtcrDid
use btcr_did_method.Programs.CreateBtcrDid.{
  Unspent, get_transaction, find_input, find_unspent, only_address, make_signed, finish, create,
}
use btcr_did_method.Programs.DidResolver
use btcr_did_method.Programs.DidResolver.{find_tip, resolve}
use btcr_did_method.Programs.DidVerifier
use btcr_did_method.Programs.Statuses.{
  any_exception, is_foreign, is_status, ends, any_value, Ends, try_catch-Ends, steps,
}
use btcr_did_method.Programs.Statuses.Steps.{convert-Ends, create-Ends, resolve-Ends}

txref2did-Ends : (txref : Str) → Ends any_exception any_value (txref2did txref)
unfolding txref2did ends
txref2did-Ends txref = record { ended = λ w. ground arith }

print_as_json-Ends : (t : Transaction) → Ends any_exception any_value (Txid2txref.print_as_json t)
unfolding Txid2txref.print_as_json ends
print_as_json-Ends t = record { ended = λ w. ground (arith, (txref2did-Ends t.txref).ended w) }

txid2txref-handle-Ends :
    (query : Str) (e : Exception) → Ends is_foreign is_status (Txid2txref.handle query e)
unfolding Txid2txref.handle ends is_status is_foreign
txid2txref-handle-Ends query e = record { ended = λ w. ground arith }

create-handle-Ends : (e : Exception) → Ends is_foreign is_status (CreateBtcrDid.handle e)
unfolding CreateBtcrDid.handle ends is_status is_foreign
create-handle-Ends e = record { ended = λ w. ground arith }

resolver-handle-Ends : (e : Exception) → Ends is_foreign is_status (DidResolver.handle e)
unfolding DidResolver.handle ends is_status is_foreign
resolver-handle-Ends e = record { ended = λ w. ground arith }

verifier-handle-Ends : (e : Exception) → Ends is_foreign is_status (DidVerifier.handle e)
unfolding DidVerifier.handle ends is_status is_foreign
verifier-handle-Ends e = record { ended = λ w. ground arith }

flag-Ends :
    (flag : Bool) → Ends any_exception is_status (if flag then exit (pos 0) else pure (pos 0))
unfolding ends is_status is_foreign
flag-Ends true = record { ended = λ w. refl }
flag-Ends false = record { ended = λ w. refl }

zero-Ends : Ends any_exception is_status (pure (pos 0))
unfolding ends is_status is_foreign
zero-Ends = record { ended = λ w. refl }

module _ (lib : Libtxref) (connect : RpcConfig → Answer Btc) (config : RpcConfig) where
  pub txid2txref-Ends :
      (input : QueryInput) → Ends is_foreign is_status (Txid2txref.run lib connect config input)
  unfolding Txid2txref.run
  txid2txref-Ends input =
      search
        (steps, try_catch-Ends, convert-Ends, print_as_json-Ends, zero-Ends, txid2txref-handle-Ends)
        depth 12

  pub create-run-Ends :
      (fpu : Fpu) (signed : Bool) (input : CreateInput)
      → Ends is_foreign is_status (CreateBtcrDid.run lib fpu signed connect config input)
  unfolding CreateBtcrDid.run
  create-run-Ends fpu signed input =
      search (steps, try_catch-Ends, create-Ends, create-handle-Ends) depth 12

  pub resolver-Ends :
      {Json : Type 0} (ops : JsonOps Json) (curl : Curl) (patience fuel : ℕ) (input : Str)
      (flag : Bool)
      → Ends is_foreign is_status
          (DidResolver.run ops curl patience fuel lib connect config (input, flag))
  unfolding DidResolver.run
  resolver-Ends ops curl patience fuel input flag =
      search (steps, try_catch-Ends, resolve-Ends, flag-Ends, resolver-handle-Ends) depth 12

  pub verifier-Ends :
      (input : Str) → Ends is_foreign is_status (DidVerifier.run lib connect config input)
  unfolding DidVerifier.run
  verifier-Ends input = search (steps, try_catch-Ends, zero-Ends, verifier-handle-Ends) depth 12
