-- ===== src/Domain/Did.antt =====
-- `Did` of src/domain/did.h and src/domain/did.cpp.
pub mod Branches
use btcr_did_method.Base.{
  ℕ, Bool, true, false, zero, suc, Option, none, some, Str, bytes, find, lowercase, length, drop,
  Message,
}
use btcr_did_method.Base.Run.{Run, runtime, pure, require, ◌>>=◌, ◌>>◌}
use btcr_did_method.Libtxref.{Libtxref, InputParam}
use btcr_did_method.Rpc.{Btc}
use btcr_did_method.Domain.Txref
use btcr_did_method.Domain.Txref.{Txref}

pub record Did : Type 0 where
  pub txref : Txref

abbrev pub scheme_and_method : Str
scheme_and_method = bytes "did:btcr:"

abbrev pub is_zero : Option ℕ → Bool
is_zero none = false
is_zero (some zero) = true
is_zero (some (suc i)) = false

-- `validateDidString`
unfoldable pub validate_did_string : Str → Run (Unit {0})
validate_did_string did =
    require (is_zero (find did scheme_and_method)) (runtime Message.not_a_btcr_did)

-- Is the input a txref, short or extended?
abbrev pub is_txref : InputParam → Bool
is_txref InputParam.txref = true
is_txref InputParam.txrefext = true
is_txref _ = false

module _ (lib : Libtxref) (btc : Btc) where
  -- The constructor.
  unfoldable pub make : Str → Run Did
  unfolding validate_did_string Txref.parse
  make did = do
    let lower = lowercase did
    validate_did_string lower
    let local_did = drop (length scheme_and_method) lower
    require (is_txref (lib.classify_input_string local_did)) (runtime Message.no_valid_txref)
    txref ← Txref.parse lib btc local_did
    pure (record { txref = txref })
