-- ===== src/Programs/Statuses/Steps.antt =====
-- The parts of the programs behind their command lines: they return, or exit with -1.
use btcr_did_method.Base.{
  ℕ, refl, Bool, inl, inr, none, some, Option, Str, bytes, ℤ, pos, if◌then◌else◌, Message,
  lowercase, arith,
}
use btcr_did_method.Base.Answer.{Answer-cases}
use btcr_did_method.Base.Run.{pure, ◌>>=◌}
use btcr_did_method.Libtxref.{Libtxref}
use btcr_did_method.Rpc.{Btc}
use btcr_did_method.Curl.{Curl}
use btcr_did_method.Json.{JsonOps}
use btcr_did_method.Satoshis.{Fpu}
use btcr_did_method.T2t.{Transaction, encode_txid, decode_txref}
use btcr_did_method.Domain.BlockHeight
use btcr_did_method.Domain.TransactionIndex
use btcr_did_method.Domain.Vout
use btcr_did_method.Domain.Vout.{Vout}
use btcr_did_method.Domain.Txid
use btcr_did_method.Domain.Txid.{Txid, exists_in_network, extract_transaction_details}
use btcr_did_method.Domain.Txref
use btcr_did_method.Domain.Txref.{Txref, at_or_exit}
use btcr_did_method.Domain.Did
use btcr_did_method.Domain.Did.{Did}
use btcr_did_method.Domain.Did.Branches.{make-branches}
use btcr_did_method.CommandLine.{QueryInput, CreateInput}
use btcr_did_method.Programs.Txid2txref.{convert}
use btcr_did_method.Programs.CreateBtcrDid
use btcr_did_method.Programs.CreateBtcrDid.{
  Unspent, get_transaction, find_input, find_unspent, only_address, make_signed, finish, create,
}
use btcr_did_method.Programs.CreateBtcrDid.DryRun.{only_address-cases}
use btcr_did_method.Programs.DidResolver.{find_tip, resolve}
use btcr_did_method.Programs.Statuses.{is_status, ends, any_exception, any_value, Ends, steps}
use btcr_did_method.Programs.Statuses.Queries.{get_last_updated_txid-Ends}

module _ (lib : Libtxref) (btc : Btc) where
  encode_txid-Ends :
      (txid : Str) (i : ℤ) → Ends any_exception any_value (encode_txid lib btc txid i)
  unfolding encode_txid ends is_status
  encode_txid-Ends txid i = record { ended = λ w. ground arith }

  decode_txref-Ends : (txref : Str) → Ends any_exception any_value (decode_txref lib btc txref)
  unfolding decode_txref ends is_status
  decode_txref-Ends txref = record { ended = λ w. ground arith }

  extract_transaction_details-Ends :
      (txid : Str) → Ends any_exception any_value (extract_transaction_details btc txid)
  unfolding extract_transaction_details BlockHeight.make TransactionIndex.make ends is_status
  extract_transaction_details-Ends txid = record { ended = λ w. ground arith }

  Txid-make-Ends : (txid : Str) → Ends any_exception any_value (Txid.make btc txid)
  unfolding Txid.make exists_in_network ends
  Txid-make-Ends txid = record {
    ended = λ w. ground (arith, (extract_transaction_details-Ends (lowercase txid)).ended w);
  }

  pub convert-Ends : (input : QueryInput) → Ends any_exception any_value (convert lib btc input)
  unfolding convert ends is_status
  convert-Ends input = record {
    ended = λ w. ground (
      arith,
      (encode_txid-Ends input.query input.txo_index).ended w,
      (encode_txid-Ends input.query (pos 0)).ended w,
      (decode_txref-Ends input.query).ended w,
    );
  }

  find_input-Ends : (input : CreateInput) → Ends any_exception any_value (find_input lib btc input)
  unfolding find_input get_transaction ends is_status
  find_input-Ends input = record {
    ended = λ w. ground (arith, (decode_txref-Ends input.query).ended w);
  }

  module _ (fpu : Fpu) (signed : Bool) where
    find_unspent-Ends :
        (t : Transaction) → Ends any_exception any_value (find_unspent lib btc fpu signed t)
    unfolding find_unspent only_address ends is_status
    find_unspent-Ends t = record {
      ended = λ w. elim (Answer-cases (btc.gettxout t.txid t.txo_index)) [
        | inr (x, e) ↦ ground arith
        | inl (info, e) ↦ elim (only_address-cases lib btc fpu signed info.addresses) [
          | inl (a, one) ↦ ground arith
          | inr none_or_more ↦ ground (arith, none_or_more w)
        ]
      ];
    }

    make_signed-Ends :
        (input : CreateInput) (u : Unspent)
        → Ends any_exception any_value (make_signed lib btc fpu signed input u)
    unfolding make_signed ends is_status
    make_signed-Ends input u = record { ended = λ w. ground arith }

    finish-Ends :
        (input : CreateInput) (hex : Str)
        → Ends any_exception is_status (finish lib btc fpu signed input hex)
    unfolding finish CreateBtcrDid.print_as_json ends is_status
    finish-Ends input hex = record { ended = λ w. ground arith }

    pub create-Ends :
        (input : CreateInput) → Ends any_exception is_status (create lib btc fpu signed input)
    unfolding create
    create-Ends input =
        search (steps, find_input-Ends, find_unspent-Ends, make_signed-Ends, finish-Ends) depth 12

  at_or_exit-Ends :
      (found : Option Str) (m : Message) → Ends any_exception any_value (at_or_exit found m)
  unfolding ends is_status
  at_or_exit-Ends none m = record { ended = λ w. refl }
  at_or_exit-Ends (some txid) m = record { ended = λ w. refl }

  Vout-make-Ends : (i : ℤ) → Ends any_exception any_value (Vout.make i)
  unfolding Vout.make ends
  Vout-make-Ends i = record { ended = λ w. ground arith }

  Txref-parse-Ends : (text : Str) → Ends any_exception any_value (Txref.parse lib btc text)
  unfolding Txref.parse
  Txref-parse-Ends text = search (steps, at_or_exit-Ends, Txid-make-Ends, Vout-make-Ends) depth 16

  Did-make-Ends : (text : Str) → Ends any_exception any_value (Did.make lib btc text)
  unfolding ends
  Did-make-Ends text = record {
    ended = λ w. elim (make-branches lib btc text w) [
      | inl (other, e) ↦ rw e refl
      | inr (rest, same, inl (unknown, e)) ↦ rw e refl
      | inr (rest, same, inr (known, e)) ↦
          let made : Ends any_exception any_value
              (Txref.parse lib btc rest >>= λ txref. pure {A = Did} (record { txref = txref })) =
            search (steps, Txref-parse-Ends) in
          rw e (made.ended w)
    ];
  }

  module _ {Json : Type 0} (ops : JsonOps Json) (curl : Curl) (patience fuel : ℕ) where
    -- didResolver's search for the tip, and its body.
    find_tip-Ends :
        (txref : Txref)
        → Ends any_exception any_value (find_tip ops curl patience fuel lib btc txref)
    unfolding find_tip ends
    find_tip-Ends txref = record {
      ended = λ w. ground (
        arith,
        (get_last_updated_txid-Ends curl ops patience fuel txref.txid.txid_str txref.vout.index
              (if txref.txid.testnet then bytes "test" else bytes "main")).ended
            w,
      );
    }

    pub resolve-Ends :
        (input : Str) → Ends any_exception any_value (resolve ops curl patience fuel lib btc input)
    unfolding resolve
    resolve-Ends input = search (steps, Did-make-Ends, find_tip-Ends) depth 12
