-- ===== src/Tests/Amounts.antt =====
-- The theorems about amounts (src/satoshis.h, src/createBtcrDid.cpp), on the fixed-point machine.
use btcr_did_method.Base.{inl, ◌≡◌, ◌-ℤ◌, refl, true, false, some, bytes, pos, [], ◌∷◌, arith}
use btcr_did_method.Base.Answer.{answer}
use btcr_did_method.Base.{Message}
use btcr_did_method.Base.Run.{ok, stdout, submit}
use btcr_did_method.Libtxref.{Libtxref, InputParam}
use btcr_did_method.Programs.CreateBtcrDid.Submits.{submitted, run-submits}
use btcr_did_method.Rpc.{Btc, Double, UtxoInfo}
use btcr_did_method.CommandLine.{CreateInput}
use btcr_did_method.Satoshis.{btc2satoshi, satoshi2btc, btc_to_string}
use btcr_did_method.Satoshis.RoundTrip.{IsAmount, satoshi2btc-IsAmount, btc2satoshi-IsAmount}
use btcr_did_method.Satoshis.Text.{amount_text, btc_to_string-satoshi2btc}
use btcr_did_method.Programs.CreateBtcrDid.{
  Unspent, find_unspent, change_of, amounts, only_address, extract_redeem_script,
  extract_witness_script, run,
}
use btcr_did_method.Programs.CreateBtcrDid.Layout.{less}
use btcr_did_method.OpReturn.{encode_op_return_data}
use btcr_did_method.Programs.CreateBtcrDid.Payment.{lookup, amounts-change}
use btcr_did_method.Tests.Node.{lib, payment, main_chain}
use btcr_did_method.Tests.Fixed.{fixed_point, fixed_point-IsIeee}
use btcr_did_method.Tests.Programs.{signing_node, paid_output, address, decoded, input, config}

-- 0.002 bitcoins, and a fee of 0.00001.
abbrev pub worth : Double
worth = satoshi2btc fixed_point (pos 200000)

abbrev pub fee : Double
fee = satoshi2btc fixed_point (pos 1000)

pub worth-IsAmount : IsAmount fixed_point fixed_point-IsIeee worth (pos 200000)
worth-IsAmount = satoshi2btc-IsAmount fixed_point fixed_point-IsIeee (pos 200000) (omega arith)

pub fee-IsAmount : IsAmount fixed_point fixed_point-IsIeee fee (pos 1000)
fee-IsAmount = satoshi2btc-IsAmount fixed_point fixed_point-IsIeee (pos 1000) (omega arith)

btc2satoshi-IsAmount_example : btc2satoshi fixed_point worth ≡ pos 200000
btc2satoshi-IsAmount_example =
    btc2satoshi-IsAmount fixed_point fixed_point-IsIeee worth (pos 200000) (omega arith)
      worth-IsAmount

btc_to_string-satoshi2btc_example : btc_to_string fixed_point worth ≡ amount_text (pos 200000)
btc_to_string-satoshi2btc_example =
    btc_to_string-satoshi2btc fixed_point fixed_point-IsIeee (pos 200000) (omega arith)

abbrev pub paid : UtxoInfo
paid = record paid_output { value = worth }

abbrev pub paying_node : Btc
paying_node = record signing_node { gettxout = λ txid n. answer paid }

abbrev unspent : Unspent
unspent = record {
  address = bytes "bc1q";
  txid = payment;
  script_pub_key_hex = bytes "0014";
  redeem_script = bytes "";
  witness_script = bytes "";
  amount_satoshis = btc2satoshi fixed_point worth;
  utxo_index = pos 1;
}

abbrev pub paying_input : CreateInput
paying_input = record input { fee = fee }

found : (find_unspent lib paying_node fixed_point true decoded []).0 ≡ ok unspent
unfolding find_unspent only_address extract_redeem_script extract_witness_script
found = refl

-- The change in bitcoins is 0.00199000.
amounts-change_example :
    let outputs =
      amounts
        (bytes "bc1q")
        (btc_to_string fixed_point (
          satoshi2btc fixed_point
            (change_of lib paying_node fixed_point true unspent paying_input)))
        (bytes "00") in
    (lookup (bytes "bc1q") outputs ≡ some (amount_text (pos 199000)))
    × (lookup (bytes "data") outputs ≡ some (bytes "00"))
unfolding ◌-ℤ◌
amounts-change_example =
    amounts-change lib paying_node fixed_point true fixed_point-IsIeee decoded paid unspent
      paying_input (bytes "00") (pos 200000) (pos 1000) [] refl found worth-IsAmount fee-IsAmount
      (omega arith) (omega arith) (omega arith) (λ e. ground (arith, e))

-- A query that is a txid, and a run that submits.
abbrev pub txid_lib : Libtxref
txid_lib = record lib { classify_input_string = λ text. InputParam.txid }

abbrev txid_input : CreateInput
txid_input = record paying_input { query = payment; txo_index = pos 1; dryrun = false }

run-submits_example :
    run txid_lib fixed_point true (λ c. answer paying_node) config txid_input [] ≡ (
      ok (pos 0),
      stdout (submitted payment)
          ∷ stdout (Message.plain_text (bytes "txid2txref"))
          ∷ submit (bytes "0201")
          ∷ stdout Message.signed_and_submitting
          ∷ [],
    )
unfolding ◌-ℤ◌
run-submits_example =
    run-submits txid_lib fixed_point true fixed_point-IsIeee (λ c. answer paying_node) config
      txid_input paying_node main_chain paid address (bytes "bc1q") (bytes "0200") (bytes "0201")
      payment
      ((bytes "bc1q", amount_text (pos 199000))
        ∷ (bytes "data", encode_op_return_data true (bytes "ref"))
        ∷ [])
      (pos 200000) (pos 1000) [] refl refl refl refl refl refl refl worth-IsAmount fee-IsAmount
      (omega arith) (omega arith) (omega arith)
      (inl (less b'b' b'd' (bytes "c1q") (bytes "ata") (omega arith), refl)) refl refl refl refl
      refl refl
