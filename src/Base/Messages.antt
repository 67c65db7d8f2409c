-- ===== src/Base/Messages.antt =====
-- What the programs print. A constructor stands for a message of the source, with the values that
-- are put into it; the fixed words of a message are not modelled.
use Prim.Native.Nat.{ℕ}
use mathlib.Core.List.{List}
use btcr_did_method.Base.Int.{ℤ}
use btcr_did_method.Base.Bytes.{Str}

pub data Message : Type 0 where
  -- domain/
  height_negative index_negative input_not_valid txid_not_found : Message
  transaction_not_in_block : Str → Message
  vout_too_large not_a_btcr_did no_valid_txref : Message
  -- t2tSupport.cpp
  too_few_confirmations : ℤ → Message
  txo_index_too_large : ℤ → Str → Message
  wrong_network : Str → Str → Message
  no_txid_at_index : ℤ → Message
  -- bitcoinRPCFacade.cpp
  cannot_connect : Str → ℤ → Message
  cannot_connect_either : Str → Message
  -- chainSoQuery.cpp
  no_data_returned too_many_requests : ℕ → Message
  nothing_found_for_address nothing_found_for_txid too_few_outputs : Str → Message
  utxo_not_found : ℤ → Message
  -- the command lines
  config_not_readable invalid_integer rpcuser_missing rpcpassword_missing : Str → Message
  invalid_argument_at : ℕ → Message
  txo_index_negative : ℤ → Message
  arguments_missing curl_failed : Message
  -- the programs
  plain_text : Str → Message
  bitcoind_error : ℤ → Str → Message
  transaction_not_found invalid_query : Str → Message
  txo_index_ignored txo_index_not_needed txo_index_not_supported : ℤ → ℤ → Message
  address_not_supported : Message
  output_has_no_value : Str → ℤ → Message
  not_signed signed_only signed_and_submitting : Message
  what : Message → Message
  json : List (Str × Str) → Message
  valid_txref : Str → Str → ℤ → ℤ → ℤ → Message
  last_txid : Str → Message
