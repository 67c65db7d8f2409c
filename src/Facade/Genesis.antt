-- ===== src/Facade/Genesis.antt =====
-- The transaction of the genesis block, for which the facade (src/bitcoinRPCFacade.cpp) answers
-- itself, as `Txid` (src/domain/txid.cpp) sees it.
use mathlib.Core.Path.{ap₂}
use btcr_did_method.Base.{
  ◌≡◌, refl, ◌∙◌, Str, bytes, str_eq, str_eq_refl, lowercase, find_first_not_of, is_one_of,
  is_empty, length, ap, ℤ, pos, true, false, [], ◌∷◌, arith,
}
use btcr_did_method.Base.Answer.{answer}
use btcr_did_method.Base.Run.{ok, Log}
use btcr_did_method.Rpc.{BlockInfo, BlockchainInfo}
use btcr_did_method.Rpc.BitcoinApi.{JsonCpp, BitcoinApi}
use btcr_did_method.Facade.{
  facade, getblockchaininfo, getrawtransaction, genesis_txid, genesis_transaction, block_0_hash,
  block_0_tx_0_hex,
}
use btcr_did_method.Domain.Txid
use btcr_did_method.Domain.Txid.Details.{make_of_answers}
use btcr_did_method.Domain.Txid.{
  exists_in_network, extract_transaction_details, is_input_string_valid, find_transaction,
}

genesis_valid : is_input_string_valid genesis_txid ≡ true
unfolding is_input_string_valid find_first_not_of is_one_of
genesis_valid = refl

genesis_hex : is_empty block_0_tx_0_hex ≡ false
unfolding block_0_tx_0_hex
genesis_hex = refl

not_testnet : str_eq (bytes "main") (bytes "test") ≡ false
unfolding str_eq
not_testnet = refl

find_genesis : find_transaction (genesis_txid ∷ []) genesis_txid ≡ 0
unfolding find_transaction
find_genesis = rw (str_eq_refl genesis_txid)

module _ {Value : Type 0} (json : JsonCpp Value) (api : BitcoinApi Value) where
  genesis_on_mainnet :
      (c : BlockchainInfo) (verbose : ℤ)
      → getblockchaininfo json api ≡ answer c
      → c.chain ≡ bytes "main"
      → getrawtransaction json api genesis_txid verbose ≡ answer genesis_transaction
  unfolding getrawtransaction
  genesis_on_mainnet c verbose ec em =
      ground (arith, str_eq_refl genesis_txid, str_eq_refl (bytes "main"))

  -- On mainnet the genesis transaction, which bitcoind does not return, is found at height 0 and
  -- index 0, in whatever case its text is written, if the node has the genesis block.
  pub make-genesis :
      (c : BlockchainInfo) (block : BlockInfo) (s : Str) (w : Log)
      → getblockchaininfo json api ≡ answer c
      → c.chain ≡ bytes "main"
      → api.getblock block_0_hash ≡ answer block
      → block.height ≡ pos 0
      → block.tx ≡ genesis_txid ∷ []
      → lowercase s ≡ genesis_txid
      → Txid.make (facade json api) s w ≡ (
        ok (record {
          block_height = record { height = pos 0 };
          transaction_index = record { index = pos 0 };
          testnet = false;
          txid_str = genesis_txid;
        }),
        w,
      )
  make-genesis c block s w ec em eb eh et es =
      let index : find_transaction block.tx (lowercase s) ≡ 0 =
        ap₂ find_transaction et es ∙ find_genesis in
      make_of_answers (facade json api) s genesis_transaction genesis_transaction block c w
        (ap is_input_string_valid es ∙ genesis_valid)
        (ap (λ t. getrawtransaction json api t (pos 0)) es ∙ genesis_on_mainnet c (pos 0) ec em)
        genesis_hex
        (ap (λ t. getrawtransaction json api t (pos 1)) es ∙ genesis_on_mainnet c (pos 1) ec em) eb
        ec (rw eh (omega arith)) (λ e. ground (arith, index, ap length et)) (omega (arith, index))
      ∙ ground (arith, index, ap (λ t. str_eq t (bytes "test")) em, not_testnet)
