-- ===== src/Facade.antt =====
-- `BitcoinRPCFacade` of src/bitcoinRPCFacade.h and src/bitcoinRPCFacade.cpp, over the classes of
-- bitcoin-api-cpp and jsoncpp.
pub mod Connection
pub mod Genesis
pub mod Request
use btcr_did_method.Base.{
  ◌≡◌, Bool, true, false, not, Str, bytes, str_eq, is_empty, ℤ, pos, eqb_ℤ, List, [], ◌∷◌,
  if◌then◌else◌, Message,
}
use btcr_did_method.Base.Answer.{Answer, answer, raise, ◌>>=◌}
use btcr_did_method.Base.Run.{Exception, bitcoin, runtime, foreign}
use btcr_did_method.Rpc.{RawTransaction, BlockchainInfo, SignRawTxIn, AddressInfo, RpcConfig, Btc}
use btcr_did_method.Rpc.BitcoinApi.{JsonCpp, BitcoinApi}

abbrev pub mainnet_port : ℤ
mainnet_port = pos 8332

abbrev pub testnet_port : ℤ
testnet_port = pos 18332

abbrev pub block_0_hash : Str
block_0_hash = bytes "000000000019d6689c085ae165831e934ff763ae46a2a6c172b3f1b60a8ce26f"

unfoldable pub block_0_tx_0_hex : Str
block_0_tx_0_hex =
    bytes
      "01000000010000000000000000000000000000000000000000000000000000000000000000ffffffff4d04ffff001d0104455468652054696d65732030332f4a616e2f32303039204368616e63656c6c6f72206f6e206272696e6b206f66207365636f6e64206261696c6f757420666f722062616e6b73ffffffff0100f2052a01000000434104678afdb0fe5548271967f1a67130b7105cd6a828e03909a67962e0ea1f61deb649f6bc3f4cef38c4f35504e51ec112de5c384df7ba0b8d578a4c702b6bf11d5fac00000000"

abbrev pub genesis_txid : Str
genesis_txid = bytes "4a5e1e4baab89f3a32518a88c31bc87f618f76673e2cc77ab2127b7afdeda33b"

-- The transaction that stands in for the one of the genesis block.
abbrev pub genesis_transaction : RawTransaction
genesis_transaction = record { hex = block_0_tx_0_hex; blockhash = block_0_hash; vout_size = 1 }

module _ {Value : Type 0} where
  -- `isConnectionGood`: only a `BitcoinException` is caught.
  unfoldable pub is_connection_good : BitcoinApi Value → Answer Bool
  is_connection_good api = elim api.getblockcount [
    | answer n ↦ answer true
    | raise e ↦ elim e [
      | bitcoin code message ↦ answer false
      | runtime m ↦ raise (runtime m)
      | foreign n ↦ raise (foreign n)
    ]
  ]

  -- The constructor: the connection that it keeps. `connect` is the constructor of `BitcoinAPI`, over
  -- the user, the password, the host and the port.
  unfoldable pub make :
      (Str → Str → Str → ℤ → BitcoinApi Value) → RpcConfig → Answer (BitcoinApi Value)
  unfolding is_connection_good
  make connect config =
      let at_port = connect config.rpcuser config.rpcpassword config.rpcconnect in
      elim (eqb_ℤ config.rpcport (pos 0)) [
        | false ↦ do
          good ← is_connection_good (at_port config.rpcport)
          if good
              then answer (at_port config.rpcport)
              else raise (runtime (Message.cannot_connect config.rpcconnect config.rpcport))
        | true ↦ do
          good ← is_connection_good (at_port mainnet_port)
          elim good [
            | true ↦ answer (at_port mainnet_port)
            | false ↦ do
              good_test ← is_connection_good (at_port testnet_port)
              if good_test
                  then answer (at_port testnet_port)
                  else raise (runtime (Message.cannot_connect_either config.rpcconnect))
          ]
      ]

  module _ (json : JsonCpp Value) (api : BitcoinApi Value) where
    open json use {
      null, array, of_text, of_unsigned, append, set, as_string, as_int, as_double, as_bool,
    }

    unfoldable pub string_at : Value → Str → Answer Str
    string_at v key = do as_string (← json.get v key)

    unfoldable pub int_at : Value → Str → Answer ℤ
    int_at v key = do as_int (← json.get v key)

    unfoldable pub bool_at : Value → Str → Answer Bool
    bool_at v key = do as_bool (← json.get v key)

    unfoldable pub getblockchaininfo : Answer BlockchainInfo
    unfolding string_at int_at bool_at
    getblockchaininfo = do
      result ← api.sendcommand (bytes "getblockchaininfo") null
      chain ← string_at result (bytes "chain")
      blocks ← int_at result (bytes "blocks")
      headers ← int_at result (bytes "headers")
      bestblockhash ← string_at result (bytes "bestblockhash")
      difficulty_value ← json.get result (bytes "difficulty")
      difficulty ← as_double difficulty_value
      mediantime ← int_at result (bytes "mediantime")
      progress_value ← json.get result (bytes "verificationprogress")
      verificationprogress ← as_double progress_value
      chainwork ← string_at result (bytes "chainwork")
      pruned ← bool_at result (bytes "pruned")
      pruneheight ← int_at result (bytes "pruneheight")
      answer (record {
        chain = chain;
        blocks = blocks;
        headers = headers;
        bestblockhash = bestblockhash;
        difficulty = difficulty;
        mediantime = mediantime;
        verificationprogress = verificationprogress;
        chainwork = chainwork;
        pruned = pruned;
        pruneheight = pruneheight;
      })

    unfoldable pub getrawtransaction : Str → ℤ → Answer RawTransaction
    getrawtransaction txid verbose = elim (str_eq txid genesis_txid) [
      | false ↦ api.getrawtransaction txid verbose
      | true ↦ do
        info ← getblockchaininfo
        elim (str_eq info.chain (bytes "main")) [
          | false ↦ api.getrawtransaction txid verbose
          | true ↦ answer genesis_transaction
        ]
    ]

    unfoldable pub sendrawtransaction : Str → Answer Str
    sendrawtransaction hex_string = do
      result ← api.sendcommand (bytes "sendrawtransaction") (append null (of_text hex_string))
      as_string result

    -- The loop over the private keys.
    unfoldable pub append_texts : Value → List Str → Value
    append_texts v [] = v
    append_texts v (s ∷ ss) = append_texts (append v (of_text s)) ss

    -- `if(!text.empty()) val[key] = text;`
    unfoldable pub set_unless_empty : Value → Str → Str → Value
    set_unless_empty v key text = if is_empty text then v else set v key (of_text text)

    -- The object for one input.
    unfoldable pub input_value : SignRawTxIn → Value
    unfolding set_unless_empty
    input_value input =
        let v1 = set null (bytes "txid") (of_text input.txid) in
        let v2 = set v1 (bytes "vout") (of_unsigned input.n) in
        let v3 = set v2 (bytes "scriptPubKey") (of_text input.script_pub_key) in
        let v4 = set_unless_empty v3 (bytes "redeemScript") input.redeem_script in
        let v5 = set_unless_empty v4 (bytes "witnessScript") input.witness_script in
        set v5 (bytes "amount") (of_text input.amount)

    -- The loop over the inputs.
    unfoldable pub append_inputs : Value → List SignRawTxIn → Value
    unfolding input_value
    append_inputs v [] = v
    append_inputs v (input ∷ inputs) = append_inputs (append v (input_value input)) inputs

    unfoldable pub signrawtransactionwithkey : Str → List SignRawTxIn → List Str → Str → Answer Str
    unfolding append_texts append_inputs bool_at string_at
    signrawtransactionwithkey raw_tx inputs privkeys sighashtype = do
      let p1 = append null (of_text raw_tx)
      let p2 = append p1 (append_texts array privkeys)
      let p3 = append p2 (append_inputs array inputs)
      let params = append p3 (of_text sighashtype)
      result ← api.sendcommand (bytes "signrawtransactionwithkey") params
      complete ← bool_at result (bytes "complete")
      elim complete [ true ↦ string_at result (bytes "hex") | false ↦ answer (bytes "") ]

    unfoldable pub getaddressinfo : Str → Answer AddressInfo
    unfolding string_at int_at bool_at
    getaddressinfo address = do
      result ← api.sendcommand (bytes "getaddressinfo") (append null (of_text address))
      address' ← string_at result (bytes "address")
      script_pub_key ← string_at result (bytes "scriptPubKey")
      ismine ← bool_at result (bytes "ismine")
      iswatchonly ← bool_at result (bytes "iswatchonly")
      solvable ← bool_at result (bytes "solvable")
      desc ← string_at result (bytes "desc")
      isscript ← bool_at result (bytes "isscript")
      ischange ← bool_at result (bytes "ischange")
      iswitness ← bool_at result (bytes "iswitness")
      witness_version ← int_at result (bytes "witness_version")
      witness_program ← string_at result (bytes "witness_program")
      script ← string_at result (bytes "script")
      hex ← string_at result (bytes "hex")
      sigsrequired ← int_at result (bytes "sigsrequired")
      pubkey ← string_at result (bytes "pubkey")
      iscompressed ← bool_at result (bytes "iscompressed")
      label ← string_at result (bytes "label")
      timestamp ← int_at result (bytes "timestamp")
      hdkeypath ← string_at result (bytes "hdkeypath")
      hdseedid ← string_at result (bytes "hdseedid")
      hdmasterfingerprint ← string_at result (bytes "hdmasterfingerprint")
      answer (record {
        address = address';
        script_pub_key = script_pub_key;
        ismine = ismine;
        iswatchonly = iswatchonly;
        solvable = solvable;
        desc = desc;
        isscript = isscript;
        ischange = ischange;
        iswitness = iswitness;
        witness_version = witness_version;
        witness_program = witness_program;
        script = script;
        hex = hex;
        sigsrequired = sigsrequired;
        pubkey = pubkey;
        iscompressed = iscompressed;
        label = label;
        timestamp = timestamp;
        hdkeypath = hdkeypath;
        hdseedid = hdseedid;
        hdmasterfingerprint = hdmasterfingerprint;
      })

    -- The facade, with the calls that it forwards.
    abbrev pub facade : Btc
    facade = record {
      getrawtransaction = getrawtransaction;
      getblock = api.getblock;
      getblockhash = api.getblockhash;
      gettxout = api.gettxout;
      createrawtransaction = api.createrawtransaction;
      getblockchaininfo = getblockchaininfo;
      signrawtransactionwithkey = signrawtransactionwithkey;
      getaddressinfo = getaddressinfo;
      sendrawtransaction = sendrawtransaction;
    }
