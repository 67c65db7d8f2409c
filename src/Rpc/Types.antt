-- ===== src/Rpc/Types.antt =====
-- The structures of src/bitcoinRPCFacade.h, and those of bitcoin-api-cpp (not in this repository)
-- with the fields that the program reads. A `double` is the number of its bits.
use btcr_did_method.Base.{ℕ, Bool, Str, ℤ, List}

-- The bit pattern of a `double`.
abbrev pub Double : Type 0
Double = ℕ

-- `getrawtransaction_t`; of `vout` only the size is read.
pub record RawTransaction : Type 0 where
  pub hex : Str
  pub blockhash : Str
  pub vout_size : ℕ

-- `blockinfo_t`
pub record BlockInfo : Type 0 where
  pub height : ℤ
  pub confirmations : ℤ
  pub tx : List Str

-- `utxoinfo_t`, with `scriptPubKey.addresses` and `scriptPubKey.hex`
pub record UtxoInfo : Type 0 where
  pub bestblock : Str
  pub confirmations : ℤ
  pub value : Double
  pub addresses : List Str
  pub script_pub_key_hex : Str

-- `txout_t`
pub record TxOut : Type 0 where
  pub txid : Str
  pub n : ℕ

-- `blockchaininfo_t`
pub record BlockchainInfo : Type 0 where
  pub chain : Str
  pub blocks : ℤ
  pub headers : ℤ
  pub bestblockhash : Str
  pub difficulty : Double
  pub mediantime : ℤ
  pub verificationprogress : Double
  pub chainwork : Str
  pub pruned : Bool
  pub pruneheight : ℤ

-- `signrawtxinext_t`
pub record SignRawTxIn : Type 0 where
  pub txid : Str
  pub n : ℕ
  pub script_pub_key : Str
  pub redeem_script : Str
  pub witness_script : Str
  pub amount : Str

-- `btcaddressinfo_t`, without the two vectors that the facade leaves empty
pub record AddressInfo : Type 0 where
  pub address : Str
  pub script_pub_key : Str
  pub ismine : Bool
  pub iswatchonly : Bool
  pub solvable : Bool
  pub desc : Str
  pub isscript : Bool
  pub ischange : Bool
  pub iswitness : Bool
  pub witness_version : ℤ
  pub witness_program : Str
  pub script : Str
  pub hex : Str
  pub sigsrequired : ℤ
  pub pubkey : Str
  pub iscompressed : Bool
  pub label : Str
  pub timestamp : ℤ
  pub hdkeypath : Str
  pub hdseedid : Str
  pub hdmasterfingerprint : Str

-- `RpcConfig`
pub record RpcConfig : Type 0 where
  pub rpcuser : Str
  pub rpcpassword : Str
  pub rpcconnect : Str
  pub rpcport : ℤ
