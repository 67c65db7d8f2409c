-- ===== src/Tests/Facade.antt =====
-- The theorems about the facade (src/bitcoinRPCFacade.cpp), at a testnet node and at a mainnet node.
use btcr_did_method.Base.{
  ◌≡◌, refl, false, if◌then◌else◌, Str, bytes, to_lower, ℤ, pos, eqb_ℤ, [], ◌∷◌,
}
use btcr_did_method.Base.Answer.{answer, raise}
use btcr_did_method.Base.Run.{ok, bitcoin, out_of_range}
use btcr_did_method.Rpc.{RpcConfig, BlockInfo}
use btcr_did_method.Rpc.BitcoinApi.{JsonCpp, BitcoinApi}
use btcr_did_method.Facade.{
  facade, make, is_connection_good, getblockchaininfo, mainnet_port, testnet_port, genesis_txid,
  block_0_hash, string_at, int_at, bool_at,
}
use btcr_did_method.Facade.Connection.{first_answering, no_connection, ports, make-first_answering}
use btcr_did_method.Facade.Genesis.{make-genesis}
use btcr_did_method.Domain.Txid
use btcr_did_method.Tests.Node.{main_chain}

abbrev genesis_block : BlockInfo
genesis_block = record { height = pos 0; confirmations = pos 100; tx = genesis_txid ∷ [] }

-- A node that answers at one port, and has only the genesis block.
abbrev api_at : ℤ → BitcoinApi Str
api_at port = record {
  getblockcount =
      if eqb_ℤ port testnet_port then answer (pos 0) else raise (bitcoin (pos 1) (bytes "refused"));
  getrawtransaction = λ txid verbose. raise out_of_range;
  getblock = λ hash. answer genesis_block;
  getblockhash = λ height. answer block_0_hash;
  gettxout = λ txid n. raise out_of_range;
  createrawtransaction = λ inputs amounts. raise out_of_range;
  sendcommand = λ command value. answer (bytes "main");
}

abbrev connect : Str → Str → Str → ℤ → BitcoinApi Str
connect user password host port = api_at port

abbrev config : RpcConfig
config = record {
  rpcuser = bytes "user";
  rpcpassword = bytes "password";
  rpcconnect = bytes "127.0.0.1";
  rpcport = pos 0;
}

connected : make connect config ≡ answer (api_at testnet_port)
unfolding make is_connection_good
connected = refl

make-first_answering_example :
    make connect config
    ≡ first_answering
        (connect (bytes "user") (bytes "password") (bytes "127.0.0.1"))
        (no_connection config)
        (ports config)
make-first_answering_example = make-first_answering connect config

-- Every value is the text "main".
abbrev json : JsonCpp Str
json = record {
  null = bytes "";
  array = bytes "";
  of_text = λ s. s;
  of_unsigned = λ n. bytes "";
  append = λ v e. v;
  set = λ v key e. v;
  get = λ v key. answer v;
  as_string = λ v. answer v;
  as_int = λ v. answer (pos 0);
  as_double = λ v. answer 0;
  as_bool = λ v. answer false;
}

info_answered :
    getblockchaininfo json (api_at mainnet_port)
    ≡ answer (record main_chain {
      blocks = pos 0;
      headers = pos 0;
      bestblockhash = bytes "main";
      chainwork = bytes "main";
    })
unfolding getblockchaininfo string_at int_at bool_at
info_answered = refl

make-genesis_example : Txid.make (facade json (api_at mainnet_port)) genesis_txid [] ≡ (
  ok (record {
    block_height = record { height = pos 0 };
    transaction_index = record { index = pos 0 };
    testnet = false;
    txid_str = genesis_txid;
  }),
  [],
)
unfolding to_lower
make-genesis_example =
    make-genesis json (api_at mainnet_port) _ genesis_block genesis_txid [] info_answered refl refl
      refl refl refl
