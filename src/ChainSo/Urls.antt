-- ===== src/ChainSo/Urls.antt =====
-- The addresses of the chain.so queries (src/chainSoQuery.cpp).
use btcr_did_method.Base.{Str, bytes, str_eq, ◌++◌, if◌then◌else◌, ℤ, to_string}

abbrev slash : Str
slash = bytes "/"

abbrev chain_so_url : Str
chain_so_url = bytes "https://sochain.com/api/v2"

-- `network == "main" ? MAINNET_CODE : TESTNET_CODE`
unfoldable pub network_code : Str → Str
network_code network = if str_eq network (bytes "main") then bytes "BTC" else bytes "BTCTEST"

unfoldable pub get_tx_unspent_url : Str → Str → Str
unfolding network_code
get_tx_unspent_url network address =
    chain_so_url
    ++ slash
    ++ bytes "get_tx_unspent"
    ++ slash
    ++ network_code network
    ++ slash
    ++ address

unfoldable pub is_tx_spent_url : Str → Str → ℤ → Str
unfolding network_code to_string
is_tx_spent_url network txid txo_index =
    chain_so_url
    ++ slash
    ++ bytes "is_tx_spent"
    ++ slash
    ++ network_code network
    ++ slash
    ++ txid
    ++ slash
    ++ to_string txo_index

unfoldable pub get_tx_url : Str → Str → Str
unfolding network_code
get_tx_url network txid =
    chain_so_url ++ slash ++ bytes "get_tx" ++ slash ++ network_code network ++ slash ++ txid
