-- ===== src/Lib.antt =====
-- The BTCR DID method tools: four programs that turn Bitcoin transactions into txrefs and DIDs and
-- back.
--
-- txid2txref converts a txid to a txref or a txref to a txid; createBtcrDid makes, signs and
-- submits the transaction that creates a DID; didResolver finds the latest transaction of a DID;
-- didVerifier is a skeleton. They share a facade of bitcoind, the domain types, the queries to
-- chain.so and the encoding of OP_RETURN data.
--
-- The parts and their files:
-- - T2t: src/t2tSupport.cpp, encodeTxid and decodeTxref, which fill in the t2t::Transaction of
--   src/txid2txref.h. T2t/RoundTrip goes from a txid to its txref and back, T2t/Inverse from a
--   txref to its txid and back; T2t/Branches is about all ends of an encoding, T2t/Networks about a
--   txref at a node of another network, T2t/Constructed about decodeTxref of the text of a Txref.
-- - Domain: src/domain, one module per class, a record of the class's members and one function per
--   constructor and comparison. A module's `make` is the constructor (Txref.parse is the one from a
--   string). Domain/Txid/Details is about where a Txid stands, Constructed about the texts that
--   make one, Quiet about what constructing one prints, Equality about operator==, Search about the
--   loop over a block; Domain/Txref/RoundTrip is about a Txref's text, VoutBound about the index
--   behind the last output, Domain/Did/Branches about the texts that make a Did.
-- - ChainSo: src/chainSoQuery.cpp, with the addresses in ChainSo/Urls, the retries in
--   ChainSo/Retries, the chain of updates as an abstract ledger in ChainSo/Ledger, and the walk to
--   its tip in Tip and Chain. Queries is about which questions share an address, Unspent about
--   getUnspentOutputs, Reordered about the order of the outputs in a reply. Curl:
--   src/curlWrapper.cpp. Json: what is used of nlohmann::json.
-- - Facade: src/bitcoinRPCFacade.cpp, the constructor in Facade/Connection, the genesis transaction
--   in Facade/Genesis, and what signrawtransactionwithkey sends in Facade/Request. Its clients take
--   it as the record `Btc` of Rpc, which Facade.facade fills.
-- - OpReturn: src/encodeOpReturnData.cpp. Satoshis: src/satoshis.h. Satoshis/Ieee states what IEEE
--   754 says of double, RoundTrip is about btc2satoshi and satoshi2btc, Text about btc_to_string.
-- - CommandLine: parseCommandLineArgs of the four programs, over AnyOption in CommandLine/Options;
--   CommandLine/Numbers is std::stoi, CommandLine/Ints the range of what it returns,
--   CommandLine/Bounds the index that is let through, CommandLine/RoundTrip numbers in decimal
--   digits, CommandLine/Given what is read from options that are given.
-- - Programs: main of src/txid2txref.cpp, src/createBtcrDid.cpp, src/didResolver.cpp and
--   src/didVerifier.cpp, one module each, composed of the parts above; Programs/Statuses is about
--   the statuses and the exceptions they end with (Queries, Steps and Runs behind the command
--   lines, CommandLines of their parsers, Mains of both), Composition about didResolver behind
--   txid2txref, Elsewhere about both at nodes of different networks, CreateBtcrDid/DryRun and
--   Submission about what is submitted, Outputs about the outputs and the index, Payment about the
--   amounts, Layout about their order, Submits about a whole run, Encoded about one for a txref,
--   Given about the way from the command line to the run, Parsing and Arguments about what is
--   submitted behind any command line, Success about what a run that returns has done;
--   DidResolver/Latest is about the tip of a DID's chain, Whole about a whole run;
--   Txid2txref/DidText is about the DID that is printed, Printed about what else is.
-- - Libtxref and Rpc: the types and interfaces of the libraries that are called.
-- - Base: byte strings, int and size_t conversions, messages, the effects of a program, and in
--   Base/Steps how a program goes on behind a known part. Tests: concrete instances of the
--   parameters, among them a fixed-point machine for double (Tests/Fixed) and JSON values as trees
--   (Tests/Trees).
--
-- A program is a function on the log of what it printed, slept, fetched and submitted; it returns,
-- throws, exits with a status, is aborted by an assertion, or runs out of the model's fuel. Texts
-- are lists of bytes, an int is an integer, and the conversions between int and size_t wrap around.
-- Messages are values with the data that they print, and not their wording.
--
-- Fuel: retrieveJsonData and getLastUpdatedTxid call themselves without a bound in the source, so
-- the model bounds the attempts of a query (the patience) and the transactions that are followed.
-- More fuel than unusable replies, and more than hops to the tip, is enough, since each attempt and
-- each transaction uses one unit.
--
-- Parameters: libtxref (a git submodule), bitcoin-api-cpp, jsoncpp, libcurl, AnyOption and
-- nlohmann::json are not part of this code. Of libtxref the documented round trip of its encoding
-- is a hypothesis, that its prefixes of the three networks differ, and at one txref that its text
-- without the prefix decodes alike, or that the encoder has a text for the position; of bitcoind
-- that a block it names for a transaction is in the active chain, holds fewer than 2 ^ 31
-- transactions, and none of them twice; of chain.so that it answers for one ledger. The answers of
-- bitcoind are those of one state of the chain. Of jsoncpp what it documents of append and of
-- operator[] is a hypothesis (IsJson of Rpc/BitcoinApi). The arithmetic of double and its printing
-- are a parameter; the laws of IEEE 754 binary64 with rounding to nearest are a hypothesis
-- (Satoshis/Ieee). Amounts are bounded by 2 ^ 50 satoshis, which is above 11 million bitcoins:
-- below the bound the rounding of the amount and the two of btc2satoshi add up to less than half a
-- satoshi.
--
-- Not modelled: reading a double from a text (atof, std::stod), a parameter without laws; overflow
-- of int64_t in the change and of the retry counter; the vendored copies of libraries, the tests
-- and the build files.
pub mod Base
pub mod Libtxref
pub mod Rpc
pub mod Domain
pub mod T2t
pub mod Json
pub mod Satoshis
pub mod Curl
pub mod ChainSo
pub mod Facade
pub mod OpReturn
pub mod CommandLine
pub mod Programs
pub mod Tests
