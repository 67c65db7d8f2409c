-- ===== src/Facade/Connection.antt =====
-- Which node the facade is connected to (the constructor in src/bitcoinRPCFacade.cpp).
use btcr_did_method.Base.{
  ◌≡◌, ◌≢◌, ◌⊎◌, inl, inr, Str, ℤ, pos, true, false, eqb_ℤ, Bool-cases, arith, List, [], ◌∷◌,
  if◌then◌else◌, Message,
}
use btcr_did_method.Base.Answer.{Answer, answer, raise, Answer-cases}
use btcr_did_method.Base.Run.{Exception, bitcoin, runtime, foreign}
use btcr_did_method.Rpc.{RpcConfig}
use btcr_did_method.Rpc.BitcoinApi.{BitcoinApi}
use btcr_did_method.Facade.{make, is_connection_good, mainnet_port, testnet_port}

is_connection_good-true :
    {Value : Type 0} (api : BitcoinApi Value)
    → is_connection_good api ≡ answer true
    → (n : ℤ) × (api.getblockcount ≡ answer n)
unfolding is_connection_good
is_connection_good-true api h = elim (Answer-cases api.getblockcount) [
  | inl (n, e) ↦ (n, e)
  | inr (bitcoin code message, e) ↦ absurd (ground arith)
  | inr (runtime m, e) ↦ absurd (ground arith)
  | inr (foreign n, e) ↦ absurd (ground arith)
]

-- What a test of a connection gives.
Tested : {Value : Type 0} → BitcoinApi Value → Type 0
Tested api =
    (is_connection_good api ≡ answer true)
    ⊎ (is_connection_good api ≡ answer false)
    ⊎ ((e : Exception) × (is_connection_good api ≡ raise e))

is_connection_good-Tested : {Value : Type 0} (api : BitcoinApi Value) → Tested api
unfolding Tested
is_connection_good-Tested api = elim (Answer-cases (is_connection_good api)) [
  | inl (true, e) ↦ inl e
  | inl (false, e) ↦ inr (inl e)
  | inr (x, e) ↦ inr (inr (x, e))
]

module _ {Value : Type 0} (connect : Str → Str → Str → ℤ → BitcoinApi Value)
    (config : RpcConfig) where
  abbrev at_port : ℤ → BitcoinApi Value
  at_port = connect config.rpcuser config.rpcpassword config.rpcconnect

  -- A facade that was constructed talks to a node that answered a block count, with the configured
  -- user, password and host: at the configured port if that is not 0; otherwise at 8332, or at 18332
  -- if 8332 gave a `BitcoinException`.
  pub make_connected :
      (api : BitcoinApi Value)
      → make connect config ≡ answer api
      → (port : ℤ) × (api ≡ at_port port)
        × ((n : ℤ) × (api.getblockcount ≡ answer n))
        × (((config.rpcport ≢ pos 0) × (port ≡ config.rpcport))
            ⊎ ((config.rpcport ≡ pos 0) × (port ≡ mainnet_port))
            ⊎ ((config.rpcport ≡ pos 0)
                × (port ≡ testnet_port)
                × (is_connection_good (at_port mainnet_port) ≡ answer false)))
  unfolding make Tested
  make_connected api h = elim (Bool-cases (eqb_ℤ config.rpcport (pos 0))) [
    | inr other ↦ elim (is_connection_good-Tested (at_port config.rpcport)) [
      | inl good ↦
          let same : api ≡ at_port config.rpcport = ground arith in
          (
            config.rpcport,
            same,
            rw same (is_connection_good-true (at_port config.rpcport) good),
            inl (ground arith),
          )
      | inr (inl bad) ↦ absurd (ground arith)
      | inr (inr (e, thrown)) ↦ absurd (ground arith)
    ]
    | inl zero_port ↦ elim (is_connection_good-Tested (at_port mainnet_port)) [
      | inl good ↦
          let same : api ≡ at_port mainnet_port = ground arith in
          (
            mainnet_port,
            same,
            rw same (is_connection_good-true (at_port mainnet_port) good),
            inr (inl (ground arith)),
          )
      | inr (inl bad) ↦ elim (is_connection_good-Tested (at_port testnet_port)) [
        | inl good ↦
            let same : api ≡ at_port testnet_port = ground arith in
            (
              testnet_port,
              same,
              rw same (is_connection_good-true (at_port testnet_port) good),
              inr (inr (ground arith)),
            )
        | inr (inl bad') ↦ absurd (ground arith)
        | inr (inr (e, thrown)) ↦ absurd (ground arith)
      ]
      | inr (inr (e, thrown)) ↦ absurd (ground arith)
    ]
  ]

-- The ports that are tried, in this order, and the complaint if none of them answers.
abbrev pub ports : RpcConfig → List ℤ
ports config =
    if eqb_ℤ config.rpcport (pos 0) then mainnet_port ∷ testnet_port ∷ [] else config.rpcport ∷ []

abbrev pub no_connection : RpcConfig → Message
no_connection config =
    if eqb_ℤ config.rpcport (pos 0)
    then Message.cannot_connect_either config.rpcconnect
    else Message.cannot_connect config.rpcconnect config.rpcport

-- The first port at which the node answers the question for its block count; a port at which it
-- gives a `BitcoinException` is passed over, any other exception is the end.
unfoldable pub first_answering :
    {Value : Type 0} → (ℤ → BitcoinApi Value) → Message → List ℤ → Answer (BitcoinApi Value)
first_answering at_port m [] = raise (runtime m)
first_answering at_port m (port ∷ ports) =
    let later = first_answering at_port m ports in
    elim (at_port port).getblockcount [
      | answer n ↦ answer (at_port port)
      | raise e ↦ elim e [
        | bitcoin code message ↦ later
        | runtime x ↦ raise (runtime x)
        | foreign n ↦ raise (foreign n)
      ]
    ]

-- The constructor of the facade keeps the connection at the first port that answers, of the
-- configured one if it is not 0, and else of 8332 and 18332; if none does, a `std::runtime_error`
-- names the host, and an exception other than a `BitcoinException` leaves it at once.
pub make-first_answering :
    {Value : Type 0} (connect : Str → Str → Str → ℤ → BitcoinApi Value) (config : RpcConfig)
    → make connect config
      ≡ first_answering
          (connect config.rpcuser config.rpcpassword config.rpcconnect)
          (no_connection config)
          (ports config)
unfolding make is_connection_good first_answering
make-first_answering connect config = ground arith
