-- ===== src/Facade/Request.antt =====
-- The request of `BitcoinRPCFacade::signrawtransactionwithkey` (src/bitcoinRPCFacade.cpp) and its reply.
use mathlib.Core.Path.{subst}
use mathlib.Core.List.{append_assoc, append-nil}
use btcr_did_method.Base.{
  ◌≡◌, refl, ap, sym, ◌∙◌, true, false, ◌⊎◌, inl, inr, Option, none, some, Str, bytes, str_eq,
  is_empty, if◌then◌else◌, List, [], ◌∷◌, ◌++◌, arith,
}
use btcr_did_method.Base.Answer.{answer, Answer-cases}
use btcr_did_method.Rpc.{SignRawTxIn}
use btcr_did_method.Rpc.BitcoinApi.{JsonCpp, IsJson, BitcoinApi}
use btcr_did_method.Facade.{
  string_at, bool_at, append_texts, set_unless_empty, input_value, append_inputs,
  signrawtransactionwithkey,
}

module _ {Value : Type 0} (json : JsonCpp Value) where
  open json use {null, array, of_text, of_unsigned, append, set}

  -- The texts, each as a value.
  unfoldable pub texts : List Str → List Value
  texts [] = []
  texts (s ∷ ss) = of_text s ∷ texts ss

  -- The values of the inputs.
  unfoldable pub inputs_of : BitcoinApi Value → List SignRawTxIn → List Value
  inputs_of api [] = []
  inputs_of api (i ∷ is) = input_value json api i ∷ inputs_of api is

  -- A text that is not empty.
  abbrev pub optional : Str → Option Value
  optional s = if is_empty s then none else some (of_text s)

  -- The member of an input's object under a key, before the redeem script and the witness script
  -- are put in, and behind the redeem script.
  before_redeem : SignRawTxIn → Str → Option Value
  before_redeem i key =
      if str_eq (bytes "scriptPubKey") key
      then some (of_text i.script_pub_key)
      else if str_eq (bytes "vout") key
      then some (of_unsigned i.n)
      else if str_eq (bytes "txid") key
      then some (of_text i.txid)
      else none

  before_witness : SignRawTxIn → Str → Option Value
  before_witness i key =
      if is_empty i.redeem_script
      then before_redeem i key
      else if str_eq (bytes "redeemScript") key
      then some (of_text i.redeem_script)
      else before_redeem i key

  module _ (laws : IsJson json) (api : BitcoinApi Value) where
    open laws use {elements, member, takes_elements, takes_members}

    elements-append_texts :
        (v : Value) (ss : List Str)
        → takes_elements v ≡ true
        → elements (append_texts json api v ss) ≡ elements v ++ texts ss
    unfolding append_texts texts
    elements-append_texts v [] h = simp append-nil
    elements-append_texts v (s ∷ ss) h =
        elements-append_texts (append v (of_text s)) ss (laws.takes_elements-append v (of_text s) h)
        ∙ ap (λ l. l ++ texts ss) (laws.elements-append v (of_text s) h)
        ∙ simp append_assoc

    elements-append_inputs :
        (v : Value) (is : List SignRawTxIn)
        → takes_elements v ≡ true
        → elements (append_inputs json api v is) ≡ elements v ++ inputs_of api is
    unfolding append_inputs inputs_of
    elements-append_inputs v [] h = simp append-nil
    elements-append_inputs v (i ∷ is) h =
        elements-append_inputs (append v (input_value json api i)) is
          (laws.takes_elements-append v (input_value json api i) h)
        ∙ ap (λ l. l ++ inputs_of api is) (laws.elements-append v (input_value json api i) h)
        ∙ simp append_assoc

    takes_members-set_unless_empty :
        (v : Value) (key s : Str)
        → takes_members v ≡ true
        → takes_members (set_unless_empty json api v key s) ≡ true
    unfolding set_unless_empty
    takes_members-set_unless_empty v key s h =
        ground (arith, laws.takes_members-set v key (of_text s) h)

    member-set_unless_empty :
        (v : Value) (key s key' : Str)
        → takes_members v ≡ true
        → member (set_unless_empty json api v key s) key' ≡ (
            if is_empty s
            then member v key'
            else if str_eq key key'
            then some (of_text s)
            else member v key')
    unfolding set_unless_empty
    member-set_unless_empty v key s key' h =
        ground (arith, laws.member-set v key key' (of_text s) h)

    -- The members of the object for an input.
    member-input_value :
        (i : SignRawTxIn) (key : Str)
        → member (input_value json api i) key ≡ (
            if str_eq (bytes "amount") key
            then some (of_text i.amount)
            else if is_empty i.witness_script
            then before_witness i key
            else if str_eq (bytes "witnessScript") key
            then some (of_text i.witness_script)
            else before_witness i key)
    unfolding input_value before_witness before_redeem
    member-input_value i key =
        let v1 = set null (bytes "txid") (of_text i.txid) in
        let v2 = set v1 (bytes "vout") (of_unsigned i.n) in
        let v3 = set v2 (bytes "scriptPubKey") (of_text i.script_pub_key) in
        let v4 = set_unless_empty json api v3 (bytes "redeemScript") i.redeem_script in
        let v5 = set_unless_empty json api v4 (bytes "witnessScript") i.witness_script in
        let t1 =
          laws.takes_members-set null (bytes "txid") (of_text i.txid) laws.takes_members-null in
        let t2 = laws.takes_members-set v1 (bytes "vout") (of_unsigned i.n) t1 in
        let t3 = laws.takes_members-set v2 (bytes "scriptPubKey") (of_text i.script_pub_key) t2 in
        let t4 = takes_members-set_unless_empty v3 (bytes "redeemScript") i.redeem_script t3 in
        let t5 = takes_members-set_unless_empty v4 (bytes "witnessScript") i.witness_script t4 in
        rw
          (
            laws.member-set v5 (bytes "amount") key (of_text i.amount) t5,
            member-set_unless_empty v4 (bytes "witnessScript") i.witness_script key t4,
            member-set_unless_empty v3 (bytes "redeemScript") i.redeem_script key t3,
            laws.member-set v2 (bytes "scriptPubKey") key (of_text i.script_pub_key) t2,
            laws.member-set v1 (bytes "vout") key (of_unsigned i.n) t1,
            laws.member-set null (bytes "txid") key (of_text i.txid) laws.takes_members-null,
            laws.member-null key,
          )
          refl

    -- The object for an input says everything about it; an empty script is left out.
    abbrev pub Describes : SignRawTxIn → Value → Type 0
    Describes i v =
        (member v (bytes "txid") ≡ some (of_text i.txid))
        × (member v (bytes "vout") ≡ some (of_unsigned i.n))
        × (member v (bytes "scriptPubKey") ≡ some (of_text i.script_pub_key))
        × (member v (bytes "redeemScript") ≡ optional i.redeem_script)
        × (member v (bytes "witnessScript") ≡ optional i.witness_script)
        × (member v (bytes "amount") ≡ some (of_text i.amount))

    pub data DescribesEach : List SignRawTxIn → List Value → Type 0 where
      no_inputs : DescribesEach [] []
      one_more :
          {i : SignRawTxIn} {v : Value} {is : List SignRawTxIn} {vs : List Value}
          → Describes i v
          → DescribesEach is vs
          → DescribesEach (i ∷ is) (v ∷ vs)

    input_value-Describes : (i : SignRawTxIn) → Describes i (input_value json api i)
    unfolding before_witness before_redeem str_eq
    input_value-Describes i = (
      ground (arith, member-input_value i (bytes "txid")),
      ground (arith, member-input_value i (bytes "vout")),
      ground (arith, member-input_value i (bytes "scriptPubKey")),
      ground (arith, member-input_value i (bytes "redeemScript")),
      ground (arith, member-input_value i (bytes "witnessScript")),
      ground (arith, member-input_value i (bytes "amount")),
    )

    inputs_of-DescribesEach : (is : List SignRawTxIn) → DescribesEach is (inputs_of api is)
    unfolding inputs_of
    inputs_of-DescribesEach [] = no_inputs
    inputs_of-DescribesEach (i ∷ is) =
        one_more (input_value-Describes i) (inputs_of-DescribesEach is)

    elements_of_four :
        (a b c d : Value)
        → elements (append (append (append (append null a) b) c) d) ≡ a ∷ b ∷ c ∷ d ∷ []
    elements_of_four a b c d =
        let t1 = laws.takes_elements-append null a laws.takes_elements-null in
        let t2 = laws.takes_elements-append (append null a) b t1 in
        let t3 = laws.takes_elements-append (append (append null a) b) c t2 in
        rw
          (
            laws.elements-append (append (append (append null a) b) c) d t3,
            laws.elements-append (append (append null a) b) c t2,
            laws.elements-append (append null a) b t1,
            laws.elements-append null a laws.takes_elements-null,
            laws.elements-null,
          )
          refl

    -- A call of signrawtransactionwithkey that answers has sent one command: the transaction, the
    -- keys, the objects that describe the inputs, and the kind of the signature hash, in this order.
    -- The answer is the transaction of a reply that says it is complete, and else the empty text.
    pub signrawtransactionwithkey-sends :
        (raw : Str) (inputs : List SignRawTxIn) (keys : List Str) (hash_type hex : Str)
        → signrawtransactionwithkey json api raw inputs keys hash_type ≡ answer hex
        → (params : Value) × (result : Value) × (keys_json : Value) × (inputs_json : Value)
          × (api.sendcommand (bytes "signrawtransactionwithkey") params ≡ answer result)
          × (elements params ≡ of_text raw ∷ keys_json ∷ inputs_json ∷ of_text hash_type ∷ [])
          × (elements keys_json ≡ texts keys)
          × DescribesEach inputs (elements inputs_json)
          × (((bool_at json api result (bytes "complete") ≡ answer true)
                × (string_at json api result (bytes "hex") ≡ answer hex))
              ⊎ ((bool_at json api result (bytes "complete") ≡ answer false) × (hex ≡ bytes "")))
    unfolding signrawtransactionwithkey
    signrawtransactionwithkey-sends raw inputs keys hash_type hex h =
        let ks = append_texts json api array keys in
        let is = append_inputs json api array inputs in
        let params =
          append (append (append (append null (of_text raw)) ks) is) (of_text hash_type) in
        let keys_sent =
          elements-append_texts array keys laws.takes_elements-array
          ∙ ap (λ l. l ++ texts keys) laws.elements-array in
        let inputs_sent =
          elements-append_inputs array inputs laws.takes_elements-array
          ∙ ap (λ l. l ++ inputs_of api inputs) laws.elements-array in
        elim (Answer-cases (api.sendcommand (bytes "signrawtransactionwithkey") params)) [
          | inr (e, failed) ↦ absurd (ground arith)
          | inl (result, sent) ↦ (
            params,
            result,
            ks,
            is,
            sent,
            elements_of_four (of_text raw) ks is (of_text hash_type),
            keys_sent,
            subst (DescribesEach inputs) (sym inputs_sent) (inputs_of-DescribesEach inputs),
            elim (Answer-cases (bool_at json api result (bytes "complete"))) [
              | inr (e, failed) ↦ absurd (ground arith)
              | inl (true, complete) ↦ inl (complete, ground arith)
              | inl (false, complete) ↦ inr (complete, ground arith)
            ],
          )
        ]
