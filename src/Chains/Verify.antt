-- ===== src/Chains/Verify.antt =====
-- Signatures: src/aleph/chains/common.py, signature_verifier.py and the verifier of tezos.py.
use py_aleph.Prelude.{
  ℕ, ◌*◌, ◌≡◌, ◌≢◌, refl, Bool, true, false, Option, none, some, List, [], ◌∷◌, ◌++◌, ◌==◌,
  if◌then◌else◌, any, length, coalesce, arith,
}
use py_aleph.Status.{Error}
use py_aleph.Result.{Result, ok, raise}
use py_aleph.Node.{MessageType, Pending}

-- The bytes of the texts of a message, of a time and of a number.
pub record Texts : Type 0 where
  pub chain_text : ℕ → List ℕ
  pub text : ℕ → List ℕ
  pub type_text : MessageType → List ℕ
  pub iso_8601 : ℕ → List ℕ
  pub decimal : ℕ → List ℕ

abbrev pub newline : ℕ
newline = 10

-- `get_verification_buffer`.
unfoldable pub get_verification_buffer : Texts → Pending → List ℕ
get_verification_buffer t p =
    t.chain_text p.chain
    ++ (newline
        ∷ (t.text p.sender ++ (newline ∷ (t.type_text p.type ++ (newline ∷ t.text p.item_hash)))))

-- What a verifier comes to: an answer, or a `ValueError`.
pub data Verdict : Type 0 where
  accepted refused value_error : Verdict

-- `SignatureVerifier.verify_signature`, over the verifiers by their chains.
abbrev pub settle : Option Verdict → Result (Unit {0})
settle none = raise Error.invalid_message_format
settle (some accepted) = ok tt
settle (some refused) = raise Error.bad_signature
settle (some value_error) = raise Error.bad_signature

abbrev pub apply : Option (Pending → Verdict) → Pending → Option Verdict
apply none p = none
apply (some verifier) p = some (verifier p)

unfoldable pub verify_signature : (ℕ → Option (Pending → Verdict)) → Pending → Result (Unit {0})
verify_signature verifiers p = settle (apply (verifiers p.chain) p)

-- `TezosSignatureType`, where the text is one of its values.
pub data SignatureType : Type 0 where
  raw micheline : SignatureType

-- The signature of a Tezos message, as JSON: the keys that it has. An unknown signing type is none.
pub record SignatureDict : Type 0 where
  pub signature : Option ℕ
  pub public_key : Option ℕ
  pub signing_type : Option (Option SignatureType)
  pub dapp_url : Option (List ℕ)

-- JSON and the cryptography: `verify` checks a signature over a buffer by a key, if it is a key.
pub record TezosEnv : Type 0 where
  pub loads : ℕ → Option SignatureDict
  pub default_dapp_url : List ℕ
  pub is_key : ℕ → Bool
  pub public_key_hash : ℕ → ℕ
  pub verify : ℕ → ℕ → List ℕ → Bool

-- "Tezos Signed Message:".
abbrev pub signed_message_prefix : List ℕ
signed_message_prefix =
    84 ∷ 101 ∷ 122 ∷ 111 ∷ 115 ∷ 32 ∷ 83 ∷ 105 ∷ 103 ∷ 110 ∷ 101 ∷ 100 ∷ 32 ∷ 77 ∷ 101 ∷ 115 ∷ 115
    ∷ 97 ∷ 103 ∷ 101 ∷ 58 ∷ []

module _ (t : Texts) where
  -- `micheline_verification_buffer`; the payload has two hexadecimal digits for each byte.
  unfoldable pub micheline_verification_buffer : List ℕ → ℕ → List ℕ → List ℕ
  micheline_verification_buffer buffer time dapp_url =
      let payload =
        signed_message_prefix ++ (32 ∷ (dapp_url ++ (32 ∷ (t.iso_8601 time ++ (32 ∷ buffer))))) in
      5 ∷ 1 ∷ 0 ∷ (t.decimal (2 * length payload) ++ payload)

  unfoldable pub get_tezos_verification_buffer : Pending → SignatureType → List ℕ → List ℕ
  unfolding get_verification_buffer micheline_verification_buffer
  get_tezos_verification_buffer p raw dapp_url = get_verification_buffer t p
  get_tezos_verification_buffer p micheline dapp_url =
      micheline_verification_buffer (get_verification_buffer t p) p.time dapp_url

  module _ (env : TezosEnv) where
    -- `TezosVerifier.verify_signature`. That the sender is the hash of the key is only logged.
    unfoldable pub check_key : Pending → ℕ → ℕ → SignatureType → List ℕ → Verdict
    unfolding get_tezos_verification_buffer
    check_key p signature key type dapp_url =
        if env.is_key key
        then if env.verify key signature (get_tezos_verification_buffer p type dapp_url)
          then accepted
          else refused
        else value_error

    abbrev pub type_of : Option (Option SignatureType) → Option SignatureType
    type_of none = some raw
    type_of (some type) = type

    abbrev pub check_typed : Pending → ℕ → ℕ → Option SignatureType → List ℕ → Verdict
    check_typed p signature key none dapp_url = value_error
    check_typed p signature key (some type) dapp_url = check_key p signature key type dapp_url

    abbrev pub check_keys : Pending → SignatureDict → Option ℕ → Option ℕ → Verdict
    check_keys p d none key = refused
    check_keys p d (some signature) none = refused
    check_keys p d (some signature) (some key) =
        check_typed p signature key (type_of d.signing_type)
          (coalesce d.dapp_url env.default_dapp_url)

    abbrev pub check_dict : Pending → Option SignatureDict → Verdict
    check_dict p none = refused
    check_dict p (some d) = check_keys p d d.signature d.public_key

    abbrev pub check_text : Pending → Option ℕ → Verdict
    check_text p none = refused
    check_text p (some signature) = check_dict p (env.loads signature)

    unfoldable pub verify_tezos_signature : Pending → Verdict
    verify_tezos_signature p = check_text p p.signature

    -- A message of Tezos with a raw signature that a key has made over its buffer is accepted, whoever
    -- its sender is: that its sender is another one than the hash of the key makes no difference.
    pub verify_tezos_signature_any_sender :
        (p : Pending) (text signature key : ℕ) (d : SignatureDict)
        → p.signature ≡ some text
        → env.loads text ≡ some d
        → d.signature ≡ some signature
        → d.public_key ≡ some key
        → d.signing_type ≡ none
        → env.is_key key ≡ true
        → env.verify key signature (get_verification_buffer t p) ≡ true
        → p.sender ≢ env.public_key_hash key
        → verify_tezos_signature p ≡ accepted
    unfolding verify_tezos_signature check_key get_tezos_verification_buffer
    verify_tezos_signature_any_sender p text signature key d es el eg ek et ik iv other =
        rw es (rw el (rw (eg, ek) (rw et (rw ik (rw iv refl)))))

-- Two texts without a newline, each followed by one.
split :
    (xs ys r s : List ℕ)
    → any (λ b. b == newline) xs ≡ false
    → any (λ b. b == newline) ys ≡ false
    → xs ++ (newline ∷ r) ≡ ys ++ (newline ∷ s)
    → (xs ≡ ys) × (r ≡ s)
split [] [] r s nx ny e = (refl, cc (e))
split [] (y ∷ ys) r s nx ny e = let head : newline ≡ y = cc (e) in absurd (ground (arith, ny, head))
split (x ∷ xs) [] r s nx ny e = let head : x ≡ newline = cc (e) in absurd (ground (arith, nx, head))
split (x ∷ xs) (y ∷ ys) r s nx ny e =
    let head : x ≡ y = cc (e) in
    let tail : xs ++ (newline ∷ r) ≡ ys ++ (newline ∷ s) = cc (e) in
    let (same, rest) = split xs ys r s (ground (arith, nx)) (ground (arith, ny)) tail in
    (rw (head, same) refl, rest)

-- No text of a message has a newline, and no two values have the same text.
pub record IsFaithful (t : Texts) : Type 0 where
  pub chain_line : (c : ℕ) → any (λ b. b == newline) (t.chain_text c) ≡ false
  pub text_line : (a : ℕ) → any (λ b. b == newline) (t.text a) ≡ false
  pub type_line : (m : MessageType) → any (λ b. b == newline) (t.type_text m) ≡ false
  pub chain_inj : (c d : ℕ) → t.chain_text c ≡ t.chain_text d → c ≡ d
  pub text_inj : (a b : ℕ) → t.text a ≡ t.text b → a ≡ b
  pub type_inj : (m n : MessageType) → t.type_text m ≡ t.type_text n → m ≡ n

-- What is signed names the message: where no text has a newline, two messages with the same
-- verification buffer have the same chain, sender, type and item hash.
pub get_verification_buffer_inj :
    (t : Texts) (p q : Pending)
    → IsFaithful t
    → get_verification_buffer t p ≡ get_verification_buffer t q
    → (p.chain ≡ q.chain) × (p.sender ≡ q.sender) × (p.type ≡ q.type) × (p.item_hash ≡ q.item_hash)
unfolding get_verification_buffer
get_verification_buffer_inj t p q f e =
    let (c, r1) =
      split (t.chain_text p.chain) (t.chain_text q.chain) _ _ (f.chain_line p.chain)
        (f.chain_line q.chain) e in
    let (s, r2) =
      split (t.text p.sender) (t.text q.sender) _ _ (f.text_line p.sender) (f.text_line q.sender)
        r1 in
    let (m, r3) =
      split (t.type_text p.type) (t.type_text q.type) _ _ (f.type_line p.type) (f.type_line q.type)
        r2 in
    (
      f.chain_inj p.chain q.chain c,
      f.text_inj p.sender q.sender s,
      f.type_inj p.type q.type m,
      f.text_inj p.item_hash q.item_hash r3,
    )
