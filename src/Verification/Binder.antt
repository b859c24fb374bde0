-- ===== src/Verification/Binder.antt =====
-- verification/binder.go: the DocumentKeyBinder. bindMethod (binder_algorithm.go) and the base64 decoder
-- of the Go library are parameters.
use trust.Prelude.{
  List, [], ◌∷◌, ◌++◌, Bool, not, ◌||◌, Option, none, some, if◌then◌else◌, length, ◌==◌, Outcome,
  ok, err, Bytes, codes, bytes_eq,
}
use trust.Signature.Registry.{PublicKey}
use trust.Verification.Hex.{hex_decode}
use trust.Verification.Base58.{decode_base58_btc}

-- `PublicKeyJWK` is a map; here only its entries are counted.
pub record Method : Type 0 where
  pub id : Bytes
  pub public_key_jwk : List (Bytes × Bytes)
  pub public_key_multibase : Bytes

pub record DidDocument : Type 0 where
  pub id : Bytes
  pub verification_method : List Method

pub data BindError : Type 0 where
  nil_document key_not_found method_failed : BindError

unfoldable method_matches : Method → Bytes → Bytes → Bool
method_matches m doc_id key_id =
    bytes_eq m.id key_id || bytes_eq m.id (doc_id ++ codes "#" ++ key_id)

unfoldable has_key_material : Method → Bool
has_key_material m = not (length m.public_key_multibase == 0) || not (length m.public_key_jwk == 0)

module _ (bind_method : Method → Option PublicKey) where
  -- The key of the method that was found.
  unfoldable bind_found : Method → Outcome BindError PublicKey
  bind_found m = elim (bind_method m) [ none ↦ err method_failed | some key ↦ ok key ]

  -- The loop of Bind.
  unfoldable bind_methods : List Method → Bytes → Bytes → Outcome BindError PublicKey
  unfolding bind_found method_matches has_key_material
  bind_methods [] doc_id key_id = err key_not_found
  bind_methods (m ∷ methods) doc_id key_id =
      let rest = bind_methods methods doc_id key_id in
      if not (method_matches m doc_id key_id) || not (has_key_material m)
      then rest
      else bind_found m

  unfoldable pub bind : Bytes → Option DidDocument → Outcome BindError PublicKey
  unfolding bind_methods
  bind key_id none = err nil_document
  bind key_id (some doc) = bind_methods doc.verification_method doc.id key_id

-- `none` where it returns an error; `decode_base64` is RawURLEncoding.DecodeString.
module _ (decode_base64 : Bytes → Option Bytes) where
  unfoldable pub decode_multibase : Bytes → Option Bytes
  decode_multibase [] = none
  decode_multibase (c ∷ []) = none
  decode_multibase (c ∷ d ∷ s) =
      if c == 122
      then decode_base58_btc (d ∷ s)
      else if c == 117
      then decode_base64 (d ∷ s)
      else if (c == 102) || (c == 70)
      then hex_decode (d ∷ s)
      else none
