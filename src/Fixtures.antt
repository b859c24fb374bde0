-- ===== src/Fixtures.antt =====
-- Concrete parameters for the tests: a checksum of 32 bytes in place of SHA-256, encoders that write a
-- few fields, and a signature scheme that prefixes the message by the key.
use trust.Prelude.{
  ℕ, zero, suc, ◌+◌, ◌*◌, ◌%◌, ◌≡◌, refl, subst, ap, [], ◌∷◌, ◌++◌, true, Outcome, ok, none, some,
  ok-injective, length, Bytes, codes, bytes_eq, bytes_eq_refl, pos,
}
use trust.Merkle.Hash.{Hasher, Digest}
use trust.Canonical.{Encoders}
use trust.Authority.Model.{Capability, Scope, Authority, status_active}
use trust.Claim.{Claim}
use trust.Evidence.{Evidence}
use trust.Attestation.Model.{Attestation}
use trust.Signature.Registry.{Schemes, PublicKey, PrivateKey, ed25519}
use trust.Verification.Hex.{hex_encode}

abbrev pub checksum : ℕ → Bytes → ℕ
checksum acc [] = acc
checksum acc (b ∷ bs) = checksum ((acc * 31 + b + 7) % 251) bs

abbrev pub zeros : ℕ → Bytes
zeros zero = []
zeros (suc n) = 0 ∷ zeros n

abbrev pub digest_of : Bytes → Digest
digest_of bs = checksum 1 bs ∷ zeros 31

abbrev length-digest_of : (bs : Bytes) → length (digest_of bs) ≡ 32
length-digest_of bs = refl

instance abbrev pub toy : Hasher
toy = record { sum = digest_of; length-sum = length-digest_of }

abbrev pub encoders : Encoders
encoders = record {
  authority_bytes = λ auth. some (auth.subject ++ auth.proof.key_id ++ auth.proof.signature);
  claim_bytes = λ c. some (c.issuer ++ c.subject);
  evidence_bytes = λ ev. some ev.identifier;
  attestation_bytes = λ a. some (a.issuer ++ a.signing_key_id ++ a.signature);
}

abbrev pub accepts : Bytes → Bytes → Outcome (Unit {0}) Bytes
accepts secret message = ok (secret ++ message)

abbrev prefix-verifies :
    (secret message sig : Bytes)
    → accepts secret message ≡ ok sig
    → bytes_eq sig (secret ++ message) ≡ true
prefix-verifies secret message sig e =
    subst (λ s. bytes_eq s (secret ++ message) ≡ true) (ok-injective e)
      (bytes_eq_refl (secret ++ message))

abbrev pub schemes : Schemes
schemes = record {
  public = λ t secret. secret;
  raw_sign = λ t secret coins message. accepts secret message;
  raw_verify = λ t key sig message. some (bytes_eq sig (key ++ message));
  signed-verifies = λ t secret coins message sig e. ap some (prefix-verifies secret message sig e);
}

abbrev pub private_key : Bytes → PrivateKey
private_key secret = record { key_type = ed25519; secret = secret }

abbrev pub public_key : Bytes → PublicKey
public_key secret = record { key_type = ed25519; material = secret }

abbrev pub read : Capability
read = record { namespace = codes "doc"; name = codes "read" }

abbrev resources_two : Scope
resources_two = record {
  resources = codes "doc/1" ∷ codes "doc/2" ∷ [];
  subjects = [];
  actions = codes "get" ∷ [];
  organizations = [];
  geography = [];
  channels = [];
  time_window = none;
  quantity = some (record { unit = codes "pages"; limit = pos 5 });
  monetary = none;
}

-- Unsigned authorities: a root for alice, and one under it for bob.
abbrev pub alice : Authority
alice = record {
  subject = codes "alice";
  parent = none;
  capabilities = read ∷ [];
  scope = resources_two;
  validity = record { not_before = 10; not_after = 30 };
  delegation_constraints = record { max_depth = some (pos 1) };
  status = status_active;
  proof = record { algorithm = pos 1; key_id = codes "k1"; signature = [] };
}

abbrev alice_digest : Digest
alice_digest = digest_of (codes "alicek1")

abbrev pub signed_alice : Authority
signed_alice = record alice {
  proof = record { algorithm = pos 1; key_id = codes "k1"; signature = codes "sa" ++ alice_digest };
}

abbrev bob : Authority
bob = record alice {
  subject = codes "bob";
  parent = some (hex_encode alice_digest);
  scope = record resources_two { resources = codes "doc/2" ∷ [] };
  validity = record { not_before = 12; not_after = 25 };
  delegation_constraints = record { max_depth = some (pos 0) };
}

abbrev bob_digest : Digest
bob_digest = digest_of (codes "bobk1")

abbrev pub signed_bob : Authority
signed_bob = record bob {
  proof = record { algorithm = pos 1; key_id = codes "k1"; signature = codes "sb" ++ bob_digest };
}

abbrev pub seen : Claim
seen = record {
  issuer = codes "bob";
  subject = codes "carol";
  claim_type = record { namespace = codes "doc"; name = codes "seen" };
  value = some (codes "true");
  scope = record resources_two { resources = codes "doc/2" ∷ [] };
  validity = record { not_before = 13; not_after = 19 };
  provenance = record { source = []; method = []; timestamp = 0 };
}

abbrev pub photo : Evidence
photo = record {
  identifier = codes "photo";
  content_hash = some (digest_of (codes "pixels"));
  media_type = codes "image/png";
  locator = codes "https://example.org";
  provenance = record { source = []; method = []; timestamp = 0 };
  metadata = [];
}

abbrev pub unsigned_statement : Attestation
unsigned_statement = record {
  issuer = codes "bob";
  signing_key_id = codes "k1";
  signing_key_version = 1;
  authority_ref = hex_encode bob_digest;
  capability = read;
  claim = seen;
  evidence = photo ∷ [];
  issued_at = 13;
  validity = record { not_before = 13; not_after = 19 };
  status = status_active;
  algorithm = pos 1;
  signature = [];
}

abbrev pub statement : Attestation
statement = record unsigned_statement { signature = codes "sb" ++ digest_of (codes "bobk1") }
