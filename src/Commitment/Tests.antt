-- ===== src/Commitment/Tests.antt =====
-- commitment/ on two objects.
use trust.Prelude.{
  ◌≡◌, ◌↔◌, ◌⊎◌, ◌<◌, ◌^◌, refl, List, [], ◌∷◌, some, Option, get_elem?, Outcome, ok, err, panic,
  pos, bytes_eq, bytes_lt, arith, length,
}
use trust.Fixtures.{toy, encoders, seen, photo}
use trust.Merkle.Hash.{Digest, Collision, leaf_hash, node_hash}
use trust.Merkle.Tree
use trust.Merkle.Verify
use trust.Canonical.{claim_hash, evidence_hash, canonical_hash}
use trust.Delegation.Power.{first, later}
use trust.Commitment.Object.{
  Error, TrustObject, claim_object, evidence_object, Commitment, object_hash, leaf_of,
  duplicate_object,
}
use trust.Commitment.Order.{swap, sort_leaves, reject_duplicates, insert}
use trust.Commitment.Build.{
  verify_commitment, build, inclusion_proof, verify_inclusion, InclusionProof, leaves_of, tree_of,
  root_of, to_uint64, prove_leaf, search,
}
use trust.Commitment.Valid.{IsValid, verify_commitment_iff}
use trust.Commitment.Builds.{verify_commitment-build, build-Permutes}
use trust.Commitment.Membership.{inclusion_proof-build, verify_inclusion_member}

abbrev objects : List (Option TrustObject)
objects = some (claim_object (some seen)) ∷ some (evidence_object (some photo)) ∷ []

abbrev reversed : List (Option TrustObject)
reversed = some (evidence_object (some photo)) ∷ some (claim_object (some seen)) ∷ []

abbrev empty_commitment : Commitment
empty_commitment = record { root = []; size = pos 0; leaf_hashes = []; algorithm = [] }

abbrev commitment_of : Outcome Error Commitment → Commitment
commitment_of (ok c) = c
commitment_of (err e) = empty_commitment
commitment_of panic = empty_commitment

abbrev both_objects : Commitment
both_objects = commitment_of (build encoders objects)

built : build encoders objects ≡ ok both_objects
unfolding build leaves_of leaf_of object_hash claim_hash evidence_hash canonical_hash sort_leaves
    insert reject_duplicates bytes_lt bytes_eq tree_of root_of Tree.new Tree.build_levels Tree.root
built = refl

twice : build encoders (some (claim_object (some seen)) ∷ objects) ≡ err duplicate_object
unfolding build leaves_of leaf_of object_hash claim_hash evidence_hash canonical_hash sort_leaves
    insert reject_duplicates bytes_lt bytes_eq tree_of root_of Tree.new Tree.build_levels Tree.root
twice = refl

verify_commitment-build_example : verify_commitment (some both_objects) ≡ ok tt
verify_commitment-build_example = verify_commitment-build encoders objects both_objects built

verify_commitment_iff_example :
    (verify_commitment (some both_objects) ≡ ok tt) ↔ IsValid both_objects
verify_commitment_iff_example = verify_commitment_iff both_objects

build-Permutes_example : build encoders reversed ≡ ok both_objects
build-Permutes_example = build-Permutes encoders objects reversed both_objects (swap _ _ []) built

inclusion_proof-build_example :
    (p : InclusionProof) × (inclusion_proof encoders
        (some both_objects)
        (some (evidence_object (some photo)))
      ≡ ok p)
    × (verify_inclusion encoders both_objects.root p (some (evidence_object (some photo))) ≡ ok tt)
inclusion_proof-build_example =
    inclusion_proof-build encoders objects both_objects (evidence_object (some photo)) (omega arith)
      built (later first)

abbrev empty_proof : InclusionProof
empty_proof = record { index = pos 0; tree_size = pos 0; steps = [] }

abbrev proof_of : Outcome Error InclusionProof → InclusionProof
proof_of (ok p) = p
proof_of (err e) = empty_proof
proof_of panic = empty_proof

abbrev photo_proof : InclusionProof
photo_proof =
    proof_of (inclusion_proof encoders (some both_objects) (some (evidence_object (some photo))))

photo_proved :
    (length both_objects.leaf_hashes < 2 ^ 63)
    × (photo_proof.tree_size ≡ both_objects.size)
    × (verify_inclusion encoders both_objects.root photo_proof (some (evidence_object (some photo)))
        ≡ ok tt)
unfolding build leaves_of leaf_of object_hash claim_hash evidence_hash canonical_hash sort_leaves
    insert reject_duplicates bytes_lt bytes_eq tree_of root_of Tree.new Tree.build_levels Tree.root
    leaf_hash node_hash inclusion_proof prove_leaf search Tree.proof Tree.proof_loop
    verify_inclusion Verify.verify_inclusion Verify.decode_proof Verify.proof_side_sequence
    Verify.side_loop Verify.sides_match Verify.verify
photo_proved = (omega arith, refl, refl)

verify_inclusion_member_example :
    ((leaf : Digest) × (leaf_of encoders (some (evidence_object (some photo))) ≡ ok leaf)
      × (get_elem? both_objects.leaf_hashes (to_uint64 photo_proof.index) ≡ some leaf))
    ⊎ Collision
verify_inclusion_member_example =
    verify_inclusion_member encoders both_objects photo_proof (some (evidence_object (some photo)))
      (verify_commitment-build encoders objects both_objects built) photo_proved.0 photo_proved.1
      photo_proved.2
