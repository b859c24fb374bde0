-- ===== src/Commitment/Builds.antt =====
-- commitment/build.go: what Build returns.
use trust.Prelude.{
  ◌<◌, ◌≡◌, refl, sym, ap, ◌∙◌, subst, List, [], ◌∷◌, false, Option, some, length, ◌==◌, arith, ok,
  >>=-eq-ok, map_err, map_err-eq-ok, ok-injective, pos,
}
use trust.Merkle.Hash.{Hasher, Digest}
use trust.Merkle.Tree
use trust.Merkle.Tree.{Tree}
use trust.Canonical.{Encoders}
use trust.Commitment.Object.{TrustObject, Commitment, algorithm_rfc6962_sha256, leaf_of, tree_error}
use trust.Commitment.Order.{
  Permutes, nil, keep, swap, both, sort_leaves, reject_duplicates, sort_leaves-Permutes,
  length-Permutes, sort_leaves-Permutes_self, Permutes-refl,
}
use trust.Commitment.Build.{tree_of, root_of, verify_commitment, leaves_of, build}
use trust.Commitment.Sorted.{
  sort_leaves-check_sorted, reject_duplicates-check_distinct, checks-Ascending,
}
use trust.Commitment.Valid.{IsValid, verify_commitment_iff}

module _ ⦃hasher : Hasher⦄ (encoders : Encoders) where
  -- What a successful Build did.
  pub record Built (objects : List (Option TrustObject)) (c : Commitment) : Type 0 where
    pub some_objects : 0 < length objects
    pub hashes : List Digest
    pub hashed : leaves_of encoders objects ≡ ok hashes
    pub no_duplicates : reject_duplicates (sort_leaves hashes) ≡ ok tt
    pub tree : Tree
    pub tree_built : Tree.new (sort_leaves hashes) ≡ ok tree
    pub top : Digest
    pub rooted : Tree.root tree ≡ ok top
    pub result :
        record {
          root = top;
          size = pos (length objects);
          leaf_hashes = sort_leaves hashes;
          algorithm = algorithm_rfc6962_sha256;
        }
        ≡ c

  pub build-Built :
      (objects : List (Option TrustObject)) (c : Commitment)
      → build encoders objects ≡ ok c
      → Built objects c
  unfolding build tree_of root_of
  build-Built [] c h = cc
  build-Built (obj ∷ objects) c h =
      let filled : (length (obj ∷ objects) == 0) ≡ false = ground arith in
      let (hashes, hashed, h1) =
        >>=-eq-ok (leaves_of encoders (obj ∷ objects)) _ (rw filled at h) in
      let sorted = sort_leaves hashes in
      let (_, distinct, h2) = >>=-eq-ok (reject_duplicates sorted) _ h1 in
      let (t, built, h3) = >>=-eq-ok (map_err tree_error (Tree.new sorted)) _ h2 in
      let (top, rooted, h4) = >>=-eq-ok (map_err tree_error (Tree.root t)) _ h3 in
      record {
        some_objects = omega arith;
        hashes = hashes;
        hashed = hashed;
        no_duplicates = distinct;
        tree = t;
        tree_built = map_err-eq-ok tree_error (Tree.new sorted) built;
        top = top;
        rooted = map_err-eq-ok tree_error (Tree.root t) rooted;
        result = ok-injective h4;
      }

  leaves_of-cons :
      (obj : Option TrustObject) (objects : List (Option TrustObject)) (h : Digest)
      (hashes : List Digest)
      → leaf_of encoders obj ≡ ok h
      → leaves_of encoders objects ≡ ok hashes
      → leaves_of encoders (obj ∷ objects) ≡ ok (h ∷ hashes)
  unfolding leaves_of
  leaves_of-cons obj objects h hashes e f = rw (e, f) refl

  -- A successful loop, taken apart.
  pub leaves_of-uncons :
      (obj : Option TrustObject) (objects : List (Option TrustObject)) (hashes : List Digest)
      → leaves_of encoders (obj ∷ objects) ≡ ok hashes
      → (h : Digest) × (rest : List Digest) × (leaf_of encoders obj ≡ ok h)
        × (leaves_of encoders objects ≡ ok rest)
        × (h ∷ rest ≡ hashes)
  unfolding leaves_of
  leaves_of-uncons obj objects hashes e =
      let (h, eh, e1) = >>=-eq-ok (leaf_of encoders obj) _ e in
      let (rest, er, e2) = >>=-eq-ok (leaves_of encoders objects) _ e1 in
      (h, rest, eh, er, ok-injective e2)

  length-leaves_of :
      (objects : List (Option TrustObject)) (hashes : List Digest)
      → leaves_of encoders objects ≡ ok hashes
      → length hashes ≡ length objects
  length-leaves_of [] hashes h =
      let empty : [] ≡ hashes = unfold leaves_of in (ok-injective h) in ap length (sym empty)
  length-leaves_of (obj ∷ objects) hashes h =
      let (x, rest, _, hr, whole) = leaves_of-uncons obj objects hashes h in
      omega (arith, ap length whole, length-leaves_of objects rest hr)

  -- Every commitment that Build returns is well-formed, so VerifyCommitment accepts it.
  pub verify_commitment-build :
      (objects : List (Option TrustObject)) (c : Commitment)
      → build encoders objects ≡ ok c
      → verify_commitment (some c) ≡ ok tt
  verify_commitment-build [] c h = absurd (unfold build in cc)
  verify_commitment-build (obj ∷ objects) c h =
      let b = build-Built (obj ∷ objects) c h in
      let sorted = sort_leaves b.hashes in
      let width : length sorted ≡ length (obj ∷ objects) =
        length-Permutes (sort_leaves-Permutes_self b.hashes)
        ∙ length-leaves_of (obj ∷ objects) b.hashes b.hashed in
      (verify_commitment_iff c).1 (
        subst IsValid b.result (record {
          known_algorithm = refl;
          filled = omega (arith, width);
          counted = ap pos (sym width);
          ascending =
              checks-Ascending sorted (sort_leaves-check_sorted b.hashes)
                (reject_duplicates-check_distinct sorted b.no_duplicates);
          tree = b.tree;
          built = b.tree_built;
          rooted = b.rooted;
        }))

  leaves_of-Permutes :
      {objects objects' : List (Option TrustObject)} (hashes : List Digest)
      → Permutes objects objects'
      → leaves_of encoders objects ≡ ok hashes
      → (hashes' : List Digest) × (leaves_of encoders objects' ≡ ok hashes')
        × Permutes hashes hashes'
  leaves_of-Permutes hashes nil h = (hashes, h, Permutes-refl hashes)
  leaves_of-Permutes hashes (keep {x = x} {xs = xs} {ys = ys} p) h =
      let (a, rest, ha, hr, whole) = leaves_of-uncons x xs hashes h in
      let (rest', hr', q) = leaves_of-Permutes rest p hr in
      (
        a ∷ rest',
        leaves_of-cons x ys a rest' ha hr',
        subst (λ l. Permutes l (a ∷ rest')) whole (keep q),
      )
  leaves_of-Permutes hashes (swap x y xs) h =
      let (a, tail, ha, ht, whole) = leaves_of-uncons x (y ∷ xs) hashes h in
      let (b, rest, hb, hr, whole') = leaves_of-uncons y xs tail ht in
      let all : a ∷ b ∷ rest ≡ hashes = ap (λ (l : List Digest). a ∷ l) whole' ∙ whole in
      (
        b ∷ a ∷ rest,
        leaves_of-cons y (x ∷ xs) b (a ∷ rest) hb (leaves_of-cons x xs a rest ha hr),
        subst (λ l. Permutes l (b ∷ a ∷ rest)) all (swap a b rest),
      )
  leaves_of-Permutes hashes (both p q) h =
      let (hashes', h', p') = leaves_of-Permutes hashes p h in
      let (hashes'', h'', q') = leaves_of-Permutes hashes' q h' in (hashes'', h'', both p' q')

  build-from :
      (objects : List (Option TrustObject)) (c : Commitment)
      → Built objects c
      → build encoders objects ≡ ok c
  unfolding build tree_of root_of
  build-from [] c b = absurd (omega (arith, b.some_objects))
  build-from (obj ∷ objects) c b =
      let filled : (length (obj ∷ objects) == 0) ≡ false = ground arith in
      rw (filled, b.hashed, b.no_duplicates, b.tree_built, b.rooted) (ap ok b.result)

  -- Build does not depend on the order of the objects: from the same objects in any other order it
  -- makes the same commitment.
  pub build-Permutes :
      (objects objects' : List (Option TrustObject)) (c : Commitment)
      → Permutes objects objects'
      → build encoders objects ≡ ok c
      → build encoders objects' ≡ ok c
  build-Permutes objects objects' c p h =
      let b = build-Built objects c h in
      let (hashes', hashed', q) = leaves_of-Permutes b.hashes p b.hashed in
      let sorted : sort_leaves b.hashes ≡ sort_leaves hashes' = sort_leaves-Permutes q in
      let width : length objects ≡ length objects' = length-Permutes p in
      build-from objects' c (record {
        some_objects = rw (← width) b.some_objects;
        hashes = hashes';
        hashed = hashed';
        no_duplicates = rw (← sorted) b.no_duplicates;
        tree = b.tree;
        tree_built = rw (← sorted) b.tree_built;
        top = b.top;
        rooted = b.rooted;
        result = rw (← width, ← sorted) b.result;
      })
