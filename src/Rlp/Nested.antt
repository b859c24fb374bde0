-- ===== src/Rlp/Nested.antt =====
-- chain/rlp/rlp.go: Decode of nested values.
use trust.Prelude.{
  ℕ, zero, suc, ◌+◌, ◌*◌, ◌^◌, ◌≤◌, ◌<◌, ◌≡◌, refl, sym, ap, ◌∙◌, List, [], ◌∷◌, ◌++◌, append_assoc,
  append-nil, false, ◌&&◌, arith, length, length-append, leb, ltb, ◌==◌, Outcome, ok, Bytes,
  Bool-cases, inl, inr, subst,
}
use Prim.Native.Nat.{max}
use trust.Rlp.Codec.{
  Item, Items, string, list, nil, cons, Error, uint_to_bytes, encode_bytes, concat, encode_payload,
  encode_list, check_single, decode_item, decode_list_items, decode, max_nesting_depth,
  max_input_len,
}
use trust.Rlp.RoundTrip.{
  decode_prefixed-single, decode_prefixed-short_string, decode_prefixed-long_string,
  decode_prefixed-short_list, decode_prefixed-long_list,
}

-- How a caller composes EncodeBytes and EncodeList for a nested value.
unfoldable mutual
  pub encode : Item → Bytes
  encode (string b) = encode_bytes b
  encode (list l) = encode_list (encode_each l)

  encode_each : Items → List Bytes
  encode_each nil = []
  encode_each (cons v l) = encode v ∷ encode_each l

-- The depth of the lists in a value.
unfoldable mutual
  pub nesting : Item → ℕ
  nesting (string b) = 0
  nesting (list l) = suc (nesting_each l)

  nesting_each : Items → ℕ
  nesting_each nil = 0
  nesting_each (cons v l) = max (nesting v) (nesting_each l)

length-encode_payload : (p : Bytes) → length p + 1 ≤ length (encode_payload p)
unfolding encode_payload
length-encode_payload p = ground (arith, length-append (uint_to_bytes (length p)) p)

length-encode_bytes :
    (b : Bytes) → (1 ≤ length (encode_bytes b)) × (length b ≤ length (encode_bytes b))
unfolding encode_bytes
length-encode_bytes [] = omega arith
length-encode_bytes (b ∷ bytes) =
    ground (arith, length-append (uint_to_bytes (length (b ∷ bytes))) (b ∷ bytes))

length-encode : (v : Item) → 1 ≤ length (encode v)
unfolding encode encode_list
length-encode (string b) = (length-encode_bytes b).0
length-encode (list l) = let h = length-encode_payload (concat (encode_each l)) in omega arith

length-zero : (b : Bytes) → length b ≡ 0 → b ≡ []
length-zero [] h = refl
length-zero (x ∷ b) h = absurd (omega arith)

decode_item-encode_bytes :
    (f : ℕ) (b rest : Bytes) (d : ℕ)
    → length b < 2 ^ 63
    → decode_item (suc f) (encode_bytes b ++ rest) d ≡ ok (string b, rest)
unfolding encode_bytes decode_item
decode_item-encode_bytes f [] rest d small =
    decode_prefixed-short_string (λ p. decode_list_items f p (d + 1)) [] rest d (omega arith)
      (unfold check_single in refl)
decode_item-encode_bytes f (b ∷ bytes) rest d small =
    let items : Bytes → Outcome Error Items = λ p. decode_list_items f p (d + 1) in
    let content = b ∷ bytes in
    elim (Bool-cases ((length content == 1) && ltb b 0x80)) [
      | inl t ↦
          let one : length bytes ≡ 0 = ground arith in
          let h : b < 0x80 = ground arith in
          rw t (
            decode_prefixed-single items b rest d h
            ∙ ap (λ (z : Bytes). ok (string (b ∷ z), rest)) (sym (length-zero bytes one)))
      | inr t ↦
          let single : check_single content ≡ ok content = unfold check_single in (rw t refl) in
          elim (Bool-cases (leb (length content) 55)) [
            | inl s ↦
                rw (t, s) (decode_prefixed-short_string items content rest d (ground arith) single)
            | inr s ↦
                rw (t, s, append_assoc (uint_to_bytes (length content)) content rest)
                  (decode_prefixed-long_string items content rest d (ground arith) small)
          ]
    ]

decode_item-encode_payload :
    (f : ℕ) (l : Items) (p rest : Bytes) (d : ℕ)
    → length p < 2 ^ 63
    → d < max_nesting_depth
    → decode_list_items f p (d + 1) ≡ ok l
    → decode_item (suc f) (encode_payload p ++ rest) d ≡ ok (list l, rest)
unfolding encode_payload decode_item
decode_item-encode_payload f l p rest d small deep e =
    let items : Bytes → Outcome Error Items = λ p. decode_list_items f p (d + 1) in
    elim (Bool-cases (leb (length p) 55)) [
      | inl s ↦ rw s (decode_prefixed-short_list items l p rest d (ground arith) deep e)
      | inr s ↦
          rw (s, append_assoc (uint_to_bytes (length p)) p rest)
            (decode_prefixed-long_list items l p rest d (ground arith) small deep e)
    ]

decode_list_items-step :
    (f : ℕ) (b : Bytes) (d : ℕ) (v : Item) (rest : Bytes) (l : Items)
    → 0 < length b
    → decode_item f b d ≡ ok (v, rest)
    → decode_list_items f rest d ≡ ok l
    → decode_list_items (suc f) b d ≡ ok (cons v l)
unfolding decode_list_items
decode_list_items-step f [] d v rest l h e e' = absurd (omega arith)
decode_list_items-step f (c ∷ b) d v rest l h e e' = rw (e, e') refl

-- One clause of the encoder each.
encode-string : (b : Bytes) → encode (string b) ≡ encode_bytes b
unfolding encode
encode-string b = refl

encode-list : (l : Items) → encode (list l) ≡ encode_payload (concat (encode_each l))
unfolding encode encode_list
encode-list l = refl

encode_each-cons :
    (v : Item) (l : Items) → concat (encode_each (cons v l)) ≡ encode v ++ concat (encode_each l)
unfolding encode_each concat
encode_each-cons v l = refl

nesting-list : (l : Items) → nesting (list l) ≡ suc (nesting_each l)
unfolding nesting
nesting-list l = refl

nesting_each-cons :
    (v : Item) (l : Items)
    → (nesting v ≤ nesting_each (cons v l)) × (nesting_each l ≤ nesting_each (cons v l))
unfolding nesting_each
nesting_each-cons v l = omega arith

decode_list_items-nil : (f d : ℕ) → decode_list_items (suc f) (concat (encode_each nil)) d ≡ ok nil
unfolding decode_list_items encode_each concat
decode_list_items-nil f d = refl

mutual
  -- Two units of fuel for each byte.
  decode_item-encode :
      (f : ℕ) (v : Item) (rest : Bytes) (d : ℕ)
      → 2 * length (encode v) ≤ f
      → length (encode v) < 2 ^ 63
      → nesting v + d ≤ max_nesting_depth
      → decode_item f (encode v ++ rest) d ≡ ok (v, rest)
  decode_item-encode zero v rest d fuel small deep = let h = length-encode v in absurd (omega arith)
  decode_item-encode (suc f) (string b) rest d fuel small deep =
      let h = length-encode_bytes b in
      let e = encode-string b in
      rw e (decode_item-encode_bytes f b rest d (omega (arith, ap length e)))
  decode_item-encode (suc f) (list l) rest d fuel small deep =
      let p = concat (encode_each l) in
      let h = length-encode_payload p in
      let e = encode-list l in
      let e' : length (encode (list l)) ≡ length (encode_payload p) = ap length e in
      let n = nesting-list l in
      rw e (
        decode_item-encode_payload f l p rest d (omega arith) (omega arith)
          (decode_list_items-encode_each f l (d + 1) (omega arith) (omega arith) (omega arith)))

  decode_list_items-encode_each :
      (f : ℕ) (l : Items) (d : ℕ)
      → 2 * length (concat (encode_each l)) + 1 ≤ f
      → length (concat (encode_each l)) < 2 ^ 63
      → nesting_each l + d ≤ max_nesting_depth
      → decode_list_items f (concat (encode_each l)) d ≡ ok l
  decode_list_items-encode_each zero l d fuel small deep = absurd (omega arith)
  decode_list_items-encode_each (suc f) nil d fuel small deep = decode_list_items-nil f d
  decode_list_items-encode_each (suc f) (cons v l) d fuel small deep =
      let rest = concat (encode_each l) in
      let total : length (encode v ++ rest) ≡ length (encode v) + length rest =
        length-append (encode v) rest in
      let some_byte = length-encode v in
      let e = encode_each-cons v l in
      let e' : length (concat (encode_each (cons v l))) ≡ length (encode v ++ rest) = ap length e in
      let n = nesting_each-cons v l in
      rw e (
        decode_list_items-step f (encode v ++ rest) d v rest l (omega arith)
          (decode_item-encode f v rest d (omega arith) (omega arith) (omega arith))
          (decode_list_items-encode_each f l d (omega arith) (omega arith) (omega arith)))

-- What EncodeBytes and EncodeList make of a value, nested to any shape, is read back by Decode, where
-- it is at most maxInputLen bytes long and its lists are at most maxNestingDepth deep.
pub decode-encode :
    (v : Item)
    → length (encode v) ≤ max_input_len
    → nesting v ≤ max_nesting_depth
    → decode (encode v) ≡ ok v
unfolding decode
decode-encode v small deep =
    let h = length-encode v in
    let some_byte : (length (encode v) == 0) ≡ false = ground arith in
    let room : ltb max_input_len (length (encode v)) ≡ false = ground arith in
    let e =
      decode_item-encode (2 * length (encode v) + 1) v [] 0 (omega arith) (omega arith)
        (omega arith) in
    let whole =
      subst (λ b. decode_item (2 * length (encode v) + 1) b 0 ≡ ok (v, [])) (append-nil (encode v))
        e in
    rw (some_byte, room, whole) refl
