-- ===== src/Rlp/Tests.antt =====
-- chain/rlp/rlp.go: runs of the encoder and the decoder.
use trust.Prelude.{[], ◌∷◌, ◌++◌, ◌≡◌, ◌-◌, ◌+◌, ◌*◌, ◌≤◌, length, ◌^◌, refl, arith, ok, err, panic}
use trust.Rlp.Codec.{
  Item, string, list, nil, cons, put_uint64, uint_to_bytes, decode_length, max_input_len,
  max_nesting_depth, encode_bytes, encode_list, encode_payload, concat, decode_item,
  decode_prefixed, short_content, check_single, encode_uint64, decode, truncated, trailing_bytes,
  invalid_encoding, out_of_fuel,
}
use trust.Rlp.Scalars.{decode-encode_uint64}
use trust.Rlp.Fuel.{decode_item_terminates}
use trust.Rlp.Nested.{encode, nesting, decode-encode}
use trust.Rlp.Overflow.{decode-length_overflow_panics}

-- ["cat", [], 1024].
abbrev nested : Item
nested =
    list (cons (string (99 ∷ 97 ∷ 116 ∷ [])) (cons (list nil) (cons (string (4 ∷ 0 ∷ [])) nil)))

encode-nested : encode nested ≡ 0xc8 ∷ 0x83 ∷ 99 ∷ 97 ∷ 116 ∷ 0xc0 ∷ 0x82 ∷ 4 ∷ 0 ∷ []
unfolding encode encode_list encode_bytes encode_payload concat
encode-nested = refl

encode_uint64-1024 : encode_uint64 1024 ≡ 0x82 ∷ 4 ∷ 0 ∷ []
unfolding encode_uint64
encode_uint64-1024 = refl

decode_truncated : decode (0x83 ∷ 1 ∷ 2 ∷ []) ≡ err truncated
unfolding decode decode_item decode_prefixed short_content check_single
decode_truncated = refl

decode_trailing : decode (0x80 ∷ 1 ∷ []) ≡ err trailing_bytes
unfolding decode decode_item decode_prefixed short_content check_single
decode_trailing = refl

decode_not_minimal : decode (0x81 ∷ 5 ∷ []) ≡ err invalid_encoding
unfolding decode decode_item decode_prefixed short_content check_single
decode_not_minimal = refl

nested-short : (length (encode nested) ≤ max_input_len) × (nesting nested ≤ max_nesting_depth)
unfolding encode encode_list encode_bytes encode_payload concat nesting
nested-short = omega arith

decode-encode_example : decode (encode nested) ≡ ok nested
decode-encode_example = decode-encode nested nested-short.0 nested-short.1

decode-length_overflow_panics_example :
    decode (0xbf ∷ (put_uint64 (2 ^ 64 - 1) ++ (1 ∷ 2 ∷ []))) ≡ panic
decode-length_overflow_panics_example =
    decode-length_overflow_panics (2 ^ 64 - 1) (1 ∷ 2 ∷ []) (omega arith) (omega arith)
      (omega arith)

decode_item_terminates_example :
    ¬ (decode_item (2 * length (encode nested) + 1) (encode nested) 0 ≡ err out_of_fuel)
    × (decode_item (2 * length (encode nested) + 1 + 7) (encode nested) 0
        ≡ decode_item (2 * length (encode nested) + 1) (encode nested) 0)
decode_item_terminates_example = decode_item_terminates 7 (encode nested) 0

decode-encode_uint64_example :
    (decode (encode_uint64 1024) ≡ ok (string (uint_to_bytes 1024)))
    × (decode_length (uint_to_bytes 1024) ≡ ok 1024)
decode-encode_uint64_example = decode-encode_uint64 1024 (omega arith) (omega arith)
