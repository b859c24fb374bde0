-- ===== src/Rlp/Scalars.antt =====
-- chain/rlp/rlp.go: EncodeUint64.
use trust.Prelude.{
  ℕ, ◌^◌, ◌≤◌, ◌<◌, ◌≡◌, refl, ◌∙◌, ap, [], ◌∷◌, false, arith, length, ◌==◌, ok, Bytes,
}
use trust.Rlp.Codec.{
  string, uint_to_bytes, encode_bytes, encode_uint64, decode_length, decode, max_input_len,
}
use trust.Rlp.Lengths.{decode_length-uint_to_bytes}
use trust.Rlp.Nested.{encode, nesting, decode-encode}

length-encode_bytes_short : (b : Bytes) → length b ≤ 8 → length (encode_bytes b) ≤ 9
unfolding encode_bytes
length-encode_bytes_short [] h = omega arith
length-encode_bytes_short (x ∷ b) h = ground arith

encode_uint64-encode : (n : ℕ) → 0 < n → encode_uint64 n ≡ encode (string (uint_to_bytes n))
unfolding encode_uint64 encode uint_to_bytes
encode_uint64-encode n some = let no_zero : (n == 0) ≡ false = ground arith in rw no_zero refl

string_short :
    (b : Bytes)
    → length b ≤ 8
    → (length (encode (string b)) ≤ max_input_len) × (nesting (string b) ≤ 64)
unfolding encode nesting
string_short b h = let e = length-encode_bytes_short b h in omega arith

-- Decode reads what EncodeUint64 writes for a number above 0 as a string of bytes, and those bytes,
-- without a leading zero, are read back as the number.
pub decode-encode_uint64 :
    (n : ℕ)
    → 0 < n
    → n < 2 ^ 64
    → (decode (encode_uint64 n) ≡ ok (string (uint_to_bytes n)))
      × (decode_length (uint_to_bytes n) ≡ ok n)
decode-encode_uint64 n some small =
    let (reads, lo, hi) = decode_length-uint_to_bytes n some small in
    let (fits, flat) = string_short (uint_to_bytes n) hi in
    (
      ap decode (encode_uint64-encode n some) ∙ decode-encode (string (uint_to_bytes n)) fits flat,
      reads,
    )
