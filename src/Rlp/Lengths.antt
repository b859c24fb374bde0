-- ===== src/Rlp/Lengths.antt =====
-- chain/rlp/rlp.go: uintToBytes against decodeLength.
use trust.Prelude.{
  ℕ, zero, suc, ◌+◌, ◌^◌, ◌≤◌, ◌<◌, ◌≡◌, refl, ◌∙◌, [], ◌∷◌, arith, length, Bytes, ◌==◌, ok, ap,
  false, Bool-cases, inl, inr, ==_iff,
}
use trust.Rlp.Codec.{put_uint64, skip_zeros, uint_to_bytes, read_digits, decode_length}

read_digits-put_uint64 : (n : ℕ) → n < 2 ^ 64 → read_digits 0 (put_uint64 n) ≡ n
unfolding read_digits
read_digits-put_uint64 n h = omega arith

decode_length-skip_zeros :
    (k : ℕ) (bytes : Bytes)
    → length bytes ≡ suc k
    → decode_length (skip_zeros k bytes) ≡ ok (read_digits 0 bytes)
unfolding decode_length skip_zeros read_digits
decode_length-skip_zeros k [] h = absurd (omega arith)
decode_length-skip_zeros zero (b ∷ bytes) h = ground arith
decode_length-skip_zeros (suc k) (b ∷ bytes) h =
    let ih = decode_length-skip_zeros k bytes (omega arith) in
    elim (Bool-cases (b == 0)) [
      | inl z ↦ let e : b ≡ 0 = (==_iff b 0).0 z in rw e ih
      | inr n ↦ ground arith
    ]

length-skip_zeros :
    (k : ℕ) (bytes : Bytes)
    → (length (skip_zeros k bytes) ≤ length bytes)
      × (length bytes ≤ length (skip_zeros k bytes) + k)
unfolding skip_zeros
length-skip_zeros zero bytes = omega arith
length-skip_zeros (suc k) [] = omega arith
length-skip_zeros (suc k) (b ∷ bytes) = ground (arith, length-skip_zeros k bytes)

-- decodeLength reads back every length that uintToBytes writes, in at most 8 bytes.
pub decode_length-uint_to_bytes :
    (n : ℕ)
    → 0 < n
    → n < 2 ^ 64
    → (decode_length (uint_to_bytes n) ≡ ok n)
      × (1 ≤ length (uint_to_bytes n))
      × (length (uint_to_bytes n) ≤ 8)
unfolding uint_to_bytes
decode_length-uint_to_bytes n positive h =
    let (lo, hi) = length-skip_zeros 7 (put_uint64 n) in
    let some_bits : (n == 0) ≡ false = ground arith in
    rw some_bits (
      decode_length-skip_zeros 7 (put_uint64 n) refl ∙ ap ok (read_digits-put_uint64 n h),
      omega arith,
      omega arith,
    )
