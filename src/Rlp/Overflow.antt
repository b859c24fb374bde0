-- ===== src/Rlp/Overflow.antt =====
-- chain/rlp/rlp.go: the bounds test of the long forms on a declared length near 2^64.
use trust.Prelude.{
  ℕ, zero, suc, ◌+◌, ◌-◌, ◌*◌, ◌/◌, ◌%◌, ◌^◌, ◌≤◌, ◌<◌, ◌≡◌, refl, ap, ◌∷◌, ◌++◌, true, false,
  arith, length, length-append, take, take-append_length, leb, ltb, ◌==◌, Outcome, ok, panic, Bytes,
}
use trust.Rlp.Codec.{
  Error, Items, put_uint64, read_digits, decode_length, long_content, cut_long, decode_prefixed,
  decode_item, decode_list_items, decode, max_input_len,
}

decode_length-put_uint64 : (n : ℕ) → 2 ^ 56 ≤ n → n < 2 ^ 64 → decode_length (put_uint64 n) ≡ ok n
unfolding decode_length read_digits
decode_length-put_uint64 n lo hi =
    let canonical : (n / 2 ^ 56 % 256 == 0) ≡ false = ground arith in
    rw canonical (ap ok (omega arith))

long_content-wraps :
    (n : ℕ) (tail : Bytes)
    → 2 ^ 64 - 9 ≤ n
    → n < 2 ^ 64
    → long_content 8 (put_uint64 n ++ tail) ≡ panic
unfolding long_content cut_long
long_content-wraps n tail lo hi =
    let total = length-append (put_uint64 n) tail in
    let room : ltb (1 + length (put_uint64 n ++ tail)) 9 ≡ false = ground arith in
    let prefix : take 8 (put_uint64 n ++ tail) ≡ put_uint64 n =
      take-append_length (put_uint64 n) tail in
    let is_long : leb n 55 ≡ false = ground arith in
    let wraps : (9 + n) % 2 ^ 64 ≡ n - (2 ^ 64 - 9) = omega arith in
    let room' : ltb (1 + length (put_uint64 n ++ tail)) (n - (2 ^ 64 - 9)) ≡ false = ground arith in
    let below : ltb (n - (2 ^ 64 - 9)) 9 ≡ true = ground arith in
    rw (room, prefix, decode_length-put_uint64 n (omega arith) hi)
      (rw (is_long, wraps) (rw (room', below) refl))

decode_prefixed-panic :
    (items : Bytes → Outcome Error Items) (tail : Bytes) (d : ℕ)
    → long_content 8 tail ≡ panic
    → decode_prefixed items 0xbf tail d ≡ panic
unfolding decode_prefixed
decode_prefixed-panic items tail d e = rw e refl

decode-panic :
    (b : Bytes)
    → 0 < length b
    → length b ≤ max_input_len
    → decode_item (2 * length b + 1) b 0 ≡ panic
    → decode b ≡ panic
unfolding decode
decode-panic b some_byte small e =
    let no_empty : (length b == 0) ≡ false = ground arith in
    let room : ltb max_input_len (length b) ≡ false = ground arith in rw (no_empty, room, e) refl

decode_item-panic :
    (fuel : ℕ) (tail : Bytes)
    → 0 < fuel
    → long_content 8 tail ≡ panic
    → decode_item fuel (0xbf ∷ tail) 0 ≡ panic
unfolding decode_item
decode_item-panic zero tail h e = absurd (omega arith)
decode_item-panic (suc fuel) tail h e =
    decode_prefixed-panic (λ payload. decode_list_items fuel payload 1) tail 0 e

-- A long string that declares a length of 2^64 - 9 or more makes Decode slice out of bounds, so that
-- it panics where it should report a truncated input: 1 + lenOfLen + length wraps to less than the
-- position where the content starts.
pub decode-length_overflow_panics :
    (n : ℕ) (tail : Bytes)
    → 2 ^ 64 - 9 ≤ n
    → n < 2 ^ 64
    → length tail + 9 ≤ max_input_len
    → decode (0xbf ∷ (put_uint64 n ++ tail)) ≡ panic
decode-length_overflow_panics n tail lo hi small =
    let b = put_uint64 n ++ tail in
    let total : length b ≡ 8 + length tail = length-append (put_uint64 n) tail in
    decode-panic (0xbf ∷ b) (omega arith) (omega arith) (
      decode_item-panic (2 * length (0xbf ∷ b) + 1) b (omega arith)
        (long_content-wraps n tail lo hi))
