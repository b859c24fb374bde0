-- ===== src/Rlp/RoundTrip.antt =====
-- chain/rlp/rlp.go: Decode reads back what the encoder writes.
use trust.Prelude.{
  ℕ, ◌+◌, ◌-◌, ◌%◌, ◌^◌, ◌≤◌, ◌<◌, ◌≡◌, refl, [], ◌∷◌, ◌++◌, true, false, arith, length,
  length-append, take-append_length, drop-append_length, leb, ltb, Outcome, ok, Bytes,
}
use trust.Rlp.Codec.{
  Items, string, list, Error, uint_to_bytes, short_content, long_content, cut_long, check_single,
  decode_prefixed, max_nesting_depth,
}
use trust.Rlp.Lengths.{decode_length-uint_to_bytes}

short_content-append :
    (content rest : Bytes) → short_content (length content) (content ++ rest) ≡ ok (content, rest)
unfolding short_content
short_content-append content rest =
    let room : ltb (1 + length (content ++ rest)) (1 + length content) ≡ false =
      ground (arith, length-append content rest) in
    rw (room, take-append_length content rest, drop-append_length content rest)

long_content-append :
    (content rest : Bytes)
    → 55 < length content
    → length content < 2 ^ 63
    → long_content
        (length (uint_to_bytes (length content)))
        (uint_to_bytes (length content) ++ (content ++ rest))
      ≡ ok (content, rest)
unfolding long_content cut_long
long_content-append content rest long small =
    let n = length content in
    let u = uint_to_bytes n in
    let (reads, lo, hi) = decode_length-uint_to_bytes n (omega arith) (omega arith) in
    let whole : length (u ++ (content ++ rest)) ≡ length u + (n + length rest) =
      omega (arith, length-append u (content ++ rest), length-append content rest) in
    let no_wrap : (1 + length u + n) % 2 ^ 64 ≡ 1 + length u + n = omega arith in
    let room : ltb (1 + (length u + (n + length rest))) (1 + length u) ≡ false = ground arith in
    let room' : ltb (1 + (length u + (n + length rest))) (1 + length u + n) ≡ false =
      ground arith in
    let above : ltb (1 + length u + n) (1 + length u) ≡ false = ground arith in
    let is_long : leb n 55 ≡ false = ground arith in
    let width : 1 + length u + n - (1 + length u) ≡ n = omega arith in
    rw (whole, room, take-append_length u (content ++ rest), reads, is_long, no_wrap)
      (rw (room', above, width, drop-append_length u (content ++ rest))
        (rw (take-append_length content rest, drop-append_length content rest) refl))

pub decode_prefixed-single :
    (items : Bytes → Outcome Error Items) (b : ℕ) (tail : Bytes) (d : ℕ)
    → b < 0x80
    → decode_prefixed items b tail d ≡ ok (string (b ∷ []), tail)
unfolding decode_prefixed
decode_prefixed-single items b tail d h = ground arith

pub decode_prefixed-short_string :
    (items : Bytes → Outcome Error Items) (content rest : Bytes) (d : ℕ)
    → length content ≤ 55
    → check_single content ≡ ok content
    → decode_prefixed items (0x80 + length content) (content ++ rest) d ≡ ok (string content, rest)
unfolding decode_prefixed
decode_prefixed-short_string items content rest d h single =
    let n = length content in
    let no_list : leb 0xc0 (0x80 + n) ≡ false = ground arith in
    let no_byte : leb (0x80 + n) 0x7f ≡ false = ground arith in
    let short : leb (0x80 + n) 0xb7 ≡ true = ground arith in
    let width : 0x80 + n - 0x80 ≡ n = omega arith in
    rw (no_list, no_byte, short, width, short_content-append content rest, single) refl

pub decode_prefixed-long_string :
    (items : Bytes → Outcome Error Items) (content rest : Bytes) (d : ℕ)
    → 55 < length content
    → length content < 2 ^ 63
    → decode_prefixed items
        (0xb7 + length (uint_to_bytes (length content)))
        (uint_to_bytes (length content) ++ (content ++ rest))
        d
      ≡ ok (string content, rest)
unfolding decode_prefixed
decode_prefixed-long_string items content rest d long small =
    let k = length (uint_to_bytes (length content)) in
    let (_, lo, hi) = decode_length-uint_to_bytes (length content) (omega arith) (omega arith) in
    let no_list : leb 0xc0 (0xb7 + k) ≡ false = ground arith in
    let no_byte : leb (0xb7 + k) 0x7f ≡ false = ground arith in
    let no_short : leb (0xb7 + k) 0xb7 ≡ false = ground arith in
    let is_long : leb (0xb7 + k) 0xbf ≡ true = ground arith in
    let width : 0xb7 + k - 0xb7 ≡ k = omega arith in
    rw (no_list, no_byte, no_short, is_long, width, long_content-append content rest long small)
      refl

pub decode_prefixed-short_list :
    (items : Bytes → Outcome Error Items) (l : Items) (content rest : Bytes) (d : ℕ)
    → length content ≤ 55
    → d < max_nesting_depth
    → items content ≡ ok l
    → decode_prefixed items (0xc0 + length content) (content ++ rest) d ≡ ok (list l, rest)
unfolding decode_prefixed
decode_prefixed-short_list items l content rest d h deep e =
    let n = length content in
    let shallow : leb 64 d ≡ false = ground arith in
    let is_list : leb 0xc0 (0xc0 + n) ≡ true = ground arith in
    let no_byte : leb (0xc0 + n) 0x7f ≡ false = ground arith in
    let no_short : leb (0xc0 + n) 0xb7 ≡ false = ground arith in
    let no_long : leb (0xc0 + n) 0xbf ≡ false = ground arith in
    let short : leb (0xc0 + n) 0xf7 ≡ true = ground arith in
    let width : 0xc0 + n - 0xc0 ≡ n = omega arith in
    rw
      (
        is_list,
        shallow,
        no_byte,
        no_short,
        no_long,
        short,
        width,
        short_content-append content rest,
        e,
      )
      refl

pub decode_prefixed-long_list :
    (items : Bytes → Outcome Error Items) (l : Items) (content rest : Bytes) (d : ℕ)
    → 55 < length content
    → length content < 2 ^ 63
    → d < max_nesting_depth
    → items content ≡ ok l
    → decode_prefixed items
        (0xf7 + length (uint_to_bytes (length content)))
        (uint_to_bytes (length content) ++ (content ++ rest))
        d
      ≡ ok (list l, rest)
unfolding decode_prefixed
decode_prefixed-long_list items l content rest d long small deep e =
    let k = length (uint_to_bytes (length content)) in
    let (_, lo, hi) = decode_length-uint_to_bytes (length content) (omega arith) (omega arith) in
    let shallow : leb 64 d ≡ false = ground arith in
    let is_list : leb 0xc0 (0xf7 + k) ≡ true = ground arith in
    let no_byte : leb (0xf7 + k) 0x7f ≡ false = ground arith in
    let no_short : leb (0xf7 + k) 0xb7 ≡ false = ground arith in
    let no_long : leb (0xf7 + k) 0xbf ≡ false = ground arith in
    let no_short_list : leb (0xf7 + k) 0xf7 ≡ false = ground arith in
    let width : 0xf7 + k - 0xf7 ≡ k = omega arith in
    rw
      (
        is_list,
        shallow,
        no_byte,
        no_short,
        no_long,
        no_short_list,
        width,
        long_content-append content rest long small,
        e,
      )
      refl
