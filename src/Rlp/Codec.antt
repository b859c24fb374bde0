-- ===== src/Rlp/Codec.antt =====
-- chain/rlp/rlp.go: the encoder and the decoder. An `interface{}` that Decode returns is an `Item`.
use trust.Prelude.{
  ℕ, zero, suc, ◌+◌, ◌-◌, ◌*◌, ◌/◌, ◌%◌, ◌^◌, List, [], ◌∷◌, ◌++◌, ◌&&◌, if◌then◌else◌, length,
  take, drop, ltb, leb, ◌==◌, Outcome, ok, err, panic, ◌>>=◌, Bytes,
}

-- The errors of the package, and `out_of_fuel`, which is no result of the code: the recursion of the
-- model was cut off. `panic` is a panic of the Go runtime only.
pub data Error : Type 0 where
  truncated invalid_encoding trailing_bytes input_too_large nesting_limit out_of_fuel : Error

abbrev pub max_input_len : ℕ
max_input_len = 10 * 2 ^ 20

abbrev pub max_nesting_depth : ℕ
max_nesting_depth = 64

mutual
  pub data Item : Type 0 where
    string : Bytes → Item
    list : Items → Item

  pub data Items : Type 0 where
    nil : Items
    cons : Item → Items → Items

-- `binary.BigEndian.PutUint64`.
abbrev pub put_uint64 : ℕ → Bytes
put_uint64 n =
    (n / 2 ^ 56 % 256)
    ∷ (n / 2 ^ 48 % 256)
    ∷ (n / 2 ^ 40 % 256)
    ∷ (n / 2 ^ 32 % 256)
    ∷ (n / 2 ^ 24 % 256)
    ∷ (n / 2 ^ 16 % 256)
    ∷ (n / 2 ^ 8 % 256)
    ∷ (n % 256)
    ∷ []

-- `for i < 7 && buf[i] == 0 { i++ }` and `buf[i:]`.
unfoldable pub skip_zeros : ℕ → Bytes → Bytes
skip_zeros zero bytes = bytes
skip_zeros (suc k) [] = []
skip_zeros (suc k) (b ∷ bytes) = let rest = skip_zeros k bytes in if b == 0 then rest else b ∷ bytes

unfoldable pub uint_to_bytes : ℕ → Bytes
unfolding skip_zeros
uint_to_bytes n = if n == 0 then [] else skip_zeros 7 (put_uint64 n)

unfoldable pub encode_bytes : Bytes → Bytes
encode_bytes [] = 0x80 ∷ []
encode_bytes (b ∷ bytes) =
    if (length (b ∷ bytes) == 1) && ltb b 0x80
    then b ∷ []
    else if leb (length (b ∷ bytes)) 55
    then (0x80 + length (b ∷ bytes)) ∷ b ∷ bytes
    else let len_bytes = uint_to_bytes (length (b ∷ bytes)) in
      (0xb7 + length len_bytes) ∷ (len_bytes ++ b ∷ bytes)

-- The items one behind the other, as the copying loop lays them out.
unfoldable pub concat : List Bytes → Bytes
concat [] = []
concat (item ∷ items) = item ++ concat items

unfoldable pub encode_payload : Bytes → Bytes
encode_payload payload =
    if leb (length payload) 55
    then (0xc0 + length payload) ∷ payload
    else let len_bytes = uint_to_bytes (length payload) in
      (0xf7 + length len_bytes) ∷ (len_bytes ++ payload)

unfoldable pub encode_list : List Bytes → Bytes
encode_list items = encode_payload (concat items)

unfoldable pub encode_uint64 : ℕ → Bytes
unfolding encode_bytes skip_zeros
encode_uint64 n = if n == 0 then encode_bytes [] else encode_bytes (skip_zeros 7 (put_uint64 n))

-- `n = (n << 8) | uint64(c)`: the low byte of the shifted number is 0.
unfoldable pub read_digits : ℕ → Bytes → ℕ
read_digits n [] = n
read_digits n (c ∷ bytes) = read_digits (n * 256 % 2 ^ 64 + c) bytes

unfoldable pub decode_length : Bytes → Outcome Error ℕ
decode_length [] = err truncated
decode_length (b ∷ bytes) =
    if ltb 1 (length (b ∷ bytes)) && (b == 0)
    then err invalid_encoding
    else ok (read_digits 0 (b ∷ bytes))

-- The bytes after the prefix, cut at `1+length`: the content and the rest.
unfoldable pub short_content : ℕ → Bytes → Outcome Error (Bytes × Bytes)
short_content n tail =
    if ltb (1 + length tail) (1 + n) then err truncated else ok (take n tail, drop n tail)

-- Below decodeLength in the long forms. The sum is one of `uint64`, and `b[1+lenOfLen : end]` panics
-- where `end` is smaller.
unfoldable pub cut_long : ℕ → Bytes → ℕ → Outcome Error (Bytes × Bytes)
cut_long len_of_len tail n =
    if leb n 55
    then err invalid_encoding
    else let end = (1 + len_of_len + n) % 2 ^ 64 in
      if ltb (1 + length tail) end
      then err truncated
      else if ltb end (1 + len_of_len)
      then panic
      else let rest = drop len_of_len tail in
        ok (take (end - (1 + len_of_len)) rest, drop (end - (1 + len_of_len)) rest)

-- The long forms: [prefix] [len] content.
unfoldable pub long_content : ℕ → Bytes → Outcome Error (Bytes × Bytes)
long_content len_of_len tail =
    if ltb (1 + length tail) (1 + len_of_len)
    then err truncated
    else (decode_length (take len_of_len tail) >>= λ n. cut_long len_of_len tail n)

unfoldable pub check_single : Bytes → Outcome Error Bytes
check_single [] = ok []
check_single (s ∷ str) =
    if (length (s ∷ str) == 1) && ltb s 0x80 then err invalid_encoding else ok (s ∷ str)

-- decodeItem below the tests on `len(b)` and the prefix, where `items` decodes a payload.
unfoldable pub decode_prefixed :
    (Bytes → Outcome Error Items) → ℕ → Bytes → ℕ → Outcome Error (Item × Bytes)
decode_prefixed items prefix tail depth =
    if leb 0xc0 prefix && leb max_nesting_depth depth
    then err nesting_limit
    else if leb prefix 0x7f
    then ok (string (prefix ∷ []), tail)
    else if leb prefix 0xb7
    then (short_content (prefix - 0x80) tail >>= λ (str, rest).
        check_single str >>= λ s. ok (string s, rest))
    else if leb prefix 0xbf
    then (long_content (prefix - 0xb7) tail >>= λ (str, rest). ok (string str, rest))
    else if leb prefix 0xf7
    then (short_content (prefix - 0xc0) tail >>= λ (payload, rest).
        items payload >>= λ l. ok (list l, rest))
    else (long_content (prefix - 0xf7) tail >>= λ (payload, rest).
        items payload >>= λ l. ok (list l, rest))

-- decodeItem and the loop of decodeListItems, on fuel that a call of either spends.
unfoldable mutual
  pub decode_item : ℕ → Bytes → ℕ → Outcome Error (Item × Bytes)
  decode_item zero b depth = err out_of_fuel
  decode_item (suc fuel) [] depth = err truncated
  decode_item (suc fuel) (prefix ∷ tail) depth =
      decode_prefixed (λ payload. decode_list_items fuel payload (depth + 1)) prefix tail depth

  pub decode_list_items : ℕ → Bytes → ℕ → Outcome Error Items
  decode_list_items zero b depth = err out_of_fuel
  decode_list_items (suc fuel) [] depth = ok nil
  decode_list_items (suc fuel) (c ∷ b) depth = decode_item fuel (c ∷ b) depth >>= λ (val, rest).
      decode_list_items fuel rest depth >>= λ vals. ok (cons val vals)

-- Each item takes a byte at least, so two units a byte and one more are enough.
unfoldable pub decode : Bytes → Outcome Error Item
decode b =
    if length b == 0
    then err truncated
    else if ltb max_input_len (length b)
    then err input_too_large
    else (decode_item (2 * length b + 1) b 0 >>= λ (val, rest).
        if ltb 0 (length rest) then err trailing_bytes else ok val)
