-- ===== src/Verification/Base58.antt =====
-- verification/binder.go: decodeBase58BTC. The output is kept with its last byte first, as the inner
-- loop walks it.
use mathlib.Core.Option.{map as map_option}
use trust.Prelude.{
  ℕ, zero, suc, ◌+◌, ◌*◌, ◌/◌, ◌%◌, ◌≤◌, ◌≡◌, refl, ap, ◌∙◌, [], ◌∷◌, ◌++◌, Option, none, some,
  if◌then◌else◌, Bool, true, false, ◌==◌, length, arith, Bytes, codes,
}

abbrev pub base58_alphabet : Bytes
base58_alphabet = codes "123456789ABCDEFGHJKLMNPQRSTUVWXYZabcdefghijkmnopqrstuvwxyz"

-- `strings.IndexByte` from the index `i` on; `none` is -1.
unfoldable pub index_byte : ℕ → Bytes → ℕ → Option ℕ
index_byte i [] c = none
index_byte i (x ∷ xs) c = let rest = index_byte (suc i) xs c in if x == c then some i else rest

-- `for carry > 0`, on fuel.
unfoldable carry_bytes : ℕ → ℕ → Bytes
carry_bytes zero carry = []
carry_bytes (suc fuel) carry =
    let rest = carry_bytes fuel (carry / 256) in if carry == 0 then [] else carry % 256 ∷ rest

-- The two inner loops for one character.
unfoldable push_digit : ℕ → Bytes → Bytes
unfolding carry_bytes
push_digit carry [] = carry_bytes (suc carry) carry
push_digit carry (b ∷ out) = (carry + 58 * b) % 256 ∷ push_digit ((carry + 58 * b) / 256) out

-- The loop over the characters.
unfoldable decode_digits : Bytes → Bytes → Option Bytes
unfolding push_digit index_byte
decode_digits [] out = some out
decode_digits (c ∷ s) out = elim (index_byte 0 base58_alphabet c) [
  | none ↦ none
  | some idx ↦ decode_digits s (push_digit idx out)
]

-- The number that the output stands for.
abbrev pub value : Bytes → ℕ
value [] = 0
value (b ∷ out) = b + 256 * value out

value-carry_bytes : (fuel carry : ℕ) → carry ≤ fuel → value (carry_bytes fuel carry) ≡ carry
unfolding carry_bytes
value-carry_bytes zero carry h = omega arith
value-carry_bytes (suc fuel) carry h =
    let rest : carry / 256 ≤ fuel → value (carry_bytes fuel (carry / 256)) ≡ carry / 256 =
      value-carry_bytes fuel (carry / 256) in
    ground (arith, rest)

value-push_digit : (carry : ℕ) (out : Bytes) → value (push_digit carry out) ≡ carry + 58 * value out
unfolding push_digit
value-push_digit carry [] = value-carry_bytes (suc carry) carry (omega arith) ∙ omega arith
value-push_digit carry (b ∷ out) =
    let rest = value-push_digit ((carry + 58 * b) / 256) out in omega (arith, rest)

-- The bytes in their order.
abbrev pub reversed : Bytes → Bytes
reversed [] = []
reversed (b ∷ out) = reversed out ++ (b ∷ [])

-- The last loop: a zero byte for each leading '1'.
unfoldable with_zeros : Bytes → Bytes → Bytes
with_zeros [] out = out
with_zeros (c ∷ s) out = let rest = with_zeros s out in if c == 49 then 0 ∷ rest else out

abbrev finish : Bytes → Option Bytes → Option Bytes
finish s none = none
finish s (some out) = some (with_zeros s (reversed out))

-- `none` where it returns an error.
unfoldable pub decode_base58_btc : Bytes → Option Bytes
unfolding decode_digits with_zeros
decode_base58_btc s = if length s == 0 then none else finish s (decode_digits s [])

-- The number that a text stands for in base 58, after `acc`.
abbrev pub base58_number : ℕ → Bytes → Option ℕ
base58_number acc [] = some acc
base58_number acc (c ∷ s) = elim (index_byte 0 base58_alphabet c) [
  | none ↦ none
  | some idx ↦ base58_number (idx + 58 * acc) s
]

-- The number that bytes stand for, most significant first.
abbrev pub number : ℕ → Bytes → ℕ
number acc [] = acc
number acc (b ∷ bytes) = number (acc * 256 + b) bytes

number-snoc : (acc : ℕ) (xs : Bytes) (b : ℕ) → number acc (xs ++ (b ∷ [])) ≡ number acc xs * 256 + b
number-snoc acc [] b = refl
number-snoc acc (x ∷ xs) b = number-snoc (acc * 256 + x) xs b

number-reversed : (out : Bytes) → number 0 (reversed out) ≡ value out
number-reversed [] = refl
number-reversed (b ∷ out) =
    let rest = number-reversed out in number-snoc 0 (reversed out) b ∙ omega (arith, rest)

number-with_zeros : (s out : Bytes) → number 0 (with_zeros s out) ≡ number 0 out
unfolding with_zeros
number-with_zeros [] out = refl
number-with_zeros (c ∷ s) out = ground (arith, number-with_zeros s out)

decode_digits-number :
    (s out : Bytes) → map_option value (decode_digits s out) ≡ base58_number (value out) s
unfolding decode_digits
decode_digits-number [] out = refl
decode_digits-number (c ∷ s) out =
    digit (index_byte 0 base58_alphabet c) (λ idx. decode_digits-number s (push_digit idx out))
  where
    digit :
        (o : Option ℕ)
        → ((idx : ℕ)
            → map_option value (decode_digits s (push_digit idx out))
              ≡ base58_number (value (push_digit idx out)) s)
        → map_option value
            (elim o [ none ↦ none | some idx ↦ decode_digits s (push_digit idx out) ])
          ≡ elim o [ none ↦ none | some idx ↦ base58_number (idx + 58 * value out) s ]
    digit none goes = refl
    digit (some idx) goes = goes idx ∙ ap (λ (n : ℕ). base58_number n s) (value-push_digit idx out)

finish-number :
    (s : Bytes) (o : Option Bytes) → map_option (number 0) (finish s o) ≡ map_option value o
finish-number s none = refl
finish-number s (some out) = ap some (number-with_zeros s (reversed out) ∙ number-reversed out)

refused_or :
    (b : Bool) (o : Option Bytes) (n : Option ℕ)
    → map_option (number 0) o ≡ n
    → map_option (number 0) (if b then none else o) ≡ (if b then none else n)
refused_or true o n h = refl
refused_or false o n h = h

-- decodeBase58BTC refuses the empty text and a text with a character outside the alphabet, and no
-- other; what it returns stands in base 256 for the number that the text stands for in base 58.
pub decode_base58_btc-number :
    (s : Bytes)
    → map_option (number 0) (decode_base58_btc s)
      ≡ (if length s == 0 then none else base58_number 0 s)
unfolding decode_base58_btc
decode_base58_btc-number s =
    refused_or (length s == 0) (finish s (decode_digits s [])) (base58_number 0 s)
      (finish-number s (decode_digits s []) ∙ decode_digits-number s [])
