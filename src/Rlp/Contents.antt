-- ===== src/Rlp/Contents.antt =====
-- chain/rlp/rlp.go: what decodeItem cuts off the bytes it is given.
use trust.Prelude.{
  ℕ, [], ◌∷◌, ◌+◌, ◌-◌, ◌%◌, ◌^◌, ◌≤◌, ◌≡◌, refl, ◌&&◌, arith, length, length-take, length-drop,
  take, drop, leb, ltb, Outcome, ok, err, panic, ◌>>=◌, Bytes, Bool-cases, inl, inr,
}
use trust.Rlp.Codec.{
  Item, Items, string, list, Error, nesting_limit, out_of_fuel, decode_length, short_content,
  long_content, cut_long, check_single, decode_prefixed,
}

-- A content and the rest after it are no longer than what they were cut from.
abbrev pub Fits : ℕ → Outcome Error (Bytes × Bytes) → Type 0
Fits room (ok (content, rest)) = length content + length rest ≤ room
Fits room (err e) = Unit {0}
Fits room panic = Unit {0}

abbrev pub Shorter {ℓ} : {A : Type ℓ} → ℕ → Outcome Error (A × Bytes) → Type 0
Shorter room (ok (v, rest)) = length rest ≤ room
Shorter room (err e) = Unit {0}
Shorter room panic = Unit {0}

short_content-Fits : (n : ℕ) (tail : Bytes) → Fits (length tail) (short_content n tail)
unfolding short_content
short_content-Fits n tail = elim (Bool-cases (ltb (1 + length tail) (1 + n))) [
  | inl t ↦ rw t tt
  | inr t ↦ rw t (omega (arith, length-take n tail, length-drop n tail))
]

cut_long-Fits : (k : ℕ) (tail : Bytes) (n : ℕ) → Fits (length tail) (cut_long k tail n)
unfolding cut_long
cut_long-Fits k tail n =
    let end = (1 + k + n) % 2 ^ 64 in
    let rest = drop k tail in
    elim (Bool-cases (leb n 55)) [
      | inl t ↦ rw t tt
      | inr t ↦ rw t (elim (Bool-cases (ltb (1 + length tail) end)) [
        | inl u ↦ rw u tt
        | inr u ↦ rw u (elim (Bool-cases (ltb end (1 + k))) [
          | inl v ↦ rw v tt
          | inr v ↦ rw v (
              omega (
                arith,
                length-take (end - (1 + k)) rest,
                length-drop (end - (1 + k)) rest,
                length-drop k tail,
              ))
        ])
      ])
    ]

>>=-Fits :
    {A : Type 0} (room : ℕ) (m : Outcome Error A) (next : A → Outcome Error (Bytes × Bytes))
    → ((a : A) → Fits room (next a))
    → Fits room (m >>= next)
>>=-Fits room (ok a) next h = h a
>>=-Fits room (err e) next h = tt
>>=-Fits room panic next h = tt

long_content-Fits : (k : ℕ) (tail : Bytes) → Fits (length tail) (long_content k tail)
unfolding long_content
long_content-Fits k tail = elim (Bool-cases (ltb (1 + length tail) (1 + k))) [
  | inl t ↦ rw t tt
  | inr t ↦ rw t (
      >>=-Fits (length tail) (decode_length (take k tail)) (cut_long k tail) (cut_long-Fits k tail))
]

-- What decodeItem makes of a content: a value, and the rest.
abbrev pub paired :
    {A : Type 0}
    → (Bytes → Outcome Error A)
    → (A → Item)
    → Bytes × Bytes
    → Outcome Error (Item × Bytes)
paired read make (content, rest) = read content >>= λ a. ok (make a, rest)

with_rest-Shorter :
    {A : Type 0} (room : ℕ) (m : Outcome Error A) (make : A → Item) (rest : Bytes)
    → length rest ≤ room
    → Shorter room (m >>= λ a. ok (make a, rest))
with_rest-Shorter room (ok a) make rest h = h
with_rest-Shorter room (err e) make rest h = tt
with_rest-Shorter room panic make rest h = tt

paired-Shorter :
    {A : Type 0} (room : ℕ) (m : Outcome Error (Bytes × Bytes)) (read : Bytes → Outcome Error A)
    (make : A → Item)
    → Fits room m
    → Shorter room (m >>= paired read make)
paired-Shorter room (ok (content, rest)) read make h =
    with_rest-Shorter room (read content) make rest (omega arith)
paired-Shorter room (err e) read make h = tt
paired-Shorter room panic read make h = tt

-- Two readers that agree on the contents that fit.
paired_same :
    {A : Type 0} (room : ℕ) (m : Outcome Error (Bytes × Bytes))
    (read read' : Bytes → Outcome Error A) (make : A → Item)
    → Fits room m
    → ((content : Bytes) → length content ≤ room → read content ≡ read' content)
    → (m >>= paired read make) ≡ (m >>= paired read' make)
paired_same room (ok (content, rest)) read read' make h same = rw (same content (omega arith)) refl
paired_same room (err e) read read' make h same = refl
paired_same room panic read read' make h same = refl

-- What holds of the six ways in which decodeItem goes on holds of what it returns.
pub decode_prefixed-cases {ℓ} :
    (P : Outcome Error (Item × Bytes) → Type ℓ) (items : Bytes → Outcome Error Items) (prefix : ℕ)
    (tail : Bytes) (d : ℕ)
    → P (err nesting_limit)
    → P (ok (string (prefix ∷ []), tail))
    → P (short_content (prefix - 0x80) tail >>= paired check_single string)
    → P (long_content (prefix - 0xb7) tail >>= λ (str, rest). ok (string str, rest))
    → P (short_content (prefix - 0xc0) tail >>= paired items list)
    → P (long_content (prefix - 0xf7) tail >>= paired items list)
    → P (decode_prefixed items prefix tail d)
unfolding decode_prefixed
decode_prefixed-cases P items prefix tail d nested single short_string long_string short_list
      long_list =
    elim (Bool-cases (leb 0xc0 prefix && leb 64 d)) [
      | inl t ↦ rw t nested
      | inr t ↦ rw t (elim (Bool-cases (leb prefix 0x7f)) [
        | inl u ↦ rw u single
        | inr u ↦ rw u (elim (Bool-cases (leb prefix 0xb7)) [
          | inl v ↦ rw v short_string
          | inr v ↦ rw v (elim (Bool-cases (leb prefix 0xbf)) [
            | inl w ↦ rw w long_string
            | inr w ↦ rw w (elim (Bool-cases (leb prefix 0xf7)) [
              | inl x ↦ rw x short_list
              | inr x ↦ rw x long_list
            ])
          ])
        ])
      ])
    ]

pub decode_prefixed-Shorter :
    (items : Bytes → Outcome Error Items) (prefix : ℕ) (tail : Bytes) (d : ℕ)
    → Shorter (length tail) (decode_prefixed items prefix tail d)
decode_prefixed-Shorter items prefix tail d =
    decode_prefixed-cases (Shorter (length tail)) items prefix tail d tt (omega arith)
      (paired-Shorter _ _ check_single string (short_content-Fits (prefix - 0x80) tail))
      (paired-Shorter _ _ ok string (long_content-Fits (prefix - 0xb7) tail))
      (paired-Shorter _ _ items list (short_content-Fits (prefix - 0xc0) tail))
      (paired-Shorter _ _ items list (long_content-Fits (prefix - 0xf7) tail))

pub decode_prefixed_same :
    (items items' : Bytes → Outcome Error Items) (prefix : ℕ) (tail : Bytes) (d : ℕ)
    → ((payload : Bytes) → length payload ≤ length tail → items payload ≡ items' payload)
    → decode_prefixed items prefix tail d ≡ decode_prefixed items' prefix tail d
unfolding decode_prefixed
decode_prefixed_same items items' prefix tail d same =
    elim (Bool-cases (leb 0xc0 prefix && leb 64 d)) [
      | inl t ↦ rw t refl
      | inr t ↦ rw t (elim (Bool-cases (leb prefix 0x7f)) [
        | inl u ↦ rw u refl
        | inr u ↦ rw u (elim (Bool-cases (leb prefix 0xb7)) [
          | inl v ↦ rw v refl
          | inr v ↦ rw v (elim (Bool-cases (leb prefix 0xbf)) [
            | inl w ↦ rw w refl
            | inr w ↦ rw w (elim (Bool-cases (leb prefix 0xf7)) [
              | inl x ↦
                  rw x (
                    paired_same _ _ items items' list (short_content-Fits (prefix - 0xc0) tail)
                      same)
              | inr x ↦
                  rw x (
                    paired_same _ _ items items' list (long_content-Fits (prefix - 0xf7) tail) same)
            ])
          ])
        ])
      ])
    ]

-- Not cut off for want of fuel.
abbrev pub Ends {ℓ} : {A : Type ℓ} → Outcome Error A → Type ℓ
Ends o = ¬ (o ≡ err out_of_fuel)

pub >>=-Ends {ℓ κ} :
    {A : Type ℓ} {B : Type κ} (m : Outcome Error A) (k : A → Outcome Error B)
    → Ends m
    → ((a : A) → m ≡ ok a → Ends (k a))
    → Ends (m >>= k)
>>=-Ends (ok a) k h f = f a refl
>>=-Ends (err e) k h f = λ q. h (cc q)
>>=-Ends panic k h f = λ q. absurd (cc q)

pub ok-Ends {ℓ} : {A : Type ℓ} (a : A) → Ends (ok a)
ok-Ends a = λ q. absurd (cc q)

short_content-Ends : (n : ℕ) (tail : Bytes) → Ends (short_content n tail)
unfolding short_content
short_content-Ends n tail = λ q. ground arith

cut_long-Ends : (k : ℕ) (tail : Bytes) (n : ℕ) → Ends (cut_long k tail n)
unfolding cut_long
cut_long-Ends k tail n = λ q. ground arith

decode_length-Ends : (b : Bytes) → Ends (decode_length b)
unfolding decode_length
decode_length-Ends [] = λ q. absurd (cc q)
decode_length-Ends (c ∷ b) = λ q. ground arith

check_single-Ends : (b : Bytes) → Ends (check_single b)
unfolding check_single
check_single-Ends [] = λ q. absurd (cc q)
check_single-Ends (c ∷ b) = λ q. ground arith

long_content-Ends : (k : ℕ) (tail : Bytes) → Ends (long_content k tail)
unfolding long_content
long_content-Ends k tail = elim (Bool-cases (ltb (1 + length tail) (1 + k))) [
  | inl t ↦ rw t (λ q. absurd (cc q))
  | inr t ↦ rw t (
      >>=-Ends (decode_length (take k tail)) (cut_long k tail) (decode_length-Ends (take k tail))
        (λ n _. cut_long-Ends k tail n))
]

paired-Ends :
    {A : Type 0} (room : ℕ) (m : Outcome Error (Bytes × Bytes)) (read : Bytes → Outcome Error A)
    (make : A → Item)
    → Fits room m
    → Ends m
    → ((content : Bytes) → length content ≤ room → Ends (read content))
    → Ends (m >>= paired read make)
paired-Ends room (ok (content, rest)) read make h e f =
    >>=-Ends (read content) _ (f content (omega arith)) (λ a _. ok-Ends (make a, rest))
paired-Ends room (err e) read make h g f = λ q. g (cc q)
paired-Ends room panic read make h g f = λ q. absurd (cc q)

pub decode_prefixed-Ends :
    (items : Bytes → Outcome Error Items) (prefix : ℕ) (tail : Bytes) (d : ℕ)
    → ((payload : Bytes) → length payload ≤ length tail → Ends (items payload))
    → Ends (decode_prefixed items prefix tail d)
decode_prefixed-Ends items prefix tail d f =
    decode_prefixed-cases Ends items prefix tail d (λ q. absurd (cc q)) (ok-Ends _)
      (paired-Ends (length tail) _ check_single string (short_content-Fits (prefix - 0x80) tail)
        (short_content-Ends (prefix - 0x80) tail) (λ content _. check_single-Ends content))
      (paired-Ends (length tail) _ ok string (long_content-Fits (prefix - 0xb7) tail)
        (long_content-Ends (prefix - 0xb7) tail) (λ content _. ok-Ends content))
      (paired-Ends _ _ items list (short_content-Fits (prefix - 0xc0) tail)
        (short_content-Ends (prefix - 0xc0) tail) f)
      (paired-Ends _ _ items list (long_content-Fits (prefix - 0xf7) tail)
        (long_content-Ends (prefix - 0xf7) tail) f)
