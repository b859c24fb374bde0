-- ===== src/Rlp/Fuel.antt =====
-- chain/rlp/rlp.go: the recursion of decodeItem and decodeListItems ends.
use trust.Prelude.{
  ℕ, zero, suc, ◌+◌, ◌*◌, ◌≤◌, ◌<◌, ◌≡◌, refl, [], ◌∷◌, arith, length, Outcome, ok, err, panic,
  ◌>>=◌, Bytes, subst,
}
use trust.Rlp.Codec.{Item, cons, Error, out_of_fuel, decode_item, decode_list_items}
use trust.Rlp.Contents.{
  Shorter, decode_prefixed-Shorter, decode_prefixed_same, Ends, >>=-Ends, ok-Ends,
  decode_prefixed-Ends,
}

>>=-agree :
    {A B : Type 0} (m m' : Outcome Error A) (k k' : A → Outcome Error B)
    → m ≡ m'
    → ((a : A) → m ≡ ok a → k a ≡ k' a)
    → (m >>= k) ≡ (m' >>= k')
>>=-agree (ok a) m' k k' same agree = subst (λ o. k a ≡ (o >>= k')) same (agree a refl)
>>=-agree (err e) m' k k' same agree = subst (λ o. err e ≡ (o >>= k')) same refl
>>=-agree panic m' k k' same agree = subst (λ o. panic ≡ (o >>= k')) same refl

decode_item-Shorter :
    (f : ℕ) (b : Bytes) (d : ℕ) (v : Item) (rest : Bytes)
    → decode_item f b d ≡ ok (v, rest)
    → length rest < length b
unfolding decode_item
decode_item-Shorter zero b d v rest h = absurd (cc)
decode_item-Shorter (suc f) [] d v rest h = absurd (cc)
decode_item-Shorter (suc f) (prefix ∷ tail) d v rest h =
    let shorter =
      decode_prefixed-Shorter (λ payload. decode_list_items f payload (d + 1)) prefix tail d in
    let le : length rest ≤ length tail = subst (λ o. Shorter (length tail) o) h shorter in
    omega arith

decode_item_same :
    (f g prefix : ℕ) (tail : Bytes) (d : ℕ)
    → ((payload : Bytes)
        → length payload ≤ length tail
        → decode_list_items f payload (d + 1) ≡ decode_list_items g payload (d + 1))
    → decode_item (suc f) (prefix ∷ tail) d ≡ decode_item (suc g) (prefix ∷ tail) d
unfolding decode_item
decode_item_same f g prefix tail d same =
    decode_prefixed_same (λ payload. decode_list_items f payload (d + 1))
      (λ payload. decode_list_items g payload (d + 1)) prefix tail d same

decode_list_items_same :
    (f g c : ℕ) (b : Bytes) (d : ℕ)
    → decode_item f (c ∷ b) d ≡ decode_item g (c ∷ b) d
    → ((rest : Bytes)
        → length rest ≤ length b
        → decode_list_items f rest d ≡ decode_list_items g rest d)
    → decode_list_items (suc f) (c ∷ b) d ≡ decode_list_items (suc g) (c ∷ b) d
unfolding decode_list_items
decode_list_items_same f g c b d same same' =
    >>=-agree (decode_item f (c ∷ b) d) (decode_item g (c ∷ b) d) _ _ same (λ (v, rest) e.
      rw (same' rest (let lt = decode_item-Shorter f (c ∷ b) d v rest e in omega arith)) refl)

decode_list_items-empty :
    (f g d : ℕ) → decode_list_items (suc f) [] d ≡ decode_list_items (suc g) [] d
unfolding decode_list_items
decode_list_items-empty f g d = refl

decode_item-empty : (f g d : ℕ) → decode_item (suc f) [] d ≡ decode_item (suc g) [] d
unfolding decode_item
decode_item-empty f g d = refl

mutual
  decode_item-fuel :
      (f g : ℕ) (b : Bytes) (d : ℕ)
      → 2 * length b + 1 ≤ f
      → 2 * length b + 1 ≤ g
      → decode_item f b d ≡ decode_item g b d
  decode_item-fuel zero g b d h k = absurd (omega arith)
  decode_item-fuel (suc f) zero b d h k = absurd (omega arith)
  decode_item-fuel (suc f) (suc g) [] d h k = decode_item-empty f g d
  decode_item-fuel (suc f) (suc g) (prefix ∷ tail) d h k =
      decode_item_same f g prefix tail d
        (λ payload le. decode_list_items-fuel f g payload (d + 1) (omega arith) (omega arith))

  decode_list_items-fuel :
      (f g : ℕ) (b : Bytes) (d : ℕ)
      → 2 * length b + 2 ≤ f
      → 2 * length b + 2 ≤ g
      → decode_list_items f b d ≡ decode_list_items g b d
  decode_list_items-fuel zero g b d h k = absurd (omega arith)
  decode_list_items-fuel (suc f) zero b d h k = absurd (omega arith)
  decode_list_items-fuel (suc f) (suc g) [] d h k = decode_list_items-empty f g d
  decode_list_items-fuel (suc f) (suc g) (c ∷ b) d h k =
      decode_list_items_same f g c b d (decode_item-fuel f g (c ∷ b) d (omega arith) (omega arith))
        (λ rest le. decode_list_items-fuel f g rest d (omega arith) (omega arith))

decode_item-step-Ends :
    (f prefix : ℕ) (tail : Bytes) (d : ℕ)
    → ((payload : Bytes)
        → length payload ≤ length tail
        → Ends (decode_list_items f payload (d + 1)))
    → Ends (decode_item (suc f) (prefix ∷ tail) d)
unfolding decode_item
decode_item-step-Ends f prefix tail d h =
    decode_prefixed-Ends (λ payload. decode_list_items f payload (d + 1)) prefix tail d h

decode_list_items-step-Ends :
    (f c : ℕ) (b : Bytes) (d : ℕ)
    → Ends (decode_item f (c ∷ b) d)
    → ((rest : Bytes) → length rest ≤ length b → Ends (decode_list_items f rest d))
    → Ends (decode_list_items (suc f) (c ∷ b) d)
unfolding decode_list_items
decode_list_items-step-Ends f c b d h k = >>=-Ends (decode_item f (c ∷ b) d) _ h (λ (v, rest) e.
    let lt = decode_item-Shorter f (c ∷ b) d v rest e in
    >>=-Ends (decode_list_items f rest d) _ (k rest (omega arith))
      (λ vals _. ok-Ends (cons v vals)))

decode_item-empty-Ends : (f d : ℕ) → Ends (decode_item (suc f) [] d)
unfolding decode_item
decode_item-empty-Ends f d = λ q. absurd (cc q)

decode_list_items-empty-Ends : (f d : ℕ) → Ends (decode_list_items (suc f) [] d)
unfolding decode_list_items
decode_list_items-empty-Ends f d = λ q. absurd (cc q)

mutual
  decode_item-Ends : (f : ℕ) (b : Bytes) (d : ℕ) → 2 * length b + 1 ≤ f → Ends (decode_item f b d)
  decode_item-Ends zero b d h = absurd (omega arith)
  decode_item-Ends (suc f) [] d h = decode_item-empty-Ends f d
  decode_item-Ends (suc f) (prefix ∷ tail) d h =
      decode_item-step-Ends f prefix tail d
        (λ payload le. decode_list_items-Ends f payload (d + 1) (omega arith))

  decode_list_items-Ends :
      (f : ℕ) (b : Bytes) (d : ℕ) → 2 * length b + 2 ≤ f → Ends (decode_list_items f b d)
  decode_list_items-Ends zero b d h = absurd (omega arith)
  decode_list_items-Ends (suc f) [] d h = decode_list_items-empty-Ends f d
  decode_list_items-Ends (suc f) (c ∷ b) d h =
      decode_list_items-step-Ends f c b d (decode_item-Ends f (c ∷ b) d (omega arith))
        (λ rest le. decode_list_items-Ends f rest d (omega arith))

-- The recursion of decodeItem ends on every input and at every depth: with two units of fuel for each
-- byte and one more it is never cut off, and any amount above that gives the same result.
pub decode_item_terminates :
    (extra : ℕ) (b : Bytes) (d : ℕ)
    → ¬ (decode_item (2 * length b + 1) b d ≡ err out_of_fuel)
      × (decode_item (2 * length b + 1 + extra) b d ≡ decode_item (2 * length b + 1) b d)
decode_item_terminates extra b d = (
  decode_item-Ends (2 * length b + 1) b d (omega arith),
  decode_item-fuel (2 * length b + 1 + extra) (2 * length b + 1) b d (omega arith) (omega arith),
)
