-- ===== src/Riecoin/Marks.antt =====
-- Which bits of the sieve end up marked.
use fastrie.Base.{
  ℕ, zero, suc, ◌+◌, ◌*◌, ◌/◌, ◌%◌, ◌^◌, ◌<◌, max, ◌≡◌, ◌≢◌, refl, ◌∙◌, sym, ap, false, Option,
  some, List, [], ◌∷◌, get_elem?, set, length-set, replicate, length, bit_or, test_bit,
  test_bit-bit_or, test_bit-pow_self, test_bit-pow_ne, lt→ltb, ◌==◌, ==_iff, if◌then◌else◌, if-true,
  if-false, All, arith, Bool-cases, inl, inr,
}
use fastrie.Riecoin.Sieve.{
  sieve_size, mark, Pending, init_pending, mark_pending, add_to_pending, flush_pending, add_hits,
  mark_segment,
}

abbrev pub byte_at : List ℕ → ℕ → ℕ
byte_at [] i = 0
byte_at (b ∷ bs) zero = b
byte_at (b ∷ bs) (suc i) = byte_at bs i

-- Bit `k` of the sieve, 0 or 1.
unfoldable pub marked : List ℕ → ℕ → ℕ
marked sieve k = test_bit (byte_at sieve (k / 8)) (k % 8)

-- Whether an entry stands for bit `k`; 0 is an empty slot.
unfoldable pub hit : ℕ → ℕ → ℕ
hit k ent = if ent == 0 then 0 else if ent == k then 1 else 0

unfoldable pub hits : ℕ → List ℕ → ℕ
unfolding hit
hits k [] = 0
hits k (ent ∷ ents) = max (hit k ent) (hits k ents)

pub byte_at-some : (bs : List ℕ) (i : ℕ) → i < length bs → get_elem? bs i ≡ some (byte_at bs i)
byte_at-some [] i h = absurd (omega arith)
byte_at-some (b ∷ bs) zero h = refl
byte_at-some (b ∷ bs) (suc i) h = byte_at-some bs i (omega arith)

byte_at-set_self : (bs : List ℕ) (i v : ℕ) → i < length bs → byte_at (set bs i v) i ≡ v
byte_at-set_self [] i v h = absurd (omega arith)
byte_at-set_self (b ∷ bs) zero v h = refl
byte_at-set_self (b ∷ bs) (suc i) v h = byte_at-set_self bs i v (omega arith)

byte_at-set_ne : (bs : List ℕ) (i j v : ℕ) → i ≢ j → byte_at (set bs i v) j ≡ byte_at bs j
byte_at-set_ne [] i j v h = refl
byte_at-set_ne (b ∷ bs) zero zero v h = absurd (h refl)
byte_at-set_ne (b ∷ bs) zero (suc j) v h = refl
byte_at-set_ne (b ∷ bs) (suc i) zero v h = refl
byte_at-set_ne (b ∷ bs) (suc i) (suc j) v h = byte_at-set_ne bs i j v (λ e. h (ap suc e))

-- Exactly one more bit.
abbrev one_more : ℕ → ℕ → ℕ
one_more ent k = if ent == k then 1 else 0

≢_from : {m n : ℕ} → (m == n) ≡ false → m ≢ n
≢_from {m} {n} e h = ground (arith, (==_iff m n).1 h)

≢_one_more : (ent k : ℕ) → ent ≢ k → one_more ent k ≡ 0
≢_one_more ent k h = ground arith

add_none : (a b : ℕ) → b ≡ 0 → a ≡ max a b
add_none a b e = omega (arith, e)

marked-set :
    (sieve : List ℕ) (ent k : ℕ)
    → ent / 8 < length sieve
    → marked (set sieve (ent / 8) (bit_or (byte_at sieve (ent / 8)) (2 ^ (ent % 8)))) k
      ≡ max (marked sieve k) (one_more ent k)
unfolding marked
marked-set sieve ent k h = elim (Bool-cases (ent / 8 == k / 8)) [
  | inr other ↦
      ap (λ b. test_bit b (k % 8)) (byte_at-set_ne sieve (ent / 8) (k / 8) _ (≢_from other))
      ∙ add_none (marked sieve k) (one_more ent k)
          (≢_one_more ent k (λ e. ≢_from other (ap (λ n. n / 8) e)))
  | inl same ↦ elim (Bool-cases (ent % 8 == k % 8)) [
    | inl same' ↦
        here ((==_iff (ent / 8) (k / 8)).0 same)
        ∙ ap (λ n. max (marked sieve k) n)
            (ap (λ j. test_bit (2 ^ (ent % 8)) j) (sym ((==_iff (ent % 8) (k % 8)).0 same'))
              ∙ test_bit-pow_self (ent % 8)
              ∙ sym (
                  if-true 1 0 (
                    (==_iff ent k).1 (
                      whole ((==_iff (ent / 8) (k / 8)).0 same)
                        ((==_iff (ent % 8) (k % 8)).0 same')))))
    | inr other' ↦
        here ((==_iff (ent / 8) (k / 8)).0 same)
        ∙ ap (λ n. max (marked sieve k) n)
            (test_bit-pow_ne (ent % 8) (k % 8) (≢_from other')
              ∙ sym (≢_one_more ent k (λ e. ≢_from other' (ap (λ n. n % 8) e))))
  ]
]
  where
    word : ℕ
    word = bit_or (byte_at sieve (ent / 8)) (2 ^ (ent % 8))

    whole : ent / 8 ≡ k / 8 → ent % 8 ≡ k % 8 → ent ≡ k
    whole e e' = omega (arith, e, e')

    here :
        ent / 8 ≡ k / 8
        → test_bit (byte_at (set sieve (ent / 8) word) (k / 8)) (k % 8)
          ≡ max (marked sieve k) (test_bit (2 ^ (ent % 8)) (k % 8))
    here e =
        ap (λ i. test_bit (byte_at (set sieve (ent / 8) word) i) (k % 8)) (sym e)
        ∙ ap (λ b. test_bit b (k % 8)) (byte_at-set_self sieve (ent / 8) word h)
        ∙ test_bit-bit_or (byte_at sieve (ent / 8)) (2 ^ (ent % 8)) (k % 8)
        ∙ ap (λ i. max (test_bit (byte_at sieve i) (k % 8)) (test_bit (2 ^ (ent % 8)) (k % 8))) e

pub mark_lem :
    (sieve : List ℕ) (ent : ℕ)
    → ent / 8 < length sieve
    → (sieve' : List ℕ) × (mark sieve ent ≡ some sieve')
      × (length sieve' ≡ length sieve)
      × ((k : ℕ) → marked sieve' k ≡ max (marked sieve k) (one_more ent k))
unfolding mark
mark_lem sieve ent h = (
  set sieve (ent / 8) (bit_or (byte_at sieve (ent / 8)) (2 ^ (ent % 8))),
  rw (byte_at-some sieve (ent / 8) h, mark) refl,
  length-set sieve (ent / 8) _,
  λ k. marked-set sieve ent k h,
)

-- What the sieve is after the marks of some entries.
abbrev pub Marks : List ℕ → (ℕ → ℕ) → Option (List ℕ) → Type 0
Marks sieve added o =
    (sieve' : List ℕ) × (o ≡ some sieve')
    × (length sieve' ≡ length sieve)
    × ((k : ℕ) → marked sieve' k ≡ max (marked sieve k) (added k))

mark_pending_lem :
    (sieve : List ℕ) (old : ℕ)
    → 8 * length sieve ≡ sieve_size
    → old < sieve_size
    → Marks sieve (λ k. hit k old) (mark_pending sieve old)
unfolding mark_pending hit
mark_pending_lem sieve old wide h = elim (Bool-cases (old == 0)) [
  | inl e ↦ (sieve, if-true _ _ e, refl, λ k. add_none (marked sieve k) _ (if-true _ _ e))
  | inr e ↦
      let (sieve', e', same, bits) = mark_lem sieve old (omega (arith, wide)) in
      (
        sieve',
        if-false _ _ e ∙ if-true _ _ (lt→ltb _ _ h) ∙ e',
        same,
        λ k. bits k ∙ ap (λ n. max (marked sieve k) n) (sym (if-false _ _ e)),
      )
]

abbrev pub AllBelow : List ℕ → Type 0
AllBelow ents = All (λ ent. ent < sieve_size) ents

set-AllBelow : (xs : List ℕ) (i v : ℕ) → AllBelow xs → v < sieve_size → AllBelow (set xs i v)
set-AllBelow [] i v a h = tt
set-AllBelow (x ∷ xs) zero v (a, rest) h = (h, rest)
set-AllBelow (x ∷ xs) (suc i) v (a, rest) h = (a, set-AllBelow xs i v rest h)

-- Replacing an entry loses no other.
hits-set :
    (k : ℕ) (xs : List ℕ) (i v : ℕ)
    → i < length xs
    → max (hits k (set xs i v)) (hit k (byte_at xs i)) ≡ max (hits k xs) (hit k v)
unfolding hits
hits-set k [] i v h = absurd (omega arith)
hits-set k (x ∷ xs) zero v h = omega arith
hits-set k (x ∷ xs) (suc i) v h = omega (arith, hits-set k xs i v (omega arith))

-- The sieve with its pending entries, taken together.
pub record Holds (sieve : List ℕ) (pending : Pending) (all : ℕ → ℕ) : Type 0 where
  pub wide : 8 * length sieve ≡ sieve_size
  pub slots : length pending.slots ≡ 16
  pub pos : pending.pos < 16
  pub below : AllBelow pending.slots
  pub together : (k : ℕ) → max (marked sieve k) (hits k pending.slots) ≡ all k

byte_at-below : (xs : List ℕ) (i : ℕ) → AllBelow xs → byte_at xs i < sieve_size
byte_at-below [] i a = omega arith
byte_at-below (x ∷ xs) zero (a, rest) = a
byte_at-below (x ∷ xs) (suc i) (a, rest) = byte_at-below xs i rest

pub add_to_pending_lem :
    (sieve : List ℕ) (pending : Pending) (ent : ℕ) (all : ℕ → ℕ)
    → Holds sieve pending all
    → ent < sieve_size
    → (sieve' : List ℕ) × (pending' : Pending) × (add_to_pending sieve pending ent
        ≡ some (sieve', pending'))
      × Holds sieve' pending' (λ k. max (all k) (hit k ent))
unfolding add_to_pending
add_to_pending_lem sieve pending ent all v h =
    let in_slots : pending.pos < length pending.slots = omega (arith, v.slots, v.pos) in
    let old : ℕ = byte_at pending.slots pending.pos in
    let (sieve', e, same, bits) =
      mark_pending_lem sieve old v.wide (byte_at-below pending.slots pending.pos v.below) in
    (
      sieve',
      record { slots = set pending.slots pending.pos ent; pos = (pending.pos + 1) % 16 },
      rw (byte_at-some pending.slots pending.pos in_slots, e, add_to_pending) refl,
      record {
        wide = ap (λ n. 8 * n) same ∙ v.wide;
        slots = length-set pending.slots pending.pos ent ∙ v.slots;
        pos = omega arith;
        below = set-AllBelow pending.slots pending.pos ent v.below h;
        together = λ k.
            omega (arith, bits k, v.together k, hits-set k pending.slots pending.pos ent in_slots);
      },
    )

add_hits_lem :
    (ents : List ℕ) (sieve : List ℕ) (pending : Pending) (all : ℕ → ℕ)
    → Holds sieve pending all
    → AllBelow ents
    → (sieve' : List ℕ) × (pending' : Pending) × (add_hits sieve pending ents
        ≡ some (sieve', pending'))
      × Holds sieve' pending' (λ k. max (all k) (hits k ents))
unfolding add_hits hits
add_hits_lem [] sieve pending all v a = (
  sieve,
  pending,
  refl,
  record {
    wide = v.wide;
    slots = v.slots;
    pos = v.pos;
    below = v.below;
    together = λ k. omega (arith, v.together k);
  },
)
add_hits_lem (ent ∷ ents) sieve pending all v (a, rest) =
    let (sieve₁, pending₁, e₁, v₁) = add_to_pending_lem sieve pending ent all v a in
    let (sieve₂, pending₂, e₂, v₂) =
      add_hits_lem ents sieve₁ pending₁ (λ k. max (all k) (hit k ent)) v₁ rest in
    (
      sieve₂,
      pending₂,
      rw (e₁, add_hits) e₂,
      record {
        wide = v₂.wide;
        slots = v₂.slots;
        pos = v₂.pos;
        below = v₂.below;
        together = λ k. omega (arith, v₂.together k);
      },
    )

pub flush_pending_lem :
    (slots sieve : List ℕ)
    → 8 * length sieve ≡ sieve_size
    → AllBelow slots
    → Marks sieve (λ k. hits k slots) (flush_pending sieve slots)
unfolding flush_pending hits
flush_pending_lem [] sieve wide a = (sieve, refl, refl, λ k. omega arith)
flush_pending_lem (old ∷ slots) sieve wide (a, rest) =
    let (sieve₁, e₁, same₁, bits₁) = mark_pending_lem sieve old wide a in
    let (sieve₂, e₂, same₂, bits₂) =
      flush_pending_lem slots sieve₁ (ap (λ n. 8 * n) same₁ ∙ wide) rest in
    (sieve₂, rw (e₁, flush_pending) e₂, same₂ ∙ same₁, λ k. omega (arith, bits₁ k, bits₂ k))

replicate-AllBelow : (n : ℕ) → AllBelow (replicate n 0)
replicate-AllBelow zero = tt
replicate-AllBelow (suc n) = (omega arith, replicate-AllBelow n)

pub init-Holds :
    (sieve : List ℕ)
    → 8 * length sieve ≡ sieve_size
    → Holds sieve init_pending (λ k. marked sieve k)
unfolding init_pending hits hit
init-Holds sieve wide = record {
  wide = wide;
  slots = refl;
  pos = omega arith;
  below = replicate-AllBelow 16;
  together = λ k. omega arith;
}

-- Delaying the marks loses none but one at position 0, and adds none: for entries that lie in the sieve the
-- loop over `segment_hits[loop]` with its sixteen pending slots, and the loop over the slots after it, never
-- leave an array or fail an assertion. A bit is marked afterwards exactly if it was before or if it is one of
-- the entries other than 0; an entry 0 is lost, since 0 stands for an empty slot.
pub mark_segment_lem :
    (sieve ents : List ℕ)
    → 8 * length sieve ≡ sieve_size
    → AllBelow ents
    → Marks sieve (λ k. hits k ents) (mark_segment sieve ents)
unfolding mark_segment
mark_segment_lem sieve ents wide a =
    let (sieve₁, pending₁, e₁, v₁) =
      add_hits_lem ents sieve init_pending (λ k. marked sieve k) (init-Holds sieve wide) a in
    let (sieve₂, e₂, same₂, bits₂) = flush_pending_lem pending₁.slots sieve₁ v₁.wide v₁.below in
    (
      sieve₂,
      rw (e₁, mark_segment) e₂,
      omega (arith, same₂, v₁.wide, wide),
      λ k. omega (arith, bits₂ k, v₁.together k),
    )
