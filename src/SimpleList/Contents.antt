-- ===== src/SimpleList/Contents.antt =====
-- What a list holds, and what the adding operations do to it.
use fastrie.Base.{
  ℕ, zero, suc, ◌+◌, ◌*◌, ◌/◌, ◌^◌, ◌≤◌, ◌<◌, ◌≡◌, refl, ◌∙◌, ap, true, false, some, List, [], ◌∷◌,
  ◌++◌, take, length, set, add32, lt→ltb, ◌==◌, if◌then◌else◌, ==_iff, Bool-cases, inl, inr,
  length-set, length-append, take_all, arith,
}
use fastrie.SimpleList.Defs.{SimpleList, initial_limit, create, grown_limit, grow, append, add}

abbrev pub contents : SimpleList → List ℕ
contents l = take l.object_count l.objects

pub record IsValid (l : SimpleList) : Type 0 where
  pub block : length l.objects ≡ l.object_limit
  pub counted : l.object_count ≤ l.object_limit
  pub small : l.object_limit < 2 ^ 31
  pub scaler : l.step_scaler ≡ 1

create-IsValid :
    (n : ℕ) (block : List ℕ)
    → n < 2 ^ 31
    → length block ≡ initial_limit n
    → IsValid (create n block) × (contents (create n block) ≡ [])
unfolding create
create-IsValid n block h e = (ground arith, refl)

take-set :
    (xs : List ℕ) (n v : ℕ) → n < length xs → take (suc n) (set xs n v) ≡ take n xs ++ (v ∷ [])
take-set [] n v h = absurd (omega arith)
take-set (x ∷ xs) zero v h = refl
take-set (x ∷ xs) (suc n) v h = ap (λ l. x ∷ l) (take-set xs n v (omega arith))

take-append_le : (n : ℕ) (xs ys : List ℕ) → n ≤ length xs → take n (xs ++ ys) ≡ take n xs
take-append_le zero xs ys h = refl
take-append_le (suc n) [] ys h = absurd (omega arith)
take-append_le (suc n) (x ∷ xs) ys h = ap (λ l. x ∷ l) (take-append_le n xs ys (omega arith))

take-take : (n : ℕ) (xs : List ℕ) → take n (take n xs) ≡ take n xs
take-take zero xs = refl
take-take (suc n) [] = refl
take-take (suc n) (x ∷ xs) = ap (λ l. x ∷ l) (take-take n xs)

-- What appending to a list with a free slot gives.
append_lem :
    (l : SimpleList) (x : ℕ)
    → l.object_count < length l.objects
    → l.object_count < 2 ^ 31
    → (l' : SimpleList) × (append l x ≡ some l')
      × (contents l' ≡ contents l ++ (x ∷ []))
      × (l'.object_count ≡ l.object_count + 1)
      × (l'.object_limit ≡ l.object_limit)
      × (length l'.objects ≡ length l.objects)
      × (l'.step_scaler ≡ l.step_scaler)
unfolding append
append_lem l x h small = (
  record l { objects = set l.objects l.object_count x; object_count = add32 l.object_count 1 },
  rw (lt→ltb _ _ h) refl,
  ap (λ n. take n (set l.objects l.object_count x)) next ∙ take-set l.objects l.object_count x h,
  omega arith,
  refl,
  length-set l.objects l.object_count x,
  refl,
)
  where
    next : add32 l.object_count 1 ≡ suc l.object_count
    next = omega arith

-- The memory that an enlargement of `l` gets.
abbrev pub Enlarges : SimpleList → List ℕ → Type 0
Enlarges l fresh = l.object_limit + length fresh ≡ grown_limit l

-- A full list grows: it holds the same, with a free slot.
grow_lem :
    (l : SimpleList) (fresh : List ℕ)
    → IsValid l
    → Enlarges l fresh
    → l.object_limit < 2 ^ 30
    → l.object_count ≡ l.object_limit
    → (contents (grow fresh l) ≡ contents l)
      × IsValid (grow fresh l)
      × (l.object_count < (grow fresh l).object_limit)
unfolding grow grown_limit
grow_lem l fresh v e small full = (
  same_contents,
  record { block = same_block; counted = room; small = grown_small; scaler = v.scaler },
  more,
)
  where
    kept : (if l.do_not_free_raw_data then take l.object_count l.objects else l.objects) ≡ l.objects
    kept =
        elim l.do_not_free_raw_data
          as (λ b. (if b then take l.object_count l.objects else l.objects) ≡ l.objects) [
            | true ↦ take_all l.object_count l.objects (omega (arith, v.block))
            | false ↦ refl
          ]

    same_contents : take l.object_count (grow fresh l).objects ≡ contents l
    same_contents =
        ap (λ o. take l.object_count (o ++ fresh)) kept
        ∙ take-append_le l.object_count l.objects fresh (omega (arith, v.block))

    same_block : length (grow fresh l).objects ≡ grown_limit l
    same_block =
        ap (λ o. length (o ++ fresh)) kept ∙ length-append l.objects fresh ∙ omega (arith, v.block)

    by_one : (l.object_limit / 2 + 1) * l.step_scaler ≡ l.object_limit / 2 + 1
    by_one = ap (λ k. (l.object_limit / 2 + 1) * k) v.scaler ∙ omega arith

    room : l.object_count ≤ grown_limit l
    room = omega (arith, by_one)

    more : l.object_count < grown_limit l
    more = omega (arith, by_one)

    grown_small : grown_limit l < 2 ^ 31
    grown_small = omega (arith, by_one)

-- The outcome of a call that puts `x` behind what `l` holds.
abbrev pub Appends : SimpleList → ℕ → SimpleList → Type 0
Appends l x l' = (contents l' ≡ contents l ++ (x ∷ [])) × IsValid l'

append-IsValid :
    (l : SimpleList) (x : ℕ)
    → IsValid l
    → l.object_count < l.object_limit
    → (l' : SimpleList) × (append l x ≡ some l')
      × (contents l' ≡ contents l ++ (x ∷ []))
      × IsValid l'
append-IsValid l x v h =
    let (l', e, c, n, m, b, s) = append_lem l x (omega (arith, v.block)) (omega (arith, v.small)) in
    (
      l',
      e,
      c,
      record {
        block = omega (arith, v.block);
        counted = omega arith;
        small = omega (arith, v.small);
        scaler = s ∙ v.scaler;
      },
    )

-- `simpleList_add` writes inside its block, enlarged or not, puts the object behind those that the
-- list holds, and keeps the list well formed.
pub add_lem :
    (fresh : List ℕ) (l : SimpleList) (x : ℕ)
    → IsValid l
    → Enlarges l fresh
    → l.object_limit < 2 ^ 30
    → (l' : SimpleList) × (add fresh l x ≡ some l')
      × (contents l' ≡ contents l ++ (x ∷ []))
      × IsValid l'
unfolding add
add_lem fresh l x v e small = elim (Bool-cases (l.object_count == l.object_limit)) [
  | inl full ↦
      let (same, v', more) = grow_lem l fresh v e small ((==_iff _ _).0 full) in
      let (l', r, c, w) = append-IsValid (grow fresh l) x v' more in
      (l', rw full r, c ∙ ap (λ o. o ++ (x ∷ [])) same, w)
  | inr free ↦
      let (l', r, c, w) = append-IsValid l x v (ground (arith, v.counted)) in (l', rw free r, c, w)
]
