-- ===== src/SimpleList/Removal.antt =====
-- The searching operations: what they find, and what they make of the list.
use fastrie.Base.{
  ℕ, zero, suc, ◌<◌, ◌≡◌, ◌≢◌, refl, ◌∙◌, sym, ap, subst, true, false, none, some, List, [], ◌∷◌,
  ◌++◌, ◌^◌, take, length, set, get_elem?, sub32, ◌==◌, ==_iff, Bool-cases, ◌⊎◌, inl, inr,
  length-set, length-take, All, append-nil, arith,
}
use fastrie.SimpleList.Defs.{SimpleList, find, add_unique, add_unique_feedback, remove}
use fastrie.SimpleList.Contents.{contents, IsValid, Enlarges, add_lem}
use mathlib.Core.List.{Perm, perm_middle}
use mathlib.Core.List.Perm

differs : {x y : ℕ} → (y == x) ≡ false → y ≢ x
differs n = ground arith

-- The loop stops at an index that holds the object, or has passed objects that all differ from it.
find_cases :
    (x : ℕ) (xs : List ℕ)
    → ((i : ℕ) × (find x xs ≡ some i) × (i < length xs) × (get_elem? xs i ≡ some x))
      ⊎ ((find x xs ≡ none) × All (λ y. y ≢ x) xs)
unfolding find
find_cases x [] = inr (refl, tt)
find_cases x (y ∷ ys) = elim (Bool-cases (y == x)) [
  | inl e ↦ inl (0, rw e refl, omega arith, ap some ((==_iff y x).0 e))
  | inr n ↦ elim (find_cases x ys) [
    | inl (i, f, h, g) ↦ inl (suc i, rw (n, f) refl, omega arith, g)
    | inr (f, all) ↦ inr (rw (n, f) refl, (differs n, all))
  ]
]

last_split :
    (ys : List ℕ) (m last : ℕ)
    → length ys ≡ suc m
    → get_elem? ys m ≡ some last
    → take m ys ++ (last ∷ []) ≡ ys
last_split [] m last h g = absurd (omega arith)
last_split (y ∷ []) zero last h g = cc
last_split (y ∷ z ∷ zs) zero last h g = absurd (omega arith)
last_split (y ∷ ys) (suc m) last h g = ap (λ l. y ∷ l) (last_split ys m last (omega arith) g)

-- Over a list of `n + 1` objects: the last one put in the place of `x` leaves the others.
swap_remove_perm :
    (xs : List ℕ) (i n last x : ℕ)
    → length xs ≡ suc n
    → get_elem? xs i ≡ some x
    → get_elem? xs n ≡ some last
    → Perm (x ∷ take n (set xs i last)) xs
swap_remove_perm [] i n last x h g l = absurd (omega arith)
swap_remove_perm (y ∷ []) zero zero last x h g l =
    let e : x ≡ y = ground arith in rw e (Perm.refl (y ∷ []))
swap_remove_perm (y ∷ z ∷ zs) zero zero last x h g l = absurd (omega arith)
swap_remove_perm (y ∷ ys) zero (suc m) last x h g l =
    let e : x ≡ y = ground arith in rw e (Perm.cons y to_front)
  where
    behind : Perm (take m ys ++ (last ∷ [])) (last ∷ take m ys)
    behind = rw append-nil at (perm_middle {a = last} (take m ys) [])

    to_front : Perm (last ∷ take m ys) ys
    to_front = rw (last_split ys m last (omega arith) l) at (Perm.symm behind)
swap_remove_perm (y ∷ []) (suc j) zero last x h g l = cc
swap_remove_perm (y ∷ z ∷ zs) (suc j) zero last x h g l = absurd (omega arith)
swap_remove_perm (y ∷ ys) (suc j) (suc m) last x h g l =
    Perm.trans (Perm.swap _ _ _) (Perm.cons y (swap_remove_perm ys j m last x (omega arith) g l))

take-take-suc : (n : ℕ) (xs : List ℕ) → take n (take (suc n) xs) ≡ take n xs
take-take-suc zero xs = refl
take-take-suc (suc n) [] = refl
take-take-suc (suc n) (x ∷ xs) = ap (λ l. x ∷ l) (take-take-suc n xs)

-- The block and the list that it holds, at the last index and below.
take_cases :
    (xs : List ℕ) (n : ℕ)
    → n < length xs
    → (last : ℕ) × (get_elem? xs n ≡ some last) × (get_elem? (take (suc n) xs) n ≡ some last)
take_cases [] n h = absurd (omega arith)
take_cases (x ∷ xs) zero h = (x, refl, refl)
take_cases (x ∷ xs) (suc n) h = take_cases xs n (omega arith)

take-set-take : (xs : List ℕ) (i n v : ℕ) → take n (set (take (suc n) xs) i v) ≡ take n (set xs i v)
take-set-take xs i zero v = refl
take-set-take [] i (suc n) v = refl
take-set-take (x ∷ xs) zero (suc n) v = ap (λ l. v ∷ l) (take-take-suc n xs)
take-set-take (x ∷ xs) (suc i) (suc n) v = ap (λ l. x ∷ l) (take-set-take xs i n v)

-- `simpleList_remove` takes one object that is `x` out of the list, which then holds the others in
-- some order, and returns true; if there is none, the list stays and the result is false. It never
-- leaves the block, and the list stays well formed.
pub remove_lem :
    (l : SimpleList) (x : ℕ)
    → IsValid l
    → ((l' : SimpleList) × (remove l x ≡ some (l', true))
        × Perm (x ∷ contents l') (contents l)
        × IsValid l')
      ⊎ ((remove l x ≡ some (l, false)) × All (λ y. y ≢ x) (contents l))
unfolding remove
remove_lem l x v = elim (find_cases x (contents l)) [
  | inr (f, all) ↦ inr (rw (f, remove) refl, all)
  | inl (i, f, h, g) ↦
      let n : ℕ = sub32 l.object_count 1 in
      let e : l.object_count ≡ suc n =
        omega (arith, length-take l.object_count l.objects, v.counted, v.small) in
      let below : n < length l.objects = omega (arith, v.block, v.counted) in
      let (last, at_block, at_list) = take_cases l.objects n below in
      inl (
        record l { objects = set l.objects i last; object_count = n },
        rw (f, remove, at_block) refl,
        subst (λ k. Perm (x ∷ take n (set l.objects i last)) (take k l.objects)) (sym e)
            (removed n i last below at_list (rw e at g)),
        record {
          block = length-set l.objects i last ∙ v.block;
          counted = omega (arith, v.counted, e);
          small = v.small;
          scaler = v.scaler;
        },
      )
]
  where
    removed :
        (n i last : ℕ)
        → n < length l.objects
        → get_elem? (take (suc n) l.objects) n ≡ some last
        → get_elem? (take (suc n) l.objects) i ≡ some x
        → Perm (x ∷ take n (set l.objects i last)) (take (suc n) l.objects)
    removed n i last below at_list g =
        subst (λ t. Perm (x ∷ t) (take (suc n) l.objects)) (take-set-take l.objects i n last)
          (swap_remove_perm (take (suc n) l.objects) i n last x
            (omega (arith, length-take (suc n) l.objects)) g at_list)

-- `simpleList_addUniqueFeedback` leaves a list that holds the object as it is, and returns false;
-- otherwise it puts the object behind the others and returns true. `simpleList_addUnique` makes the
-- same list.
pub add_unique_lem :
    (fresh : List ℕ) (l : SimpleList) (x : ℕ)
    → IsValid l
    → Enlarges l fresh
    → l.object_limit < 2 ^ 30
    → ((i : ℕ) × (get_elem? (contents l) i ≡ some x)
        × (add_unique_feedback fresh l x ≡ some (l, false))
        × (add_unique fresh l x ≡ some l))
      ⊎ (All (λ y. y ≢ x) (contents l)
          × ((l' : SimpleList) × (add_unique_feedback fresh l x ≡ some (l', true))
              × (add_unique fresh l x ≡ some l')
              × (contents l' ≡ contents l ++ (x ∷ []))
              × IsValid l'))
unfolding add_unique_feedback add_unique
add_unique_lem fresh l x v e small = elim (find_cases x (contents l)) [
  | inl (i, f, h, g) ↦ inl (i, g, rw (f, add_unique_feedback) refl, rw (f, add_unique) refl)
  | inr (f, all) ↦
      let (l', r, c, v') = add_lem fresh l x v e small in
      inr (all, (l', rw (f, add_unique_feedback, r) refl, rw (f, add_unique) r, c, v'))
]
