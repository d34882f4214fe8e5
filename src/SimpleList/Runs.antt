-- ===== src/SimpleList/Runs.antt =====
-- A list of two pointers that is full.
use fastrie.Base.{ℕ, ◌≡◌, ◌≢◌, ◌⊎◌, refl, true, false, some, [], ◌∷◌, ◌++◌, get_elem?, All, arith}
use mathlib.Core.List.{Perm}
use fastrie.SimpleList.Defs.{SimpleList, grown_limit, add, add_unique, add_unique_feedback, remove}
use fastrie.SimpleList.Contents.{IsValid, contents, add_lem}
use fastrie.SimpleList.Removal.{remove_lem, add_unique_lem}

abbrev full : SimpleList
full = record {
  objects = 5 ∷ 6 ∷ [];
  object_count = 2;
  object_limit = 2;
  step_scaler = 1;
  is_preallocated = false;
  do_not_free_raw_data = false;
}

full-IsValid : IsValid full
full-IsValid = record { block = refl; counted = omega arith; small = omega arith; scaler = refl }

add_lem_example :
    (l' : SimpleList) × (add (0 ∷ 0 ∷ []) full 7 ≡ some l')
    × (contents l' ≡ contents full ++ (7 ∷ []))
    × IsValid l'
unfolding grown_limit
add_lem_example = add_lem (0 ∷ 0 ∷ []) full 7 full-IsValid refl (omega arith)

remove_lem_example :
    ((l' : SimpleList) × (remove full 5 ≡ some (l', true))
      × Perm (5 ∷ contents l') (contents full)
      × IsValid l')
    ⊎ ((remove full 5 ≡ some (full, false)) × All (λ y. y ≢ 5) (contents full))
remove_lem_example = remove_lem full 5 full-IsValid

add_unique_lem_example :
    ((i : ℕ) × (get_elem? (contents full) i ≡ some 6)
      × (add_unique_feedback (0 ∷ 0 ∷ []) full 6 ≡ some (full, false))
      × (add_unique (0 ∷ 0 ∷ []) full 6 ≡ some full))
    ⊎ (All (λ y. y ≢ 6) (contents full)
        × ((l' : SimpleList) × (add_unique_feedback (0 ∷ 0 ∷ []) full 6 ≡ some (l', true))
            × (add_unique (0 ∷ 0 ∷ []) full 6 ≡ some l')
            × (contents l' ≡ contents full ++ (6 ∷ []))
            × IsValid l'))
unfolding grown_limit
add_unique_lem_example = add_unique_lem (0 ∷ 0 ∷ []) full 6 full-IsValid refl (omega arith)
