-- ===== src/SimpleList/Defs.antt =====
-- The operations of `simpleList_t`. A pointer is a number. `none` is an access outside the block.
use fastrie.Base.{
  ℕ, suc, ◌+◌, ◌*◌, ◌/◌, ◌%◌, ◌^◌, Bool, true, false, Option, none, some, List, [], ◌∷◌, ◌++◌, take,
  length, set, get_elem?, add32, sub32, ltb, ◌==◌, if◌then◌else◌,
}

-- The list is the block behind `objects`.
pub record SimpleList : Type 0 where
  pub objects : List ℕ
  pub object_count : ℕ
  pub object_limit : ℕ
  pub step_scaler : ℕ
  pub is_preallocated : Bool
  pub do_not_free_raw_data : Bool

unfoldable pub initial_limit : ℕ → ℕ
initial_limit n = if n == 0 then 4 else n

-- `simpleList_create(initialLimit)`; `block` is the fresh memory of `initial_limit n` slots.
unfoldable pub create : ℕ → List ℕ → SimpleList
unfolding initial_limit
create n block = record {
  objects = block;
  object_count = 0;
  object_limit = initial_limit n;
  step_scaler = 1;
  is_preallocated = false;
  do_not_free_raw_data = false;
}

-- `simpleList_create(simpleList, initialLimit)`, in memory of the caller's.
unfoldable create_in_place : ℕ → List ℕ → SimpleList
unfolding create
create_in_place n block = record (create n block) { is_preallocated = true }

-- `simpleList_create(simpleList, initialLimit, rawArray)`, over the caller's array.
unfoldable create_over : ℕ → List ℕ → SimpleList
unfolding create
create_over n raw_array = record (create n raw_array) {
  is_preallocated = true;
  do_not_free_raw_data = true;
}

unfoldable pub grown_limit : SimpleList → ℕ
grown_limit l = (l.object_limit + (l.object_limit / 2 + 1) * l.step_scaler) % 2 ^ 32

-- The enlargement of a full list. `fresh` is the memory behind what `realloc` keeps or the copy fills.
unfoldable pub grow : List ℕ → SimpleList → SimpleList
unfolding grown_limit
grow fresh l = record l {
  objects = (if l.do_not_free_raw_data then take l.object_count l.objects else l.objects) ++ fresh;
  object_limit = grown_limit l;
  do_not_free_raw_data = false;
}

-- `objects[objectCount] = object; objectCount++;`
unfoldable pub append : SimpleList → ℕ → Option SimpleList
append l object =
    if ltb l.object_count (length l.objects)
    then some (record l {
      objects = set l.objects l.object_count object;
      object_count = add32 l.object_count 1;
    })
    else none

unfoldable pub add : List ℕ → SimpleList → ℕ → Option SimpleList
unfolding grow append
add fresh l object = append (if l.object_count == l.object_limit then grow fresh l else l) object

-- The loop of the three searching operations: the first index that holds `object`.
unfoldable pub find : ℕ → List ℕ → Option ℕ
find object [] = none
find object (x ∷ xs) =
    if x == object then some 0 else elim (find object xs) [ none ↦ none | some i ↦ some (suc i) ]

unfoldable pub index_of : SimpleList → ℕ → Option ℕ
unfolding find
index_of l object = find object (take l.object_count l.objects)

unfoldable pub add_unique_feedback : List ℕ → SimpleList → ℕ → Option (SimpleList × Bool)
unfolding index_of add
add_unique_feedback fresh l object = elim (index_of l object) [
  | some _ ↦ some (l, false)
  | none ↦ elim (add fresh l object) [ none ↦ none | some l' ↦ some (l', true) ]
]

unfoldable pub add_unique : List ℕ → SimpleList → ℕ → Option SimpleList
unfolding index_of add
add_unique fresh l object = elim (index_of l object) [ some _ ↦ some l | none ↦ add fresh l object ]

-- The last object takes the place of the one that goes.
unfoldable pub remove : SimpleList → ℕ → Option (SimpleList × Bool)
unfolding index_of
remove l object = elim (index_of l object) [
  | none ↦ some (l, false)
  | some i ↦
      let count = sub32 l.object_count 1 in
      elim (get_elem? l.objects count) [
        | none ↦ none
        | some last ↦ some (record l { objects = set l.objects i last; object_count = count }, true)
      ]
]

unfoldable get : SimpleList → ℕ → Option ℕ
get l index = get_elem? l.objects index
