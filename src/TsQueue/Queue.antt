-- ===== src/TsQueue/Queue.antt =====
-- The operations of `ts_queue<T, maxSize>`. The lock makes each of them one step, which is not enabled,
-- `none`, while the C++ code sleeps on a condition variable. Falling asleep and waking up are in Threads.
use fastrie.Base.{ℕ, Option, none, some, List, [], ◌∷◌, ◌++◌, length, leb, if◌then◌else◌}

-- The template's parameter and the deque.
pub record TsQueue (T : Type 0) : Type 0 where
  pub max_size : ℕ
  pub q : List T

unfoldable pub create : {T : Type 0} → ℕ → TsQueue T
create max_size = record { max_size = max_size; q = [] }

unfoldable pub push_back : {T : Type 0} → T → TsQueue T → Option (TsQueue T)
push_back item s =
    if leb s.max_size (length s.q) then none else some (record s { q = s.q ++ (item ∷ []) })

unfoldable pub push_front : {T : Type 0} → T → TsQueue T → Option (TsQueue T)
push_front item s = if leb s.max_size (length s.q) then none else some (record s { q = item ∷ s.q })

unfoldable pub pop_front : {T : Type 0} → TsQueue T → Option (T × TsQueue T)
pop_front s = elim (s.q) [ [] ↦ none | r ∷ rest ↦ some (r, record s { q = rest }) ]

unfoldable pub clear : {T : Type 0} → TsQueue T → ℕ × TsQueue T
clear s = (length s.q, record s { q = [] })

unfoldable pub size : {T : Type 0} → TsQueue T → ℕ
size s = length s.q
