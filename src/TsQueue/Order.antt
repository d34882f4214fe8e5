-- ===== src/TsQueue/Order.antt =====
-- What the threads see of a queue, in whatever order their calls take the lock.
use fastrie.Base.{
  ℕ, ◌≤◌, ◌<◌, ◌≡◌, refl, ◌∙◌, sym, ap, subst, Bool, true, false, Option, none, some, List, [], ◌∷◌,
  ◌++◌, length, length-append, append_assoc, append-nil, leb, leb→gt, if◌then◌else◌, arith,
}
use mathlib.Core.Option.{some-injective, none-ne-some}
use fastrie.TsQueue.Queue.{TsQueue, push_back, push_front, pop_front, clear}

-- The steps of all threads on one queue, with what the step puts in and takes out.
pub data Step {T : Type 0} : TsQueue T → TsQueue T → Type 0 where
  pushed_back : (item : T) {s s' : TsQueue T} → push_back item s ≡ some s' → Step s s'
  pushed_front : (item : T) {s s' : TsQueue T} → push_front item s ≡ some s' → Step s s'
  popped : (item : T) {s s' : TsQueue T} → pop_front s ≡ some (item, s') → Step s s'
  cleared : (n : ℕ) {s s' : TsQueue T} → clear s ≡ (n, s') → Step s s'

infixr 5 ◌⨾◌
pub data Run {T : Type 0} : TsQueue T → TsQueue T → Type 0 where
  rest : {s : TsQueue T} → Run s s
  ◌⨾◌ : {s s' s'' : TsQueue T} → Step s s' → Run s' s'' → Run s s''

-- What the consumers took, in order, and what the producers appended.
unfoldable pub taken : {T : Type 0} {s s' : TsQueue T} → Run s s' → List T
taken rest = []
taken (pushed_back item e ⨾ r) = taken r
taken (pushed_front item e ⨾ r) = taken r
taken (popped item e ⨾ r) = item ∷ taken r
taken (cleared n e ⨾ r) = taken r

unfoldable pub appended : {T : Type 0} {s s' : TsQueue T} → Run s s' → List T
appended rest = []
appended (pushed_back item e ⨾ r) = item ∷ appended r
appended (pushed_front item e ⨾ r) = appended r
appended (popped item e ⨾ r) = appended r
appended (cleared n e ⨾ r) = appended r

-- A run without `push_front` and `clear`.
abbrev IsPlain : {T : Type 0} {s s' : TsQueue T} → Run s s' → Type 0
IsPlain rest = Unit {0}
IsPlain (pushed_back item e ⨾ r) = IsPlain r
IsPlain (pushed_front item e ⨾ r) = ⊥
IsPlain (popped item e ⨾ r) = IsPlain r
IsPlain (cleared n e ⨾ r) = ⊥

-- A result of a guarded operation comes from the branch that has one.
guarded :
    {A : Type 0}
    → (b : Bool) (a a' : A) → ◌≡◌ {A = Option A} (if b then none else some a) (some a')
    → (b ≡ false) × (a' ≡ a)
guarded true a a' e = absurd (none-ne-some _ e)
guarded false a a' e = (refl, sym (some-injective a a' e))

push_back_inv :
    {T : Type 0} (item : T) (s s' : TsQueue T)
    → push_back item s ≡ some s'
    → (length s.q < s.max_size) × (s' ≡ record s { q = s.q ++ (item ∷ []) })
unfolding push_back
push_back_inv item s s' e =
    let (free, same) = guarded (leb s.max_size (length s.q)) _ s' e in (leb→gt _ _ free, same)

push_front_inv :
    {T : Type 0} (item : T) (s s' : TsQueue T)
    → push_front item s ≡ some s'
    → (length s.q < s.max_size) × (s' ≡ record s { q = item ∷ s.q })
unfolding push_front
push_front_inv item s s' e =
    let (free, same) = guarded (leb s.max_size (length s.q)) _ s' e in (leb→gt _ _ free, same)

-- The same with the queue's list as a variable.
pop_inv :
    {T : Type 0} (item : T) (n : ℕ) (xs : List T) (s' : TsQueue T)
    → pop_front (record { max_size = n; q = xs }) ≡ some (item, s')
    → (s'.max_size ≡ n) × (xs ≡ item ∷ s'.q)
unfolding pop_front
pop_inv item n [] s' e = absurd (none-ne-some _ e)
pop_inv item n (x ∷ xs) s' e =
    let same = some-injective (x, record { max_size = n; q = xs }) (item, s') e in
    (sym (ap (λ r. r.1.max_size) same), λ i. (same i).0 ∷ (same i).1.q)

Step-bounded :
    {T : Type 0} {s s' : TsQueue T}
    → Step s s'
    → length s.q ≤ s.max_size
    → length s'.q ≤ s'.max_size
unfolding clear
Step-bounded (pushed_back item {s} {s'} e) h =
    let (free, same) = push_back_inv item s s' e in
    subst (λ t. length t.q ≤ t.max_size) (sym same) (omega (arith, length-append s.q (item ∷ [])))
Step-bounded (pushed_front item {s} {s'} e) h =
    let (free, same) = push_front_inv item s s' e in
    subst (λ t. length t.q ≤ t.max_size) (sym same) (omega arith)
Step-bounded (popped item {s} {s'} e) h =
    let (same, shape) = pop_inv item s.max_size s.q s' e in omega (arith, ap length shape)
Step-bounded (cleared n {s} {s'} e) h =
    subst (λ t. length t.q ≤ t.max_size) (ap (λ r. r.1) e) (omega arith)

-- However the calls of the threads interleave, a queue that holds at most `maxSize` items always does.
pub run-bounded :
    {T : Type 0} {s s' : TsQueue T} → Run s s' → length s.q ≤ s.max_size → length s'.q ≤ s'.max_size
run-bounded rest h = h
run-bounded (st ⨾ r) h = run-bounded r (Step-bounded st h)

-- However the calls interleave, as long as none is `push_front` or `clear`, the queue is first in,
-- first out: what was taken, followed by what is left, is what was there followed by what was appended,
-- in order, nothing lost and nothing twice.
pub run-fifo :
    {T : Type 0} {s s' : TsQueue T} (r : Run s s') → IsPlain r → taken r ++ s'.q ≡ s.q ++ appended r
unfolding taken appended
run-fifo (rest {s}) h = sym (append-nil s.q)
run-fifo (◌⨾◌ {s} {s'} {s''} (pushed_back item e) r) h =
    run-fifo r h
    ∙ ap (λ (t : TsQueue _). t.q ++ appended r) (push_back_inv item s s' e).1
    ∙ append_assoc s.q (item ∷ []) (appended r)
run-fifo (pushed_front item e ⨾ r) h = absurd h
run-fifo (◌⨾◌ {s} {s'} {s''} (popped item e) r) h =
    ap (λ l. item ∷ l) (run-fifo r h)
    ∙ ap (λ l. l ++ appended r) (sym (pop_inv item s.max_size s.q s' e).1)
run-fifo (cleared n e ⨾ r) h = absurd h
