-- ===== src/TsQueue/Progress.antt =====
-- What becomes of a producer and a consumer of `ts_queue` that both get their turns.
use fastrie.Base.{
  ℕ, suc, ◌+◌, ◌*◌, ◌≤◌, ◌<◌, ◌≡◌, ◌⊎◌, refl, sym, ap, ◌∙◌, Bool, true, false, List, [], ◌∷◌, ◌++◌,
  length, length-append, append-nil, append_assoc, All, Bool-cases, inl, inr, leb, leb→le, ltb,
  ltb→lt, ltb→ge, arith,
}
use mathlib.Core.Bool.{false≢true}
use fastrie.TsQueue.Queue.{push_back, pop_front}
use fastrie.TsQueue.Threads.{Thread, ready, asleep, signalling, Pipe, wake, produce, consume}

-- Turns in the order of the scheduler: `true` is one of the producer.
unfoldable pub turns : {T : Type 0} → List Bool → Pipe T → Pipe T
turns [] p = p
turns (true ∷ bs) p = turns bs (produce p)
turns (false ∷ bs) p = turns bs (consume p)

-- Rounds, each of some turns.
unfoldable pub rounds : {T : Type 0} → List (List Bool) → Pipe T → Pipe T
rounds [] p = p
rounds (bs ∷ rest) p = rounds rest (turns bs p)

-- Either has a turn.
unfoldable pub has_turn : Bool → List Bool → Bool
has_turn b [] = false
has_turn true (true ∷ bs) = true
has_turn true (false ∷ bs) = has_turn true bs
has_turn false (false ∷ bs) = true
has_turn false (true ∷ bs) = has_turn false bs

-- Both get a turn in every round.
abbrev pub IsFair : List (List Bool) → Type 0
IsFair rs = All (λ bs. (has_turn true bs ≡ true) × (has_turn false bs ≡ true)) rs

unfoldable pub signals : Thread → ℕ
signals ready = 0
signals asleep = 0
signals signalling = 1

unfoldable pub sleeps : Thread → ℕ
sleeps ready = 0
sleeps asleep = 1
sleeps signalling = 0

-- The work left: an item is appended, signalled, taken and signalled.
abbrev pub left : {T : Type 0} → Pipe T → ℕ
left p = 4 * length p.todo + 2 * length p.queue.q + signals p.producer + signals p.consumer

-- The items on their way, in order, and the room, which no turn changes.
abbrev Same : {T : Type 0} → Pipe T → Pipe T → Type 0
Same p p' =
    (p'.got ++ (p'.queue.q ++ p'.todo) ≡ p.got ++ (p.queue.q ++ p.todo))
    × (p'.queue.max_size ≡ p.queue.max_size)

-- Who sleeps has a reason to, or the other's signal is on its way.
abbrev pub IsSound : {T : Type 0} → Pipe T → Type 0
IsSound p =
    ((sleeps p.producer ≡ 0) ⊎ (p.queue.max_size ≤ length p.queue.q) ⊎ (signals p.consumer ≡ 1))
    × ((sleeps p.consumer ≡ 0) ⊎ (length p.queue.q ≡ 0) ⊎ (signals p.producer ≡ 1))

-- A turn that does no work changes nothing that the other side looks at.
abbrev Idle : {T : Type 0} → Pipe T → Pipe T → Type 0
Idle p p' =
    (left p' ≡ left p) × (length p'.todo ≡ length p.todo) × (length p'.queue.q ≡ length p.queue.q)

signals-cases : (t : Thread) → (signals t ≡ 0) ⊎ (signals t ≡ 1)
unfolding signals
signals-cases ready = inl refl
signals-cases asleep = inl refl
signals-cases signalling = inr refl

sleeps-cases : (t : Thread) → (sleeps t ≡ 0) ⊎ (sleeps t ≡ 1)
unfolding sleeps
sleeps-cases ready = inl refl
sleeps-cases asleep = inr refl
sleeps-cases signalling = inl refl

length-zero : {A : Type 0} (xs : List A) → length xs ≡ 0 → xs ≡ []
length-zero [] h = refl
length-zero (x ∷ xs) h = absurd (omega (arith, h))

module _ {T : Type 0} where
  abbrev pipe : ℕ → List T → List T → List T → Thread → Thread → Pipe T
  pipe m qs todo got a b = record {
    queue = record { max_size = m; q = qs };
    todo = todo;
    got = got;
    producer = a;
    consumer = b;
  }

  -- What a step of the producer does: work, or nothing, for a reason.
  abbrev Produces : Pipe T → Pipe T → Type 0
  Produces p p' =
      Same p p'
      × IsSound p'
      × ((left p' < left p)
          ⊎ (Idle p p'
              × (sleeps p'.consumer ≡ sleeps p.consumer)
              × (signals p'.consumer ≡ signals p.consumer)
              × (signals p.producer ≡ 0)
              × ((sleeps p.producer ≡ 1)
                  ⊎ (length p.todo ≡ 0)
                  ⊎ (p.queue.max_size ≤ length p.queue.q))))

  produce_lem :
      (m : ℕ) (qs todo got : List T) (a b : Thread)
      → IsSound (pipe m qs todo got a b)
      → Produces (pipe m qs todo got a b) (produce (pipe m qs todo got a b))
  unfolding produce push_back wake signals sleeps
  produce_lem m qs todo got asleep b v =
      ((refl, refl), v, inr ((refl, refl, refl), refl, refl, refl, inl refl))
  produce_lem m qs todo got signalling ready v =
      ((refl, refl), (inl refl, inl refl), inl (omega arith))
  produce_lem m qs todo got signalling asleep v =
      ((refl, refl), (inl refl, inl refl), inl (omega arith))
  produce_lem m qs todo got signalling signalling v =
      ((refl, refl), (inl refl, inl refl), inl (omega arith))
  produce_lem m qs [] got ready b v =
      ((refl, refl), v, inr ((refl, refl, refl), refl, refl, refl, inr (inl refl)))
  produce_lem m qs (x ∷ todo) got ready b v = elim (Bool-cases (leb m (length qs))) [
    | inl e ↦
        rw (produce, e)
          (
            (refl, refl),
            (inr (inl (leb→le _ _ e)), ground (arith, v.1)),
            inr ((refl, refl, refl), refl, refl, refl, inr (inr (leb→le _ _ e))),
          )
    | inr e ↦
        rw (produce, e)
          (
            (ap (λ l. got ++ l) (append_assoc qs (x ∷ []) todo), refl),
            (inl refl, inr (inr refl)),
            inl (omega (arith, length-append qs (x ∷ []))),
          )
  ]

  abbrev Consumes : Pipe T → Pipe T → Type 0
  Consumes p p' =
      Same p p'
      × IsSound p'
      × ((left p' < left p)
          ⊎ (Idle p p'
              × (sleeps p'.producer ≡ sleeps p.producer)
              × (signals p'.producer ≡ signals p.producer)
              × (signals p.consumer ≡ 0)
              × ((sleeps p.consumer ≡ 1) ⊎ (length p.queue.q ≡ 0))))

  consume_lem :
      (m : ℕ) (qs todo got : List T) (a b : Thread)
      → IsSound (pipe m qs todo got a b)
      → Consumes (pipe m qs todo got a b) (consume (pipe m qs todo got a b))
  unfolding consume pop_front wake signals sleeps
  consume_lem m qs todo got a asleep v =
      ((refl, refl), v, inr ((refl, refl, refl), refl, refl, refl, inl refl))
  consume_lem m qs todo got ready signalling v =
      ((refl, refl), (inl refl, inl refl), inl (omega arith))
  consume_lem m qs todo got asleep signalling v =
      ((refl, refl), (inl refl, inl refl), inl (omega arith))
  consume_lem m qs todo got signalling signalling v =
      ((refl, refl), (inl refl, inl refl), inl (omega arith))
  consume_lem m [] todo got a ready v = (
    (refl, refl),
    (ground (arith, v.0), inr (inl refl)),
    inr ((refl, refl, refl), refl, refl, refl, inr refl),
  )
  consume_lem m (x ∷ qs) todo got a ready v = (
    (append_assoc got (x ∷ []) (qs ++ todo), refl),
    (inr (inr refl), inl refl),
    inl (omega arith),
  )

  producing : (p : Pipe T) → IsSound p → Produces p (produce p)
  producing p = produce_lem p.queue.max_size p.queue.q p.todo p.got p.producer p.consumer

  consuming : (p : Pipe T) → IsSound p → Consumes p (consume p)
  consuming p = consume_lem p.queue.max_size p.queue.q p.todo p.got p.producer p.consumer

  turns_lem :
      (bs : List Bool) (p : Pipe T)
      → IsSound p
      → Same p (turns bs p) × IsSound (turns bs p) × (left (turns bs p) ≤ left p)
  unfolding turns
  turns_lem [] p v = ((refl, refl), v, omega arith)
  turns_lem (true ∷ bs) p v =
      let ((a, m), w, l) = producing p v in
      let ((a', m'), w', l') = turns_lem bs (produce p) w in
      (
        (a' ∙ a, m' ∙ m),
        w',
        elim l [ inl less ↦ omega (arith, l', less) | inr idle ↦ omega (arith, l', idle.0.0) ],
      )
  turns_lem (false ∷ bs) p v =
      let ((a, m), w, l) = consuming p v in
      let ((a', m'), w', l') = turns_lem bs (consume p) w in
      (
        (a' ∙ a, m' ∙ m),
        w',
        elim l [ inl less ↦ omega (arith, l', less) | inr idle ↦ omega (arith, l', idle.0.0) ],
      )

  -- Whose turn will do some work.
  abbrev CanProduce : Pipe T → Type 0
  CanProduce p =
      (signals p.producer ≡ 1)
      ⊎ ((sleeps p.producer ≡ 0) × (0 < length p.todo) × (length p.queue.q < p.queue.max_size))

  abbrev CanConsume : Pipe T → Type 0
  CanConsume p = (signals p.consumer ≡ 1) ⊎ ((sleeps p.consumer ≡ 0) × (0 < length p.queue.q))

  turns-produce :
      (bs : List Bool) (p : Pipe T)
      → IsSound p
      → has_turn true bs ≡ true
      → CanProduce p
      → left (turns bs p) < left p
  unfolding turns has_turn
  turns-produce [] p v h can = absurd (false≢true h)
  turns-produce (true ∷ bs) p v h can =
      let (same, w, l) = producing p v in
      let rest = (turns_lem bs (produce p) w).2 in
      elim l [
        | inl less ↦ omega (arith, rest, less)
        | inr idle ↦ absurd (ground (arith, can, idle))
      ]
  turns-produce (false ∷ bs) p v h can =
      let (same, w, l) = consuming p v in
      elim l [
        | inl less ↦ omega (arith, (turns_lem bs (consume p) w).2, less)
        | inr idle ↦
            omega (
              arith,
              idle.0.0,
              turns-produce bs (consume p) w h (ground (arith, can, idle, same.1)),
            )
      ]

  turns-consume :
      (bs : List Bool) (p : Pipe T)
      → IsSound p
      → has_turn false bs ≡ true
      → CanConsume p
      → left (turns bs p) < left p
  unfolding turns has_turn
  turns-consume [] p v h can = absurd (false≢true h)
  turns-consume (false ∷ bs) p v h can =
      let (same, w, l) = consuming p v in
      let rest = (turns_lem bs (consume p) w).2 in
      elim l [
        | inl less ↦ omega (arith, rest, less)
        | inr idle ↦ absurd (ground (arith, can, idle))
      ]
  turns-consume (true ∷ bs) p v h can =
      let (same, w, l) = producing p v in
      elim l [
        | inl less ↦ omega (arith, (turns_lem bs (produce p) w).2, less)
        | inr idle ↦
            omega (arith, idle.0.0, turns-consume bs (produce p) w h (ground (arith, can, idle)))
      ]

  -- There is no deadlock.
  someone_can :
      (p : Pipe T) → IsSound p → 1 ≤ p.queue.max_size → 0 < left p → CanProduce p ⊎ CanConsume p
  someone_can p v one work = ground (
    arith,
    v,
    signals-cases p.producer,
    signals-cases p.consumer,
    sleeps-cases p.producer,
    sleeps-cases p.consumer,
  )

  round_lem :
      (bs : List Bool) (p : Pipe T) (k : ℕ)
      → IsSound p
      → has_turn true bs ≡ true
      → has_turn false bs ≡ true
      → 1 ≤ p.queue.max_size
      → left p ≤ suc k
      → left (turns bs p) ≤ k
  round_lem bs p k v h h' one enough = elim (Bool-cases (ltb 0 (left p))) [
    | inl e ↦ elim (someone_can p v one (ltb→lt _ _ e)) [
      | inl can ↦ omega (arith, enough, turns-produce bs p v h can)
      | inr can ↦ omega (arith, enough, turns-consume bs p v h' can)
    ]
    | inr e ↦ omega (arith, ltb→ge _ _ e, (turns_lem bs p v).2)
  ]

  rounds_lem :
      (rs : List (List Bool)) (p : Pipe T)
      → IsSound p
      → IsFair rs
      → 1 ≤ p.queue.max_size
      → left p ≤ length rs
      → Same p (rounds rs p) × (left (rounds rs p) ≡ 0)
  unfolding rounds
  rounds_lem [] p v fair one enough = ((refl, refl), omega (arith, enough))
  rounds_lem (bs ∷ rs) p v fair one enough =
      let ((a, m), w, l) = turns_lem bs p v in
      let ((a', m'), l') =
        rounds_lem rs (turns bs p) w fair.1 (omega (arith, one, m))
          (round_lem bs p (length rs) v fair.0.0 fair.0.1 one enough) in
      ((a' ∙ a, m' ∙ m), l')

  -- A producer and a consumer of a queue with room for one item or more never block each other for good, though
  -- whoever sleeps wakes up by the other's signal only. When they start with a reason for every sleep, and each
  -- of them gets a turn in every round, in any order and as often as the scheduler likes, then after as many
  -- rounds as there are pieces of work (four for an item to be appended, two for one in the queue, one for a
  -- signal to be sent), everything is appended and taken, in order, and the queue is empty.
  pub delivery_lem :
      (rs : List (List Bool)) (p : Pipe T)
      → IsSound p
      → IsFair rs
      → 1 ≤ p.queue.max_size
      → left p ≤ length rs
      → ((rounds rs p).got ≡ p.got ++ (p.queue.q ++ p.todo))
        × ((rounds rs p).todo ≡ [])
        × ((rounds rs p).queue.q ≡ [])
  delivery_lem rs p v fair one enough =
      let ((same, room), done) = rounds_lem rs p v fair one enough in
      let no_todo = length-zero (rounds rs p).todo (omega (arith, done)) in
      let no_item = length-zero (rounds rs p).queue.q (omega (arith, done)) in
      (
        sym (append-nil (rounds rs p).got)
            ∙ ap (λ l. (rounds rs p).got ++ l) (sym (rw (no_item, no_todo) refl))
            ∙ same,
        no_todo,
        no_item,
      )
