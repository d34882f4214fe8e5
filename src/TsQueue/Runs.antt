-- ===== src/TsQueue/Runs.antt =====
-- Producers and a consumer on a queue of two places.
use fastrie.Base.{
  ℕ, zero, suc, ◌≤◌, ◌≡◌, refl, inl, inr, replicate, Bool, true, false, List, [], ◌∷◌, ◌++◌, arith,
}
use fastrie.TsQueue.Queue.{TsQueue, push_back, pop_front}
use fastrie.TsQueue.Threads.{Pipe, ready, asleep}
use fastrie.TsQueue.Progress.{rounds, has_turn, signals, sleeps, IsFair, delivery_lem}
use fastrie.TsQueue.Order.{
  Run, rest, ◌⨾◌, pushed_back, popped, taken, appended, run-bounded, run-fifo,
}

abbrev queue : List ℕ → TsQueue ℕ
queue items = record { max_size = 2; q = items }

run : Run (queue (1 ∷ [])) (queue (3 ∷ []))
unfolding push_back pop_front
run =
    pushed_back 2 {s' = queue (1 ∷ 2 ∷ [])} refl
    ⨾ popped 1 {s' = queue (2 ∷ [])} refl
    ⨾ pushed_back 3 {s' = queue (2 ∷ 3 ∷ [])} refl
    ⨾ popped 2 refl
    ⨾ rest

run-bounded_example : 1 ≤ 2
run-bounded_example = run-bounded run (omega arith)

run-fifo_example : taken run ++ (3 ∷ []) ≡ (1 ∷ []) ++ appended run
unfolding run
run-fifo_example = run-fifo run tt

-- The queue is full and the producer asleep; two items are to be appended, and the consumer's turns come first.
abbrev pair : Pipe ℕ
pair = record {
  queue = queue (1 ∷ 2 ∷ []);
  todo = 3 ∷ 4 ∷ [];
  got = [];
  producer = asleep;
  consumer = ready;
}

abbrev twelve_rounds : List (List Bool)
twelve_rounds = replicate 12 (false ∷ true ∷ [])

fair : (n : ℕ) → IsFair (replicate n (false ∷ true ∷ []))
unfolding has_turn
fair zero = tt
fair (suc n) = ((refl, refl), fair n)

delivery_lem_example :
    ((rounds twelve_rounds pair).got ≡ [] ++ ((1 ∷ 2 ∷ []) ++ (3 ∷ 4 ∷ [])))
    × ((rounds twelve_rounds pair).todo ≡ [])
    × ((rounds twelve_rounds pair).queue.q ≡ [])
unfolding has_turn signals sleeps
delivery_lem_example =
    delivery_lem twelve_rounds pair (inr (inl (omega arith)), inl refl) (fair 12) (omega arith)
      (omega arith)
