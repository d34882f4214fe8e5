-- ===== src/TsQueue/Threads.antt =====
-- A producer and a consumer of `ts_queue`, with the condition variables as pthreads have them: who sleeps stays
-- asleep until it is signalled, since `SleepConditionVariableCS` of global.h is `pthread_cond_wait` and drops the
-- 2000 milliseconds. A call is two steps, since the signal is sent after the lock is released.
use fastrie.Base.{none, some, List, [], ◌∷◌, ◌++◌}
use fastrie.TsQueue.Queue.{TsQueue, push_back, pop_front}

-- `signalling` has released the lock and has not sent its signal.
pub data Thread : Type 0 where
  ready : Thread
  asleep : Thread
  signalling : Thread

-- What the producer still has to append, and what the consumer took. The producer sleeps on `_cv_full`, the
-- consumer on `_cv`.
pub record Pipe (T : Type 0) : Type 0 where
  pub queue : TsQueue T
  pub todo : List T
  pub got : List T
  pub producer : Thread
  pub consumer : Thread

-- What a signal does to a thread that may sleep on its condition variable.
unfoldable pub wake : Thread → Thread
wake ready = ready
wake asleep = ready
wake signalling = signalling

-- A step of `push_back`: the test, which falls asleep on a full queue, or the push; then
-- `WakeConditionVariable(&_cv)`.
unfoldable pub produce : {T : Type 0} → Pipe T → Pipe T
produce p = elim (p.producer) [
  | asleep ↦ p
  | signalling ↦ record p { producer = ready; consumer = wake p.consumer }
  | ready ↦ elim (p.todo) [
    | [] ↦ p
    | item ∷ rest ↦ elim (push_back item (p.queue)) [
      | none ↦ record p { producer = asleep }
      | some s ↦ record p { queue = s; todo = rest; producer = signalling }
    ]
  ]
]

-- A step of `pop_front`, which ends with `WakeConditionVariable(&_cv_full)`.
unfoldable pub consume : {T : Type 0} → Pipe T → Pipe T
consume p = elim (p.consumer) [
  | asleep ↦ p
  | signalling ↦ record p { consumer = ready; producer = wake p.producer }
  | ready ↦ elim (pop_front (p.queue)) [
    | none ↦ record p { consumer = asleep }
    | some (item, s) ↦ record p { queue = s; got = p.got ++ (item ∷ []); consumer = signalling }
  ]
]
