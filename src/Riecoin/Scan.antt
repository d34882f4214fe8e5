-- ===== src/Riecoin/Scan.antt =====
-- The scan of the sieve for candidates in `riecoin_process`, and the batches that it hands to the
-- verifiers. `none` is `exit(-1)` or an access outside the sieve. What the other threads do meanwhile
-- is given: which candidate the height changes at, and how many entries each `clear` removes.
use fastrie.Base.{
  ℕ, zero, suc, ◌+◌, ◌-◌, ◌*◌, ◌/◌, ◌^◌, Bool, true, false, Option, none, some, List, [], ◌∷◌, ◌++◌,
  length, bit_and, add32, sub32, ltb, ◌==◌, if◌then◌else◌, load, le_value,
}
use fastrie.Riecoin.Sieve.{sieve_size}

-- `__builtin_clzll` for numbers of `n` bits.
unfoldable pub leading_zeros : ℕ → ℕ → ℕ
leading_zeros zero x = 0
leading_zeros (suc n) x = if ltb x (2 ^ n) then suc (leading_zeros n x) else 0

-- `~x` of a `uint64_t`.
abbrev pub not64 : ℕ → ℕ
not64 x = 2 ^ 64 - 1 - x

-- `testDoneQueue.clear()` is called once before the workers are awaited and twice for each candidate.
pub record Others : Type 0 where
  pub done_sieving : ℕ
  pub done_before : ℕ → ℕ
  pub done_after : ℕ → ℕ
  pub height_changed : ℕ → Bool
  pub work_cleared : ℕ

-- `pushed` are the index arrays that went into `verifyWorkQueue`, the last one last.
pub record Scan : Type 0 where
  pub indexes : List ℕ
  pub pushed : List (List ℕ)
  pub outstanding_tests : ℕ
  pub count_candidates : ℕ
  pub do_reset : Bool

unfoldable pub push_work : Scan → Scan
push_work s = record s {
  indexes = [];
  pushed = s.pushed ++ (s.indexes ∷ []);
  outstanding_tests = add32 s.outstanding_tests 1;
}

abbrev cleared : ℕ → Scan → Scan
cleared n s = record s { outstanding_tests = sub32 s.outstanding_tests n }

unfoldable pub push_full : Scan → Scan
push_full s = if length s.indexes == 64 then push_work s else s

unfoldable pub check_height : Others → ℕ → Scan → Scan
check_height w n s =
    if w.height_changed n
    then (record s {
      outstanding_tests = sub32 s.outstanding_tests w.work_cleared;
      do_reset = true;
    })
    else s

-- The body of the loop for the candidate `i`.
unfoldable pub add_candidate : Others → ℕ → Scan → Scan
add_candidate w i s =
    let n = s.count_candidates in
    check_height w n (
      cleared (w.done_after n) (
        push_full (
          cleared (w.done_before n)
            (record s { indexes = s.indexes ++ (i ∷ []); count_candidates = add32 n 1 }))))

abbrev pub high_bit : ℕ → ℕ
high_bit sb = 63 - leading_zeros 64 sb

-- `while (sb != 0)`, with the rounds that `sb_process_count` leaves.
unfoldable pub scan_word : Others → ℕ → ℕ → ℕ → Scan → Option Scan
scan_word w b zero sb s = if sb == 0 then some s else none
scan_word w b (suc rounds) sb s = elim (sb == 0) [
  | true ↦ some s
  | false ↦
      let s' = add_candidate w (b * 64 + high_bit sb) s in
      elim (s'.do_reset) [
        | true ↦ some s'
        | false ↦ scan_word w b rounds (bit_and sb (not64 (2 ^ high_bit sb))) s'
      ]
]

-- The loop over the words; `n` are left.
unfoldable pub scan_words : Others → List ℕ → ℕ → ℕ → Scan → Option Scan
scan_words w sieve zero b s = some s
scan_words w sieve (suc n) b s = elim (s.do_reset) [
  | true ↦ some s
  | false ↦ elim (load sieve (8 * b) 8) [
    | none ↦ none
    | some word ↦ elim (scan_word w b 65 (not64 (le_value word)) s) [
      | none ↦ none
      | some s' ↦ scan_words w sieve n (suc b) s'
    ]
  ]
]

unfoldable pub push_rest : Scan → Scan
unfolding push_work
push_rest s = if ltb 0 (length s.indexes) then push_work s else s

abbrev pub start_scan : ℕ → ℕ → Scan
start_scan outstanding count = record {
  indexes = [];
  pushed = [];
  outstanding_tests = outstanding;
  count_candidates = count;
  do_reset = false;
}

-- The whole scan of a sieve of `n` words.
unfoldable pub scan_sieve : Others → List ℕ → ℕ → ℕ → ℕ → Option Scan
scan_sieve w sieve n outstanding count =
    elim (scan_words w sieve n 0 (start_scan outstanding count)) [
      | none ↦ none
      | some s ↦ some (push_rest s)
    ]

abbrev pub sieve_words : ℕ
sieve_words = sieve_size / 64
