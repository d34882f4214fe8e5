-- ===== src/Miner/Copying.antt =====
-- The transaction hashes on their way to the miner, and how many of them there is room for.
use fastrie.Base.{
  load_inside, store_inside, leb→le, leb→gt, ltb, ge→ltb, if-false, Bool-cases, inl, inr, ℕ, suc,
  ◌+◌, ◌*◌, ◌≤◌, ◌<◌, ◌≡◌, refl, ◌∙◌, sym, ap, false, none, some, List, [], ◌∷◌, ◌++◌, length,
  length-append, length-drop, append_assoc, drop, drop-drop, All, load, load-append, store,
  store-append, arith, leb, gt→leb,
}
use fastrie.Client.{Client}
use fastrie.Miner.Source.{WorkDataSource, updated, copy, copy_hashes, get_work, ◌>>=◌}
use fastrie.Client.Framing.{concat}
use fastrie.Client.Work.{count, length-concat}

copy_one :
    (front old done h rest : List ℕ) (i : ℕ)
    → length front ≡ 32 * (i + 1)
    → length done ≡ 32 * i
    → length h ≡ 32
    → 32 ≤ length old
    → copy (front ++ old) (32 * (i + 1)) (done ++ (h ++ rest)) (32 * i) 32
      ≡ some ((front ++ h) ++ drop (length h) old)
unfolding copy
copy_one front old done h rest i ef ed eh room =
    rw (load-append done h rest (32 * i) 32 (sym ed) (sym eh), copy)
      (ap (λ n. store (front ++ old) n h) (sym ef)
        ∙ store-append front old h (length front) refl (omega (arith, eh))
        ∙ ap some (sym (append_assoc front h (drop (length h) old))))

copy_hashes_lem :
    (hs : List (List ℕ)) (i : ℕ) (front old done rest : List ℕ)
    → All (λ h. length h ≡ 32) hs
    → length front ≡ 32 * (i + 1)
    → length done ≡ 32 * i
    → length (concat hs) ≤ length old
    → copy_hashes (count hs) i (front ++ old) (done ++ (concat hs ++ rest))
      ≡ some (front ++ (concat hs ++ drop (length (concat hs)) old))
unfolding copy_hashes
copy_hashes_lem [] i front old done rest v ef ed room = refl
copy_hashes_lem (h ∷ hs) i front old done rest (eh, v) ef ed room =
    rw
      (
        regrouped,
        copy_one front old done h (concat hs ++ rest) i ef ed eh (omega (arith, split, eh)),
        copy_hashes,
      )
      (ap (λ l. copy_hashes (count hs) (suc i) ((front ++ h) ++ drop (length h) old) l)
          (sym (append_assoc done h (concat hs ++ rest)))
        ∙ copy_hashes_lem hs (suc i) (front ++ h) (drop (length h) old) (done ++ h) rest v
            (omega (arith, eh, length-append front h)) (omega (arith, eh, length-append done h))
            (omega (arith, split, length-drop (length h) old))
        ∙ ap some same)
  where
    split : length (h ++ concat hs) ≡ length h + length (concat hs)
    split = length-append h (concat hs)

    regrouped : (h ++ concat hs) ++ rest ≡ h ++ (concat hs ++ rest)
    regrouped = append_assoc h (concat hs) rest

    same :
        (front ++ h) ++ (concat hs ++ drop (length (concat hs)) (drop (length h) old))
        ≡ front ++ ((h ++ concat hs) ++ drop (length (h ++ concat hs)) old)
    same =
        append_assoc front h _
        ∙ ap (λ l. front ++ l) (sym (append_assoc h (concat hs) _))
        ∙ ap (λ l. front ++ ((h ++ concat hs) ++ l))
            (drop-drop (length h) (length (concat hs)) old ∙ ap (λ n. drop n old) (sym split))

copy_outside :
    (to : List ℕ) (at : ℕ) (source : List ℕ) (i n : ℕ) (bs : List ℕ)
    → load source i n ≡ some bs
    → length to < at + length bs
    → copy to at source i n ≡ none
unfolding copy store
copy_outside to at source i n bs e h = rw (e, copy) (if-false _ _ (gt→leb _ _ h))

-- Where the hashes do not fit behind the first slot a copy leaves the array.
copy_hashes_overflow :
    (hs : List (List ℕ)) (i : ℕ) (front old done rest : List ℕ)
    → All (λ h. length h ≡ 32) hs
    → length front ≡ 32 * (i + 1)
    → length done ≡ 32 * i
    → length old < length (concat hs)
    → copy_hashes (count hs) i (front ++ old) (done ++ (concat hs ++ rest)) ≡ none
unfolding copy_hashes
copy_hashes_overflow [] i front old done rest v ef ed short = absurd (omega arith)
copy_hashes_overflow (h ∷ hs) i front old done rest (eh, v) ef ed short =
    elim (Bool-cases (leb 32 (length old))) [
      | inl fits ↦
          rw
            (
              regrouped,
              copy_one front old done h (concat hs ++ rest) i ef ed eh (leb→le _ _ fits),
              copy_hashes,
            )
            (ap (λ l. copy_hashes (count hs) (suc i) ((front ++ h) ++ drop (length h) old) l)
                (sym (append_assoc done h (concat hs ++ rest)))
              ∙ copy_hashes_overflow hs (suc i) (front ++ h) (drop (length h) old) (done ++ h) rest
                  v (omega (arith, eh, length-append front h))
                  (omega (arith, eh, length-append done h))
                  (omega (
                    arith,
                    short,
                    split,
                    eh,
                    leb→le 32 (length old) fits,
                    length-drop (length h) old,
                  )))
      | inr past ↦ rw (regrouped, outside (leb→gt _ _ past), copy_hashes) refl
    ]
  where
    split : length (h ++ concat hs) ≡ length h + length (concat hs)
    split = length-append h (concat hs)

    regrouped : (h ++ concat hs) ++ rest ≡ h ++ (concat hs ++ rest)
    regrouped = append_assoc h (concat hs) rest

    outside :
        length old < 32
        → copy (front ++ old) (32 * (i + 1)) (done ++ (h ++ (concat hs ++ rest))) (32 * i) 32 ≡ none
    outside lt =
        copy_outside (front ++ old) (32 * (i + 1)) (done ++ (h ++ (concat hs ++ rest))) (32 * i) 32
          h (load-append done h (concat hs ++ rest) (32 * i) 32 (sym ed) (sym eh))
          (omega (arith, eh, lt, ef, length-append front old))

-- The coinbase parts as they are copied.
abbrev Part : List ℕ → ℕ → List ℕ → Type 0
Part source n to = (length source ≡ 1024) × (n ≤ 1024) × (length to ≡ 1024)

copy-some :
    (source to : List ℕ) (n : ℕ)
    → Part source n to
    → (to' : List ℕ) × (copy to 0 source 0 n ≡ some to')
unfolding copy
copy-some source to n (es, hn, et) =
    let (bs, e, l) = load_inside source 0 n (omega (arith, es)) in
    let (to', e', same) = store_inside to 0 bs (omega (arith, l, et)) in (to', rw (e, copy) e')

-- Handing over the work, for a connection whose coinbase parts have at most 1024 bytes: with at most
-- 4095 transaction hashes no copy leaves an array, the miner's first hash slot, which is for the
-- coinbase transaction, stays, the hashes follow it in order, and the miner's count and height are
-- those of the work.
pub get_work_lem :
    (now : ℕ) (c : Client) (w : WorkDataSource) (hs : List (List ℕ)) (first old rest : List ℕ)
    → Part c.block_work_info.coin_base1 c.block_work_info.coin_base1_size w.coin_base1
    → Part c.block_work_info.coin_base2 c.block_work_info.coin_base2_size w.coin_base2
    → All (λ h. length h ≡ 32) hs
    → c.block_work_info.tx_hash_count ≡ count hs
    → c.block_work_info.tx_hashes ≡ concat hs ++ rest
    → w.tx_hash ≡ first ++ old
    → length first ≡ 32
    → length old ≡ 32 * 4095
    → count hs ≤ 4095
    → (w' : WorkDataSource) × (get_work now c w ≡ some w')
      × (w'.tx_hash ≡ first ++ (concat hs ++ drop (length (concat hs)) old))
      × (w'.tx_hash_count ≡ count hs)
      × (w'.height ≡ c.block_work_info.height)
unfolding get_work
get_work_lem now c w hs first old rest p1 p2 v ec et ew ef eo few =
    let (b1, e1) =
      copy-some c.block_work_info.coin_base1 w.coin_base1 c.block_work_info.coin_base1_size p1 in
    let (b2, e2) =
      copy-some c.block_work_info.coin_base2 w.coin_base2 c.block_work_info.coin_base2_size p2 in
    (
      updated now c w b1 b2 (first ++ (concat hs ++ drop (length (concat hs)) old)),
      rw (◌>>=◌, e1, e2, copied, get_work) refl,
      refl,
      if-false _ _ inside ∙ ec,
      refl,
    )
  where
    copied :
        copy_hashes c.block_work_info.tx_hash_count 0 w.tx_hash c.block_work_info.tx_hashes
        ≡ some (first ++ (concat hs ++ drop (length (concat hs)) old))
    copied =
        rw (ec, et, ew)
          (copy_hashes_lem hs 0 first old [] rest v (omega (arith, ef)) refl
            (omega (arith, length-concat hs v, few, eo)))

    inside : ltb 4096 c.block_work_info.tx_hash_count ≡ false
    inside = ge→ltb _ _ (omega (arith, ec, few))

-- With exactly 4096 hashes, which the test against `MAX_TRANSACTIONS` lets pass, and with more, the
-- hashes do not fit behind the first slot, and a copy leaves the array.
pub get_work_overflow :
    (now : ℕ) (c : Client) (w : WorkDataSource) (hs : List (List ℕ)) (first old rest : List ℕ)
    → Part c.block_work_info.coin_base1 c.block_work_info.coin_base1_size w.coin_base1
    → Part c.block_work_info.coin_base2 c.block_work_info.coin_base2_size w.coin_base2
    → All (λ h. length h ≡ 32) hs
    → c.block_work_info.tx_hash_count ≡ count hs
    → c.block_work_info.tx_hashes ≡ concat hs ++ rest
    → w.tx_hash ≡ first ++ old
    → length first ≡ 32
    → length old ≡ 32 * 4095
    → 4096 ≤ count hs
    → get_work now c w ≡ none
unfolding get_work
get_work_overflow now c w hs first old rest p1 p2 v ec et ew ef eo many =
    let (b1, e1) =
      copy-some c.block_work_info.coin_base1 w.coin_base1 c.block_work_info.coin_base1_size p1 in
    let (b2, e2) =
      copy-some c.block_work_info.coin_base2 w.coin_base2 c.block_work_info.coin_base2_size p2 in
    rw (◌>>=◌, e1, e2, copied, get_work) refl
  where
    copied :
        copy_hashes c.block_work_info.tx_hash_count 0 w.tx_hash c.block_work_info.tx_hashes ≡ none
    copied =
        rw (ec, et, ew)
          (copy_hashes_overflow hs 0 first old [] rest v (omega (arith, ef)) refl
            (omega (arith, length-concat hs v, many, eo)))
