-- ===== src/Stream/WriteData.antt =====
-- A memory stream behaves as a file: writing replaces and extends its contents at the position.
use fastrie.Base.{
  ℕ, zero, suc, ◌+◌, ◌-◌, ◌^◌, ◌≤◌, ◌<◌, min, ◌≡◌, refl, ◌∙◌, sym, ap, subst, true, false, Option,
  some, List, [], ◌∷◌, ◌++◌, take, drop, length, store, add32, sub32, Bool-cases, if-false, if-true,
  leb, leb→le, leb→gt, inl, inr, ltb→ge, ltb→lt, store-append, take-append_length,
  drop-append_length, take_all, ltb, ◌==◌, arith, length-append, length-drop, append_assoc,
  append-nil,
}
use native.Mathlib.Nat.{add-zero, sub-zero}
use fastrie.Stream.Memory.{
  MemoryStream, overwrite, enlarge_size, enlarge, extend, write_allowed, write_data,
}

-- A stream at the end of `front`, which is all that stands before `rest` in its contents; `spare` is
-- the room behind them.
abbrev pub IsSplit : MemoryStream → List ℕ → List ℕ → List ℕ → Type 0
IsSplit s front rest spare =
    (s.buffer ≡ front ++ (rest ++ spare))
    × (s.buffer_position ≡ length front)
    × (s.buffer_size ≡ length front + length rest)
    × (s.buffer_limit ≡ length front + length rest + length spare)

nonzero : (n : ℕ) → (suc n == 0) ≡ false
nonzero n = ground arith

drop-append_le : (k : ℕ) (xs ys : List ℕ) → k ≤ length xs → drop k (xs ++ ys) ≡ drop k xs ++ ys
drop-append_le zero xs ys h = refl
drop-append_le (suc k) [] ys h = absurd (omega arith)
drop-append_le (suc k) (x ∷ xs) ys h = drop-append_le k xs ys (omega arith)

store-IsSplit :
    (s : MemoryStream) (front rest spare w : List ℕ)
    → IsSplit s front rest spare
    → length w ≤ length rest
    → store s.buffer s.buffer_position w ≡ some ((front ++ w) ++ (drop (length w) rest ++ spare))
store-IsSplit s front rest spare w (eb, ep, es, el) h =
    rw (eb, ep)
      (store-append front (rest ++ spare) w (length front) refl
          (omega (arith, length-append rest spare))
        ∙ ap (λ l. some (front ++ (w ++ l))) (drop-append_le (length w) rest spare h)
        ∙ ap some (sym (append_assoc front w (drop (length w) rest ++ spare))))

-- The stream after `w` has been written over the first bytes of `rest`.
abbrev overwritten : MemoryStream → List ℕ → List ℕ → List ℕ → List ℕ → MemoryStream
overwritten s front rest spare w = record s {
  buffer = (front ++ w) ++ (drop (length w) rest ++ spare);
  buffer_position = length front + length w;
}

overwritten-IsSplit :
    (s : MemoryStream) (front rest spare w : List ℕ)
    → IsSplit s front rest spare
    → length w ≤ length rest
    → IsSplit (overwritten s front rest spare w) (front ++ w) (drop (length w) rest) spare
overwritten-IsSplit s front rest spare w (eb, ep, es, el) h = (
  refl,
  sym (length-append front w),
  omega (arith, length-append front w, length-drop (length w) rest),
  omega (arith, length-append front w, length-drop (length w) rest),
)

-- `w` is the part of the data that falls on old contents, `u` the part behind them.
overwrite-some :
    (s : MemoryStream) (front spare w u : List ℕ) (x : ℕ) (xs : List ℕ)
    → IsSplit s front (x ∷ xs) spare
    → length front + length (x ∷ xs) + length spare < 2 ^ 32
    → length w ≡ min (length (x ∷ xs)) (length (w ++ u))
    → overwrite s (w ++ u) ≡ some (overwritten s front (x ∷ xs) spare w, u)
unfolding overwrite
overwrite-some s front spare w u x xs p small hw =
    rw (stored, count, over, nonzero (length xs), drop-append_length w u, position) refl
  where
    over : sub32 s.buffer_size s.buffer_position ≡ suc (length xs)
    over = omega (arith, p)

    count : min (sub32 s.buffer_size s.buffer_position) (length (w ++ u)) ≡ length w
    count = ap (λ n. min n (length (w ++ u))) over ∙ sym hw

    position : add32 s.buffer_position (length w) ≡ length front + length w
    position = omega (arith, p)

    stored :
        store s.buffer s.buffer_position
          (take (min (sub32 s.buffer_size s.buffer_position) (length (w ++ u))) (w ++ u))
        ≡ some ((front ++ w) ++ (drop (length w) (x ∷ xs) ++ spare))
    stored =
        ap (λ n. store s.buffer s.buffer_position (take n (w ++ u))) count
        ∙ ap (λ l. store s.buffer s.buffer_position l) (take-append_length w u)
        ∙ store-IsSplit s front (x ∷ xs) spare w p (omega arith)

-- The stream after `u` has been written behind the end, into `spare`.
abbrev extended : MemoryStream → List ℕ → List ℕ → List ℕ → MemoryStream
extended s front spare u = record s {
  buffer = (front ++ u) ++ drop (length u) spare;
  buffer_position = length front + length u;
  buffer_size = length front + length u;
}

extended-IsSplit :
    (s : MemoryStream) (front spare u : List ℕ)
    → IsSplit s front [] spare
    → length u ≤ length spare
    → IsSplit (extended s front spare u) (front ++ u) [] (drop (length u) spare)
extended-IsSplit s front spare u (eb, ep, es, el) h = (
  refl,
  sym (length-append front u),
  omega (arith, length-append front u),
  omega (arith, length-append front u, length-drop (length u) spare),
)

extend-some :
    (s : MemoryStream) (front spare u : List ℕ) (x : ℕ)
    → IsSplit s front [] spare
    → length front + length spare < 2 ^ 32
    → length (x ∷ u) ≤ length spare
    → extend s (x ∷ u) ≡ some (extended s front spare (x ∷ u), 0)
unfolding extend
extend-some s front spare u x p small h =
    rw (stored, count, nonzero (length u), position, size, none_left) refl
  where
    w : List ℕ
    w = x ∷ u

    count : min (sub32 s.buffer_limit s.buffer_position) (length w) ≡ suc (length u)
    count = omega (arith, p)

    position : add32 s.buffer_position (suc (length u)) ≡ length front + length w
    position = omega (arith, p)

    size : add32 s.buffer_size (suc (length u)) ≡ length front + length w
    size = omega (arith, p)

    none_left : length w - suc (length u) ≡ 0
    none_left = omega arith

    stored :
        store s.buffer s.buffer_position
          (take (min (sub32 s.buffer_limit s.buffer_position) (length w)) w)
        ≡ some ((front ++ w) ++ drop (length w) spare)
    stored =
        ap (λ n. store s.buffer s.buffer_position (take n w)) count
        ∙ ap (λ l. store s.buffer s.buffer_position l) (take_all (suc (length u)) w (omega arith))
        ∙ rw (p.0, p.1) (store-append front spare w (length front) refl h)
        ∙ ap some (sym (append_assoc front w (drop (length w) spare)))

-- `malloc` succeeds, and its block has the size asked for.
abbrev pub Allocates : (ℕ → Option (List ℕ)) → Type 0
Allocates malloc = (n : ℕ) → (block : List ℕ) × (malloc n ≡ some block) × (length block ≡ n)

-- The bounds of a stream: the buffer within the limit it was created with, which is a uint32.
pub record IsBounded (s : MemoryStream) : Type 0 where
  pub limited : s.buffer_limit ≤ s.size_limit
  pub small : s.size_limit < 2 ^ 32
  pub writable : s.disallow_write ≡ false

-- The enlarged stream has room for `n` bytes behind `front`.
abbrev Enlarged : MemoryStream → List ℕ → ℕ → MemoryStream → Type 0
Enlarged s front n s' =
    (spare : List ℕ) × IsSplit s' front [] spare
    × (n ≤ length spare)
    × IsBounded s'
    × (s'.size_limit ≡ s.size_limit)

-- Where the bytes have no room the block grows by at least what is missing.
enlarge_size_bounds :
    (s : MemoryStream) (n left : ℕ)
    → left < n
    → n < 2 ^ 31
    → s.buffer_limit ≤ s.size_limit
    → s.size_limit < 2 ^ 32
    → n - left ≤ s.size_limit - s.buffer_limit
    → (n - left ≤ enlarge_size s n left) × (enlarge_size s n left ≤ s.size_limit - s.buffer_limit)
unfolding enlarge_size
enlarge_size_bounds s n left h hn hl hs room = ground arith

-- The move into a larger block.
moved-Enlarged :
    (s : MemoryStream) (front spare block : List ℕ) (n size : ℕ)
    → IsSplit s front [] spare
    → IsBounded s
    → n ≤ length spare + size
    → size ≤ s.size_limit - s.buffer_limit
    → length block ≡ add32 s.buffer_limit size
    → Enlarged s front n (record s {
      buffer = take s.buffer_size s.buffer ++ drop s.buffer_size block;
      buffer_limit = add32 s.buffer_limit size;
    })
moved-Enlarged s front spare block n size (eb, ep, es, el) b lo hi wide = (
  drop s.buffer_size block,
  (
    ap (λ l. l ++ drop s.buffer_size block) copied,
    ep,
    es,
    omega (arith, length-drop s.buffer_size block, b.limited, b.small),
  ),
  omega (arith, length-drop s.buffer_size block, b.limited, b.small),
  record { limited = omega (arith, b.limited, b.small); small = b.small; writable = b.writable },
  refl,
)
  where
    copied : take s.buffer_size s.buffer ≡ front
    copied =
        ap (λ l. take s.buffer_size l) eb
        ∙ ap (λ k. take k (front ++ spare)) (es ∙ add-zero (length front))
        ∙ take-append_length front spare

enlarge-Enlarged :
    (malloc : ℕ → Option (List ℕ)) (s : MemoryStream) (front spare : List ℕ) (n : ℕ)
    → Allocates malloc
    → IsSplit s front [] spare
    → IsBounded s
    → n < 2 ^ 31
    → length front + n ≤ s.size_limit
    → Enlarged s front n (enlarge malloc s n)
unfolding enlarge
enlarge-Enlarged malloc s front spare n al p b hn room =
    elim (Bool-cases (ltb (sub32 s.buffer_limit s.buffer_position) n)) [
      | inr e ↦ rw e (spare, p, omega (arith, p, b.limited, b.small, ltb→ge _ _ e), b, refl)
      | inl e ↦
          let (lo, hi) =
            enlarge_size_bounds s n left (ltb→lt _ _ e) hn b.limited b.small
              (omega (arith, p, b.limited, b.small)) in
          let (block, got, wide) = al (add32 s.buffer_limit (enlarge_size s n left)) in
          rw (e, some_growth lo (ltb→lt _ _ e), got)
            (moved-Enlarged s front spare block n (enlarge_size s n left) p b
              (omega (arith, p, lo, b.limited, b.small)) hi wide)
    ]
  where
    left : ℕ
    left = sub32 s.buffer_limit s.buffer_position

    some_growth : n - left ≤ enlarge_size s n left → left < n → (enlarge_size s n left == 0) ≡ false
    some_growth lo h = ground arith

-- The outcome of writing `bs` at the end of `front`: all of it is written, over the first bytes of
-- `rest` and on behind them.
abbrev pub Writes : (ℕ → Option (List ℕ)) → MemoryStream → List ℕ → List ℕ → List ℕ → Type 0
Writes malloc s front rest bs =
    (s' : MemoryStream) × (spare : List ℕ) × (write_data malloc s bs ≡ some (s', length bs))
    × IsSplit s' (front ++ bs) (drop (length bs) rest) spare
    × IsBounded s'
    × (s'.size_limit ≡ s.size_limit)

module _ (malloc : ℕ → Option (List ℕ)) (s : MemoryStream) (b : IsBounded s) where
  -- Nothing is left behind the overwriting.
  within_lem :
      (s₁ : MemoryStream) (bs : List ℕ)
      → overwrite s bs ≡ some (s₁, [])
      → write_data malloc s bs ≡ some (s₁, length bs)
  unfolding write_data write_allowed
  within_lem s₁ bs e = if-false (some (s, 0)) _ b.writable ∙ rw (e, write_allowed) refl

  -- Something is left, and goes behind the end.
  behind_lem :
      (s₁ s₂ : MemoryStream) (bs u : List ℕ) (x : ℕ)
      → overwrite s bs ≡ some (s₁, x ∷ u)
      → extend (enlarge malloc s₁ (length (x ∷ u))) (x ∷ u) ≡ some (s₂, 0)
      → write_data malloc s bs ≡ some (s₂, length bs)
  unfolding write_data write_allowed
  behind_lem s₁ s₂ bs u x e e₂ =
      if-false (some (s, 0)) _ b.writable
      ∙ rw (e, write_allowed, nonzero (length u), e₂)
          (ap (λ n. some (s₂, n)) (sub-zero (length bs)))

  behind-Writes :
      (s₁ : MemoryStream) (front front₁ rest spare bs u : List ℕ) (x : ℕ)
      → Allocates malloc
      → overwrite s bs ≡ some (s₁, x ∷ u)
      → IsSplit s₁ front₁ [] spare
      → IsBounded s₁
      → s₁.size_limit ≡ s.size_limit
      → length (x ∷ u) < 2 ^ 31
      → front₁ ++ (x ∷ u) ≡ front ++ bs
      → length front₁ + length (x ∷ u) ≤ s₁.size_limit
      → drop (length bs) rest ≡ []
      → Writes malloc s front rest bs
  behind-Writes s₁ front front₁ rest spare bs u x al e p b₁ same hu whole room gone =
      let (spare₂, p₂, fits, b₂, same₂) =
        enlarge-Enlarged malloc s₁ front₁ spare (length (x ∷ u)) al p b₁ hu room in
      let s₂ = enlarge malloc s₁ (length (x ∷ u)) in
      (
        extended s₂ front₁ spare₂ (x ∷ u),
        drop (length (x ∷ u)) spare₂,
        behind_lem s₁ _ bs u x e
            (extend-some s₂ front₁ spare₂ u x p₂ (omega (arith, p₂, b₂.limited, b₂.small)) fits),
        subst
            (λ l.
              IsSplit (extended s₂ front₁ spare₂ (x ∷ u)) l (drop (length bs) rest)
                (drop (length (x ∷ u)) spare₂))
            whole (rw gone (extended-IsSplit s₂ front₁ spare₂ (x ∷ u) p₂ fits)),
        record { limited = b₂.limited; small = b₂.small; writable = b₂.writable },
        same₂ ∙ same,
      )

-- At the end of the contents nothing is overwritten.
at_end :
    (s : MemoryStream) (bs front spare : List ℕ)
    → IsSplit s front [] spare
    → overwrite s bs ≡ some (s, bs)
unfolding overwrite
at_end s bs front spare (eb, ep, es, el) = if-true _ _ none_left
  where
    same : s.buffer_size ≡ s.buffer_position
    same = es ∙ add-zero (length front) ∙ sym ep

    none_left : (sub32 s.buffer_size s.buffer_position == 0) ≡ true
    none_left = ap (λ n. sub32 n s.buffer_position == 0) same ∙ ground arith

split_list :
    (n : ℕ) (bs : List ℕ)
    → n < length bs
    → (w : List ℕ) × (y : ℕ) × (u : List ℕ) × (bs ≡ w ++ (y ∷ u)) × (length w ≡ n)
split_list n [] h = absurd (omega arith)
split_list zero (y ∷ u) h = ([], y, u, refl, refl)
split_list (suc n) (x ∷ xs) h =
    let (w, y, u, e, l) = split_list n xs (omega arith) in
    (x ∷ w, y, u, ap (λ t. x ∷ t) e, ap suc l)

drop_past : (n : ℕ) (xs : List ℕ) → length xs ≤ n → drop n xs ≡ []
drop_past zero [] h = refl
drop_past zero (x ∷ xs) h = absurd (omega arith)
drop_past (suc n) [] h = refl
drop_past (suc n) (x ∷ xs) h = drop_past n xs (omega arith)

-- A memory stream is a file. Writing at any position of its contents, with room below the limit that
-- the stream was created with and an allocator that does not fail: no access leaves the block, all
-- bytes are written, they replace the contents behind the position and extend them where those end,
-- and the position stands behind them.
pub write_data_lem :
    (malloc : ℕ → Option (List ℕ)) (s : MemoryStream) (front rest spare bs : List ℕ)
    → Allocates malloc
    → IsSplit s front rest spare
    → IsBounded s
    → length bs < 2 ^ 31
    → length front + length bs ≤ s.size_limit
    → Writes malloc s front rest bs
write_data_lem malloc s front [] spare [] al p b hn room =
    (s, spare, within_lem malloc s b s [] (at_end s [] front spare p), rw append-nil p, b, refl)
write_data_lem malloc s front [] spare (y ∷ u) al p b hn room =
    behind-Writes malloc s b s front front [] spare (y ∷ u) u y al (at_end s (y ∷ u) front spare p)
      p b refl hn refl room refl
write_data_lem malloc s front (x ∷ xs) spare bs al p b hn room =
    elim (Bool-cases (leb (length bs) (length (x ∷ xs)))) [
      | inl le ↦
          let fits : length bs ≤ length (x ∷ xs) = leb→le _ _ le in
          let over : overwrite s (bs ++ []) ≡ some (overwritten s front (x ∷ xs) spare bs, []) =
            overwrite-some s front spare bs [] x xs p small
              (omega (arith, ap length (append-nil bs))) in
          (
            overwritten s front (x ∷ xs) spare bs,
            spare,
            within_lem malloc s b _ bs (rw append-nil at over),
            overwritten-IsSplit s front (x ∷ xs) spare bs p fits,
            record { limited = b.limited; small = b.small; writable = b.writable },
            refl,
          )
      | inr gt ↦
          let (w, y, u, e, l) = split_list (length (x ∷ xs)) bs (leb→gt _ _ gt) in past w y u e l
    ]
  where
    small : length front + length (x ∷ xs) + length spare < 2 ^ 32
    small = omega (arith, p, b.limited, b.small)

    past :
        (w : List ℕ) (y : ℕ) (u : List ℕ)
        → bs ≡ w ++ (y ∷ u)
        → length w ≡ length (x ∷ xs)
        → Writes malloc s front (x ∷ xs) bs
    past w y u e l =
        behind-Writes malloc s b (overwritten s front (x ∷ xs) spare w) front (front ++ w) (x ∷ xs)
          spare bs u y al
          (rw e (
            overwrite-some s front spare w (y ∷ u) x xs p small
              (omega (arith, l, length-append w (y ∷ u)))))
          (subst (λ r. IsSplit (overwritten s front (x ∷ xs) spare w) (front ++ w) r spare)
            (drop_past (length w) (x ∷ xs) (omega (arith, l)))
            (overwritten-IsSplit s front (x ∷ xs) spare w p (omega (arith, l))))
          (record { limited = b.limited; small = b.small; writable = b.writable }) refl
          (omega (arith, ap length e, length-append w (y ∷ u)))
          (append_assoc front w (y ∷ u) ∙ ap (λ t. front ++ t) (sym e))
          (omega (arith, ap length e, length-append w (y ∷ u), length-append front w))
          (drop_past (length bs) (x ∷ xs) (omega (arith, ap length e, l, length-append w (y ∷ u))))
