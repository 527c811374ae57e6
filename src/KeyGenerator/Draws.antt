-- ===== src/KeyGenerator/Draws.antt =====
-- What a generator of listed keys draws.
use native.Mathlib.Nat.{mod-eq_of_lt}
use mathlib.Core.Path.{ap₂}
use compaction_test.Base.{
  ℕ, zero, suc, ◌+◌, ◌-◌, ◌%◌, ◌^◌, ◌<◌, ◌≤◌, Option, some, none, List, [], ◌∷◌, ◌++◌, true, ltb,
  ◌>>=◌, length, replicate, length-replicate, replicate_split, drop, get_elem?, get_elem?-some,
  drop-get_elem?, drop_all, length-append, append_assoc, ◌≡◌, refl, sym, ap, ◌∙◌, arith,
}
use compaction_test.KeyGenerator.{
  KeyGenerator, sequential, unique_random, set_elem, unique_loop, listed_values, new_key_generator,
  advanced, next_listed, next_in_mode, next_value, set_next, seq_next,
}

abbrev pub zeros : ℕ → List ℕ
zeros n = replicate n 0

abbrev pub range : ℕ → ℕ → List ℕ
range i zero = []
range i (suc n) = i ∷ range (suc i) n

length-range : (i n : ℕ) → length (range i n) ≡ n
length-range i zero = refl
length-range i (suc n) = ap suc (length-range (suc i) n)

set_elem_lem :
    (front rest : List ℕ) (x v : ℕ)
    → set_elem (length front) v (front ++ (x ∷ rest)) ≡ some (front ++ (v ∷ rest))
set_elem_lem [] rest x v = refl
set_elem_lem (y ∷ front) rest x v = simp (set_elem_lem front rest x v)

-- The loop writes each place's own number to it, from the place after `front` on.
unique_loop_lem :
    (n i : ℕ) (front : List ℕ)
    → i ≡ length front
    → unique_loop n i (front ++ replicate n 0) ≡ some (front ++ range i n)
unfolding unique_loop
unique_loop_lem zero i front e = refl
unique_loop_lem (suc n) i front e =
    let set : set_elem i i (front ++ (0 ∷ replicate n 0)) ≡ some (front ++ (i ∷ replicate n 0)) =
      ap (λ k. set_elem k i (front ++ (0 ∷ replicate n 0))) e
      ∙ set_elem_lem front (replicate n 0) 0 i in
    let next =
      unique_loop_lem n (suc i) (front ++ (i ∷ [])) (omega (arith, length-append front (i ∷ []))) in
    simp (
      set,
      sym (append_assoc front (i ∷ []) (replicate n 0)),
      next,
      append_assoc front (i ∷ []) (range (suc i) n),
    )

module _ (Rand : Type 0) (draw : Rand → ℕ × Rand) where
  -- The values of so many calls of `Next`.
  unfoldable pub draws : ℕ → KeyGenerator → Rand → Option (List ℕ)
  unfolding next_value
  draws zero g rand = some []
  draws (suc n) g rand = do
    t ← next_value Rand draw g rand
    rest ← draws n t.2 t.1
    some (t.0 ∷ rest)

  unique_value :
      (g : KeyGenerator) (rand : Rand)
      → g.mode ≡ unique_random
      → next_value Rand draw g rand ≡ next_listed Rand draw g rand
  unfolding next_value
  unique_value g rand m = ap (λ mode. next_in_mode Rand draw mode g rand) m

  no_more :
      (g : KeyGenerator) (rand : Rand)
      → g.mode ≡ unique_random
      → g.next ≡ g.distinct_num
      → next_value Rand draw g rand ≡ none
  unfolding next_listed
  no_more g rand m e = unique_value g rand m ∙ ground (arith, e)

  one_more :
      (g : KeyGenerator) (rand : Rand) (v : ℕ)
      → g.mode ≡ unique_random
      → g.next < g.distinct_num
      → get_elem? g.values g.next ≡ some v
      → next_value Rand draw g rand ≡ some (v, rand, advanced Rand draw g)
  unfolding next_listed
  one_more g rand v m h e =
      let inside : ltb g.next g.distinct_num ≡ true = ground (arith, h) in
      unique_value g rand m ∙ simp (inside, e)

  -- All values that are left, in their order, and then no more.
  draws_listed :
      (n : ℕ) (g : KeyGenerator) (rand : Rand)
      → g.mode ≡ unique_random
      → length g.values ≡ g.distinct_num
      → g.distinct_num < 2 ^ 64
      → n + g.next ≡ g.distinct_num
      → (draws n g rand ≡ some (drop g.next g.values)) × (draws (suc n) g rand ≡ none)
  unfolding draws
  draws_listed zero g rand m size small all = (
    ap some (sym (drop_all g.next g.values (omega arith))),
    simp (no_more g rand m (omega (arith, all))),
  )
  draws_listed (suc n) g rand m size small all =
      let (v, e) = get_elem?-some g.values g.next (omega arith) in
      let first = one_more g rand v m (omega arith) e in
      let after : (g.next + 1) % 2 ^ 64 ≡ suc g.next = mod-eq_of_lt (omega arith) ∙ omega arith in
      let (rest, over) =
        draws_listed n (advanced Rand draw g) rand m size small (omega (arith, after)) in
      let left = rest ∙ ap (λ k. some (drop k g.values)) after in
      (simp (first, left) (ap some (sym (drop-get_elem? g.values g.next v e))), simp (first, over))

  -- A generator of unique random keys is made and then draws the shuffled list to its end, and fails
  -- an assertion at the next draw. The list has every number from the least value to the number of
  -- keys once, and as many zeros as the least value. Shuffling keeps the length, the numbers are of
  -- 64 bits, and the least value is no more than the number of keys.
  pub unique_draws :
      (shuffle : ℕ → List ℕ → List ℕ) (sort : List ℕ → List ℕ) (num seed key_size low : ℕ)
      (rand : Rand)
      → ((s : ℕ) (xs : List ℕ) → length (shuffle s xs) ≡ length xs)
      → low ≤ num
      → num < 2 ^ 64
      → (g : KeyGenerator) × (new_key_generator Rand draw shuffle sort unique_random num seed
            key_size low rand
          ≡ some (rand, g))
        × (draws num g rand ≡ some (shuffle (seed % 2 ^ 32) (zeros low ++ range low (num - low))))
        × (draws (suc num) g rand ≡ none)
  unfolding new_key_generator listed_values
  unique_draws shuffle sort num seed key_size low rand same le small =
      let split : zeros num ≡ zeros low ++ zeros (num - low) = replicate_split num low 0 le in
      let listed : List ℕ = zeros low ++ range low (num - low) in
      let filled : unique_loop (num - low) low (zeros num) ≡ some listed =
        ap (λ xs. unique_loop (num - low) low xs) split
        ∙ unique_loop_lem (num - low) low (zeros low) (sym (length-replicate {A = ℕ} low 0)) in
      let values = shuffle (seed % 2 ^ 32) listed in
      let g : KeyGenerator = record {
        mode = unique_random;
        min_value = low;
        distinct_num = num;
        next = 0;
        key_size = key_size;
        values = values;
      } in
      let size : length values ≡ num =
        same (seed % 2 ^ 32) listed
        ∙ omega (
          arith,
          length-append (zeros low) (range low (num - low)),
          length-replicate {A = ℕ} low 0,
          length-range low (num - low),
        ) in
      let (all, over) = draws_listed num g rand refl size small (omega arith) in
      (g, simp filled, all, over)

  draws_sequential :
      (n : ℕ) (g : KeyGenerator) (rand : Rand)
      → g.mode ≡ sequential
      → g.min_value + g.next + n < 2 ^ 64
      → draws n g rand ≡ some (range (g.min_value + g.next) n)
  unfolding draws next_value next_in_mode
  draws_sequential zero g rand m small = refl
  draws_sequential (suc n) g rand m small =
      let first : next_value Rand draw g rand
          ≡ some ((g.min_value + g.next) % 2 ^ 64, rand, advanced Rand draw g) =
        ap (λ mode. next_in_mode Rand draw mode g rand) m in
      let after : (g.next + 1) % 2 ^ 64 ≡ suc g.next = mod-eq_of_lt (omega arith) ∙ omega arith in
      let value : (g.min_value + g.next) % 2 ^ 64 ≡ g.min_value + g.next =
        mod-eq_of_lt (omega arith) in
      let rest = draws_sequential n (advanced Rand draw g) rand m (omega (arith, after)) in
      let from : g.min_value + (g.next + 1) % 2 ^ 64 ≡ suc (g.min_value + g.next) =
        omega (arith, after) in
      simp (first, rest, value, from)

-- The values of so many calls of `SeqKeyGenerator::Next`.
unfoldable pub seq_draws : ℕ → KeyGenerator → List ℕ
unfolding seq_next
seq_draws zero g = []
seq_draws (suc n) g = (seq_next g).0 ∷ seq_draws n (seq_next g).1

seq_draws_lem : (n : ℕ) (g : KeyGenerator) → seq_draws n g ≡ replicate n (2 ^ 64 - 1)
unfolding seq_draws
seq_draws_lem zero g = refl
seq_draws_lem (suc n) g = ap₂ (λ (x : ℕ) xs. x ∷ xs) (omega arith) (seq_draws_lem n (seq_next g).1)

-- A sequential generator draws one number after the other, from its least value plus the number that
-- it was set to on, while these fit 64 bits. From any state, `SeqKeyGenerator` draws the greatest
-- number of 64 bits every time instead.
pub sequential_draws :
    (Rand : Type 0) (draw : Rand → ℕ × Rand) (n next : ℕ) (g : KeyGenerator) (rand : Rand)
    → g.mode ≡ sequential
    → g.min_value + next + n < 2 ^ 64
    → (draws Rand draw n (set_next next g) rand ≡ some (range (g.min_value + next) n))
      × (seq_draws n (set_next next g) ≡ replicate n (2 ^ 64 - 1))
unfolding set_next
sequential_draws Rand draw n next g rand m small = (
  draws_sequential Rand draw n (record g { next = next }) rand m small,
  seq_draws_lem n (record g { next = next }),
)
