-- ===== src/Bench/Loop.antt =====
-- The loop over the files in `generate_files` of tools/gear_bench_tool.cc.
use compaction_test.Base.{
  ℕ, zero, suc, ◌+◌, ◌-◌, ◌*◌, ◌%◌, ◌^◌, ◌<◌, ◌≤◌, min, Option, some, List, [], ◌∷◌, ◌++◌,
  append_assoc, append-nil, map, true, leb, Bool-cases, Bytes, All, length, length-take,
  length-drop, concat, take, drop, replicate, ◌≡◌, refl, sym, ap, ◌∙◌, inl, inr, ◌⊎◌, if◌then◌else◌,
  arith,
}
use compaction_test.Base.Parts.{length-map, map-append, take-add, drop-drop}
use compaction_test.KeyGenerator.{KeyGenerator}
use compaction_test.Merger.FileNames.{FileNameCreator, next_file_name, names_from}
use compaction_test.Bench.{Written, value_text, fill_table, write_loop}
use compaction_test.Bench.Files.{made_key, IsGenerator, state, fill_lem}

module _ (Rand : Type 0) (draw : Rand → ℕ × Rand) (range : ℕ) (small : range < 2 ^ 64)
    (freed : List Bytes → List Bytes) (format : List Bytes → List Bytes → Option Bytes)
    (disk : List Bytes → Bytes)
    (total : (keys : List Bytes)
      → format (freed keys) (replicate (length keys) value_text) ≡ some (disk keys))
    (entries_per_file : ℕ) (one : 1 ≤ entries_per_file) where
  -- The entries of the next file, and the rounds of the inner loop that do nothing.
  next_count :
      (n : ℕ)
      → n ≤ range
      → (m : ℕ) × (extra : ℕ) × (m + extra ≡ entries_per_file)
        × (n + m ≤ range)
        × ((extra ≡ 0) ⊎ (n + m ≡ range))
        × (m ≡ min (range - n) entries_per_file)
  next_count n h = elim (Bool-cases (leb entries_per_file (range - n))) [
    | inr over ↦ (
      range - n,
      entries_per_file - (range - n),
      ground arith,
      omega arith,
      inr (omega arith),
      ground arith,
    )
    | inl fits ↦ (entries_per_file, 0, omega arith, ground arith, inl refl, ground arith)
  ]

  one_more : (k m : ℕ) → m ≡ entries_per_file → suc k * entries_per_file ≡ m + k * entries_per_file
  one_more k m e = grind arith

  pred_lem : (k : ℕ) → suc k - 1 ≡ k
  pred_lem k = omega arith

  least_count :
      (n m k : ℕ)
      → m ≡ entries_per_file
      → n + m + 1 < range
      → (k ≡ 1) ⊎ (n + m + (k - 1) * entries_per_file + 1 < range)
      → n + (suc k - 1) * entries_per_file + 1 < range
  least_count n m zero e more last = omega arith
  least_count n m (suc k) e more last =
      let product = one_more k m e in
      let left : (suc (suc k) - 1) * entries_per_file ≡ suc k * entries_per_file =
        ap (λ j. j * entries_per_file) (omega arith) in
      elim last [
        | inl first ↦
            let none_more : k ≡ 0 = omega arith in
            let none_left : k * entries_per_file ≡ 0 =
              ap (λ j. j * entries_per_file) none_more ∙ omega arith in
            omega (arith, product, left, none_left)
        | inr after ↦
            omega (arith, product, left, ap (λ j. j * entries_per_file) (pred_lem k), after)
      ]

  -- What is written after so many values: the tables, from the values on.
  abbrev pub Tables : KeyGenerator → ℕ → List (List Bytes) → Type 0
  Tables g n tables =
      (concat tables
        ≡ map (made_key range)
            (take (min (range - n) (length tables * entries_per_file)) (drop n g.values)))
      × All (λ t. length t ≤ entries_per_file) tables
      × (range ≤ n + length tables * entries_per_file + 1)
      × ((length tables ≡ 1) ⊎ (n + (length tables - 1) * entries_per_file + 1 < range))

  module _ (g : KeyGenerator) (rand : Rand) where
    -- The keys of the next file.
    abbrev batch : ℕ → ℕ → List Bytes
    batch n m = map (made_key range) (take m (drop n g.values))

    length-batch : (n m : ℕ) → length g.values ≡ range → n + m ≤ range → length (batch n m) ≡ m
    length-batch n m e h = omega (
      arith,
      length-map (made_key range) (take m (drop n g.values)),
      length-take m (drop n g.values),
      length-drop n g.values,
    )

    abbrev written : Written → FileNameCreator → List Bytes → Written
    written w creator keys = record {
      names = w.names ++ (next_file_name creator).0 ∷ [];
      tables = w.tables ++ keys ∷ [];
      contents = w.contents ++ disk keys ∷ [];
    }

    -- The result, with these tables after those that were written before.
    abbrev extended :
        Written
        → List (List Bytes)
        → FileNameCreator
        → FileNameCreator
        → Option (FileNameCreator × Rand × Written)
    extended w tables creator last = some (
      last,
      rand,
      record {
        names = w.names ++ names_from (length tables) creator;
        tables = w.tables ++ tables;
        contents = w.contents ++ map disk tables;
      },
    )

    appended :
        (w : Written) (creator : FileNameCreator) (keys : List Bytes) (tables : List (List Bytes))
        (last : FileNameCreator)
        → extended (written w creator keys) tables (next_file_name creator).1 last
          ≡ extended w (keys ∷ tables) creator last
    unfolding names_from
    appended w creator keys tables last = λ i. some (
      last,
      rand,
      record {
        names =
            append_assoc w.names ((next_file_name creator).0 ∷ [])
              (names_from (length tables) (next_file_name creator).1) i;
        tables = append_assoc w.tables (keys ∷ []) tables i;
        contents = append_assoc w.contents (disk keys ∷ []) (map disk tables) i;
      },
    )

    -- One round writes one file.
    round_lem :
        (fuel n m extra : ℕ) (creator : FileNameCreator) (buffer : Bytes) (keys values : List Bytes)
        (w : Written)
        → IsGenerator range n (record g { next = n })
        → length buffer ≡ 8
        → n < range
        → m + extra ≡ entries_per_file
        → n + m ≤ range
        → (extra ≡ 0) ⊎ (n + m ≡ range)
        → (b : Bytes) × (length b ≡ 8)
          × (write_loop Rand draw true freed format
                (suc fuel)
                entries_per_file
                range
                creator
                (state Rand draw range small n (record g { next = n }) rand buffer keys values)
                w
              ≡ (if leb (range - 1) (n + m)
                  then some ((next_file_name creator).1, rand, written w creator (batch n m))
                  else write_loop Rand draw true freed format fuel entries_per_file range
                      (next_file_name creator).1
                      (state Rand draw range small
                        (n + m)
                        (record g { next = n + m })
                        rand
                        b
                        (batch n m)
                        (replicate m value_text))
                      (written w creator (batch n m))))
    unfolding write_loop
    round_lem fuel n m extra creator buffer keys values w ok eight h e le done =
        let (b, eb, filled) =
          fill_lem Rand draw range small m extra n (record g { next = n }) rand buffer [] [] ok
            eight le done in
        let filled' =
          ap
            (λ k.
              fill_table Rand draw true range k
                (state Rand draw range small n (record g { next = n }) rand buffer [] []))
            (sym e)
          ∙ filled in
        let form : format (freed (batch n m)) (replicate m value_text) ≡ some (disk (batch n m)) =
          ap (λ k. format (freed (batch n m)) (replicate k value_text))
            (sym (length-batch n m ok.count le))
          ∙ total (batch n m) in
        let last : (range + 2 ^ 64 - 1) % 2 ^ 64 ≡ range - 1 = omega arith in
        (b, eb, simp (filled', form, last))

    one_table :
        (n m : ℕ)
        → length g.values ≡ range
        → n + m ≤ range
        → m ≡ min (range - n) entries_per_file
        → range ≤ n + m + 1
        → Tables g n (batch n m ∷ [])
    one_table n m e le least near = (
      append-nil (batch n m) ∙ ap (batch n) (least ∙ ap (min (range - n)) (omega arith)),
      (omega (arith, length-batch n m e le), tt),
      omega arith,
      inl refl,
    )

    next_table :
        (n m : ℕ) (tables : List (List Bytes))
        → length g.values ≡ range
        → m ≡ entries_per_file
        → n + m + 1 < range
        → Tables g (n + m) tables
        → Tables g n (batch n m ∷ tables)
    next_table n m tables e full more (same, sizes, near, last) =
        let count : ℕ = min (range - (n + m)) (length tables * entries_per_file) in
        let product : suc (length tables) * entries_per_file
            ≡ m + length tables * entries_per_file =
          omega (arith, one_more (length tables) m full) in
        (
          ap (λ t. batch n m ++ t) same
              ∙ sym (
                  map-append (made_key range) (take m (drop n g.values))
                    (take count (drop (n + m) g.values)))
              ∙ ap (λ t. map (made_key range) (take m (drop n g.values) ++ take count t))
                  (sym (drop-drop m n g.values))
              ∙ ap (map (made_key range)) (sym (take-add m count (drop n g.values)))
              ∙ ap (batch n) (omega (arith, product)),
          (omega (arith, length-batch n m e (omega arith)), sizes),
          omega (arith, product),
          inr (least_count n m (length tables) full more last),
        )

    pub loop_lem :
        (fuel n : ℕ) (creator : FileNameCreator) (buffer : Bytes) (keys values : List Bytes)
        (w : Written)
        → IsGenerator range n (record g { next = n })
        → length buffer ≡ 8
        → n < range
        → range < n + fuel
        → (tables : List (List Bytes)) × (creator1 : FileNameCreator) × (write_loop Rand draw true
              freed format fuel entries_per_file range creator
              (state Rand draw range small n (record g { next = n }) rand buffer keys values)
              w
            ≡ extended w tables creator creator1)
          × Tables g n tables
    unfolding names_from
    loop_lem zero n creator buffer keys values w ok eight h f = absurd (omega arith)
    loop_lem (suc fuel) n creator buffer keys values w ok eight h f =
        let (m, extra, e, le, done, least) = next_count n (omega arith) in
        let (b, eb, round) =
          round_lem fuel n m extra creator buffer keys values w ok eight h e le done in
        let creator1 = (next_file_name creator).1 in
        let w1 : Written = written w creator (batch n m) in
        elim (Bool-cases (leb (range - 1) (n + m))) [
          | inl stop ↦ (
            batch n m ∷ [],
            creator1,
            round ∙ simp stop refl,
            one_table n m ok.count le least (ground (arith, stop)),
          )
          | inr go ↦
              let full : m ≡ entries_per_file = ground (arith, go, least) in
              let before : n + m + 1 < range = ground (arith, go) in
              let ok1 : IsGenerator range (n + m) (record g { next = n + m }) = record {
                mode = ok.mode;
                distinct = ok.distinct;
                size = ok.size;
                count = ok.count;
                next = refl;
              } in
              let (tables, creator2, rest, listed) =
                loop_lem fuel (n + m) creator1 b (batch n m) (replicate m value_text) w1 ok1 eb
                  (omega arith) (omega arith) in
              (
                batch n m ∷ tables,
                creator2,
                round ∙ simp go (rest ∙ appended w creator (batch n m) tables creator2),
                next_table n m tables ok.count full before listed,
              )
        ]
