-- ===== src/KeyGenerator/Spanning.antt =====
-- `SpanningKeyGenerator` of include/gear_bench_classes.h: a set of drawn keys, and the map of entries
-- that is made of it.
use compaction_test.Base.{
  assert, ℕ, zero, suc, ◌+◌, ◌%◌, ◌^◌, Option, some, List, [], ◌∷◌, Bool, ltb, if◌then◌else◌, ◌>>=◌,
  Bytes,
}
use compaction_test.KeyGenerator.{KeyGenerator, generate_key_from_int}
use compaction_test.InternalKey.{type_value}
use compaction_test.InternalKey.Comparator.{internal_key}
use compaction_test.Comparator.{Comparator, KvMap, emplace}

pub data DistributionType : Type 0 where
  uniform_numbers other_numbers : DistributionType

pub record SpanningKeyGenerator : Type 0 where
  pub lower_bound : ℕ
  pub upper_bound : ℕ
  pub result_list : List ℕ

-- `insert` of a `std::set`, in the order of its numbers.
unfoldable pub set_insert : ℕ → List ℕ → List ℕ
set_insert k [] = k ∷ []
set_insert k (j ∷ s) =
    let later = set_insert k s in
    if ltb k j then k ∷ j ∷ s else if ltb j k then j ∷ later else j ∷ s

-- `distribute lower upper` draws from `std::uniform_int_distribution` over these bounds.
module _ (Engine : Type 0) (distribute : ℕ → ℕ → Engine → ℕ × Engine) where
  unfoldable pub insert_loop : ℕ → ℕ → ℕ → Engine → List ℕ → Engine × List ℕ
  unfolding set_insert
  insert_loop zero lower upper engine s = (engine, s)
  insert_loop (suc left) lower upper engine s =
      let drawn = distribute lower upper engine in
      insert_loop left lower upper drawn.1 (set_insert drawn.0 s)

  -- The constructor, with the engine of its seed.
  unfoldable pub new_spanning_key_generator :
      ℕ → ℕ → ℕ → Engine → DistributionType → Option (Engine × SpanningKeyGenerator)
  unfolding insert_loop
  new_spanning_key_generator lower upper num_keys engine distribution =
      assert (ltb lower upper) (elim distribution [
        | uniform_numbers ↦
            let made = insert_loop num_keys lower upper engine [] in
            some (made.0, record { lower_bound = lower; upper_bound = upper; result_list = made.1 })
        | other_numbers ↦
            some (engine, record { lower_bound = lower; upper_bound = upper; result_list = [] })
      ])

-- The text "1234567890".
abbrev pub content_value : Bytes
content_value = 49 ∷ 50 ∷ 51 ∷ 52 ∷ 53 ∷ 54 ∷ 55 ∷ 56 ∷ 57 ∷ 48 ∷ []

-- The loop of `GenerateContent`: the map, `*seqno` and the memory of the generator's key afterwards.
-- The sequence number goes up by two for each key.
module _ (little : Bool) (c : Comparator) (g : KeyGenerator) where
  unfoldable pub content_loop : List ℕ → ℕ → Bytes → KvMap → Option (KvMap × ℕ × Bytes)
  unfolding generate_key_from_int internal_key emplace
  content_loop [] seqno buffer content = some (content, seqno, buffer)
  content_loop (key ∷ keys) seqno buffer content = do
    text ← generate_key_from_int little key g.distinct_num buffer g.key_size
    let first = (seqno + 1) % 2 ^ 64
    ikey ← internal_key little text first type_value
    content_loop keys ((first + 1) % 2 ^ 64) text (emplace c ikey content_value content)

  unfoldable pub generate_content : SpanningKeyGenerator → ℕ → Bytes → Option (KvMap × ℕ × Bytes)
  unfolding content_loop
  generate_content spanning seqno buffer = content_loop spanning.result_list seqno buffer []
