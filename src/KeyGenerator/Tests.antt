-- ===== src/KeyGenerator/Tests.antt =====
-- The theorems on key generators at concrete inputs. The generator of the library counts.
use compaction_test.Base.{
  ℕ, suc, ◌-◌, ◌%◌, ◌^◌, some, none, List, [], ◌++◌, Bytes, length, replicate, reverse,
  length-reverse_lem, true, ◌≡◌, refl, arith,
}
use compaction_test.Slice.{compare_slice}
use compaction_test.KeyGenerator.{KeyGenerator, sequential, unique_random, new_key_generator}
use Prim.Native.Nat.{Ordering}
use compaction_test.Base.{◌*◌, ◌+◌, ◌≢◌, All, ◌∷◌}
use compaction_test.Slice.Order.{compare_slice-IsComparator, equal_slice_iff}
use compaction_test.Comparator.{Comparator, KvMap, base_comparator}
use compaction_test.Comparator.Laws.{IsLawful, IsKvMap, find}
use compaction_test.KeyGenerator.Spanning.{SpanningKeyGenerator, generate_content, content_value}
use compaction_test.KeyGenerator.Content.{expected, generate_content_lem}
use compaction_test.KeyGenerator.Draws.{draws, range, zeros, unique_draws}

abbrev blank : Bytes
blank = replicate 10 0

abbrev counting : ℕ → ℕ × ℕ
counting n = (n, suc n)

abbrev backwards : ℕ → List ℕ → List ℕ
backwards seed xs = reverse xs

abbrev as_given : List ℕ → List ℕ
as_given xs = xs

abbrev sequential_5 : KeyGenerator
sequential_5 = record {
  mode = sequential;
  min_value = 5;
  distinct_num = 1000;
  next = 0;
  key_size = 10;
  values = [];
}

unique_draws_example :
    (g : KeyGenerator) × (new_key_generator ℕ counting backwards as_given unique_random 5 9 16 2 0
      ≡ some (0, g))
    × (draws ℕ counting 5 g 0 ≡ some (backwards (9 % 2 ^ 32) (zeros 2 ++ range 2 (5 - 2))))
    × (draws ℕ counting 6 g 0 ≡ none)
unique_draws_example =
    unique_draws ℕ counting backwards as_given 5 9 16 2 0 (λ seed xs. length-reverse_lem xs)
      (omega arith) (omega arith)

-- The order of bytes, with the functions that change nothing.
abbrev bytewise : Comparator
bytewise = base_comparator 1 0 compare_slice [] (λ start limit. start) (λ key. key)

same_gt : (a : Bytes) → compare_slice a a ≢ Ordering.gt
same_gt a e = ground (arith, compare_slice-IsComparator.same a, e)

bytewise-IsLawful : IsLawful bytewise
unfolding base_comparator
bytewise-IsLawful = record {
  order = compare_slice-IsComparator;
  equal_iff = λ a b. refl;
  separator = λ start limit h. (same_gt start, h);
  successor = same_gt;
}

bytewise_apart : (a b : Bytes) → bytewise.compare a b ≡ Ordering.eq → a ≡ b
unfolding base_comparator
bytewise_apart a b e = (equal_slice_iff a b).1.0 e

-- Two numbers that agree up to the number of keys.
abbrev spanning : SpanningKeyGenerator
spanning = record { lower_bound = 0; upper_bound = 2000; result_list = 7 ∷ 1007 ∷ [] }

generate_content_lem_example :
    (content : KvMap) × (last : Bytes) × (generate_content true bytewise sequential_5 spanning 40
        blank
      ≡ some (content, 40 + 2 * length spanning.result_list, last))
    × (length content ≡ length spanning.result_list)
    × IsKvMap bytewise content
    × All
        (λ k. find bytewise bytewise-IsLawful k content ≡ some content_value)
        (expected 1000 10 40 spanning.result_list)
generate_content_lem_example =
    generate_content_lem bytewise bytewise-IsLawful bytewise_apart sequential_5 (omega arith)
      spanning 40 blank refl (omega arith)
