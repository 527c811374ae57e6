-- ===== src/Merger/FileNames.antt =====
-- `FileNameCreator` of include/merger.h and include/merger.cc: the names of new tables.
use compaction_test.Base.{
  ℕ, zero, suc, ◌+◌, ◌-◌, ◌%◌, ◌^◌, ◌<◌, ◌≤◌, List, [], ◌∷◌, ◌++◌, append_assoc, length-append,
  drop-append_left, ltb, if◌then◌else◌, Bytes, length, replicate, drop, All, ◌≡◌, ◌≢◌, sym, ap, ◌∙◌,
  arith,
}
use compaction_test.Strings.Digits.{digits, value-append, value-zeros, value-digits}
use compaction_test.Strings.Decimal.{value_from}

-- `file_number` is the word of an `int`.
pub record FileNameCreator : Type 0 where
  pub file_number : ℕ
  pub base_dir : Bytes

unfoldable pub new_file_name_creator : Bytes → FileNameCreator
new_file_name_creator dir_name = record { file_number = 0; base_dir = dir_name }

-- A number of 32 bits has no more than ten digits.
unfoldable pub print_int : ℕ → Bytes
print_int w = if ltb w (2 ^ 31) then digits 10 w else b'-' ∷ digits 10 (2 ^ 32 - w)

-- `std::setfill('0')` and `std::setw(8)`.
unfoldable pub fill_to_eight : Bytes → Bytes
fill_to_eight text = replicate (8 - length text) b'0' ++ text

abbrev pub suffix_text : Bytes
suffix_text = b'.' ∷ b's' ∷ b's' ∷ b't' ∷ []

-- `NextFileName`; `fetch_add` wraps around.
unfoldable pub next_file_name : FileNameCreator → Bytes × FileNameCreator
unfolding print_int fill_to_eight
next_file_name c = (
  c.base_dir ++ b'/' ∷ [] ++ fill_to_eight (print_int c.file_number) ++ suffix_text,
  record c { file_number = (c.file_number + 1) % 2 ^ 32 },
)

-- The number in a name.
value-name : (n : ℕ) → n < 2 ^ 31 → value_from 0 (fill_to_eight (print_int n)) ≡ n
unfolding fill_to_eight print_int
value-name n h =
    ground
      (arith, value-zeros (8 - length (digits 10 n)) (digits 10 n), value-digits 10 n (omega arith))

-- The names of so many calls.
unfoldable pub names_from : ℕ → FileNameCreator → List Bytes
unfolding next_file_name
names_from zero c = []
names_from (suc n) c = (next_file_name c).0 ∷ names_from n (next_file_name c).1

-- A name after its directory, with the suffix read as four digits more.
name_value :
    (base : Bytes) (n : ℕ)
    → n < 2 ^ 31
    → value_from 0
        (drop (length base + 1) (next_file_name (record { file_number = n; base_dir = base })).0)
      ≡ value_from n suffix_text
unfolding next_file_name
name_value base n h =
    let front = base ++ b'/' ∷ [] in
    let text = fill_to_eight (print_int n) in
    let size : length base + 1 ≡ length front = omega (arith, length-append base (b'/' ∷ [])) in
    ap (λ s. value_from 0 (drop (length base + 1) s)) (append_assoc front text suffix_text)
    ∙ ap (value_from 0) (drop-append_left (length base + 1) front (text ++ suffix_text) size)
    ∙ value-append 0 text suffix_text
    ∙ ap (λ k. value_from k suffix_text) (value-name n h)

suffix_cancel : (m n : ℕ) → value_from m suffix_text ≡ value_from n suffix_text → m ≡ n
suffix_cancel m n e = omega arith

-- Different names have different numbers.
name_number :
    (base : Bytes) (m n : ℕ)
    → m < 2 ^ 31
    → n < 2 ^ 31
    → (next_file_name (record { file_number = m; base_dir = base })).0
      ≡ (next_file_name (record { file_number = n; base_dir = base })).0
    → m ≡ n
name_number base m n hm hn e = suffix_cancel m n (
    sym (name_value base m hm)
    ∙ ap (λ s. value_from 0 (drop (length base + 1) s)) e
    ∙ name_value base n hn)

abbrev pub AllDifferent : List Bytes → Type 0
AllDifferent [] = Unit
AllDifferent (x ∷ xs) = All (λ y. x ≢ y) xs × AllDifferent xs

later_names :
    (n m : ℕ) (c : FileNameCreator)
    → m < c.file_number
    → c.file_number + n ≤ 2 ^ 31
    → All
        (λ y. (next_file_name (record { file_number = m; base_dir = c.base_dir })).0 ≢ y)
        (names_from n c)
unfolding names_from next_file_name
later_names zero m c h k = tt
later_names (suc n) m c h k = (
  λ e. omega (arith, name_number c.base_dir m c.file_number (omega arith) (omega arith) e),
  later_names n m (next_file_name c).1 (omega arith) (omega arith),
)

-- The names that one creator gives, as long as its number is below 2 ^ 31, are all different.
pub next_file_name-AllDifferent :
    (n : ℕ) (c : FileNameCreator) → c.file_number + n ≤ 2 ^ 31 → AllDifferent (names_from n c)
unfolding names_from next_file_name
next_file_name-AllDifferent zero c h = tt
next_file_name-AllDifferent (suc n) c h = (
  later_names n c.file_number (next_file_name c).1 (omega arith) (omega arith),
  next_file_name-AllDifferent n (next_file_name c).1 (omega arith),
)
