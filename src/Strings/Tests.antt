-- ===== src/Strings/Tests.antt =====
-- The theorems on utils/string_util.cc at concrete inputs.
use compaction_test.Base.{some, [], ◌∷◌, ◌++◌, Bytes, ◌≡◌, refl, true, All, ◌⊎◌, arith}
use compaction_test.Strings.{escape_option_string, unescape_option_string, consume_decimal_number}
use compaction_test.Strings.Escape.{unescape-escape_option_string}
use compaction_test.Strings.Numbers.{number_to_string, consume_decimal_number-number_to_string}
use compaction_test.Strings.Split.{string_split, terminated, LacksIt, terminated-string_split}

unescape-escape_option_string_example :
    unescape_option_string (escape_option_string (b'a' ∷ 10 ∷ 92 ∷ [])) ≡ b'a' ∷ 10 ∷ 92 ∷ []
unescape-escape_option_string_example = unescape-escape_option_string (b'a' ∷ 10 ∷ 92 ∷ [])

consume_decimal_number-number_to_string_example :
    consume_decimal_number (number_to_string 4200 ++ (b'k' ∷ []))
    ≡ record { returned = true; val = some 4200; left = b'k' ∷ [] }
consume_decimal_number-number_to_string_example =
    consume_decimal_number-number_to_string 4200 (b'k' ∷ []) (omega arith) refl

-- The text "a,,b".
abbrev three_items : Bytes
three_items = b'a' ∷ b',' ∷ b',' ∷ b'b' ∷ []

terminated-string_split_example :
    ((terminated b',' (string_split three_items b',') ≡ three_items)
      ⊎ (terminated b',' (string_split three_items b',') ≡ three_items ++ b',' ∷ []))
    × All (LacksIt b',') (string_split three_items b',')
terminated-string_split_example = terminated-string_split three_items b','
