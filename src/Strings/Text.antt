-- ===== src/Strings/Text.antt =====
-- utils/string_util.cc: trimming, prefixes and suffixes, the escapes of unprintable bytes, and sizes
-- for people. `is_space` is the library's `isspace`, and `decimal` its printing of numbers.
pub mod Trim
pub mod Human
mod Tests
use compaction_test.Base.{
  ℕ, zero, suc, ◌+◌, ◌-◌, ◌*◌, ◌/◌, ◌%◌, ◌^◌, Option, none, some, [], ◌∷◌, ◌++◌, Bool, true, false,
  ◌&&◌, ltb, leb, ◌==◌, if◌then◌else◌, Bytes, length, take, drop, get_elem?, ◌<<<◌, ◌>>>◌,
}
use compaction_test.Strings.Parse.{same_text}

module _ (is_space : ℕ → Bool) where
  abbrev pub is_space_at : Bytes → ℕ → Bool
  is_space_at str i = elim (get_elem? str i) [ none ↦ false | some c ↦ is_space c ]

  -- The two loops, with the rounds until `start` and `end` meet.
  unfoldable pub skip_front : ℕ → ℕ → Bytes → ℕ
  skip_front zero start str = start
  skip_front (suc left) start str =
      let next = skip_front left (suc start) str in if is_space_at str start then next else start

  unfoldable pub skip_back : ℕ → ℕ → Bytes → ℕ
  skip_back zero end str = end
  skip_back (suc left) end str =
      let next = skip_back left (end - 1) str in if is_space_at str end then next else end

  unfoldable pub trim : Bytes → Bytes
  unfolding skip_front skip_back
  trim str =
      if length str == 0
      then []
      else (let last = length str - 1 in
          let start = skip_front last 0 str in
          let end = skip_back (last - start) last str in
          if leb start end then take (end - start + 1) (drop start str) else [])

unfoldable pub string_ends_with : Bytes → Bytes → Bool
string_ends_with str pattern =
    if leb (length pattern) (length str)
    then same_text (take (length pattern) (drop (length str - length pattern) str)) pattern
    else false

unfoldable pub string_starts_with : Bytes → Bytes → Bool
string_starts_with str pattern = same_text (take (length pattern) str) pattern

-- The digit that `%x` prints.
abbrev pub hex_digit : ℕ → ℕ
hex_digit n = if ltb n 10 then b'0' + n else b'a' + (n - 10)

-- A byte of 128 or more is a negative `char`, which is below the space.
unfoldable pub append_escaped_string_to : Bytes → Bytes → Bytes
append_escaped_string_to str [] = str
append_escaped_string_to str (c ∷ value) =
    append_escaped_string_to
      (if leb b' ' c && leb c b'~'
        then str ++ (c ∷ [])
        else str ++ (92 ∷ b'x' ∷ hex_digit (c / 16) ∷ hex_digit (c % 16) ∷ []))
      value

-- The number and the unit that are printed: `none` for bytes.
unfoldable pub human_parts : ℕ → ℕ × Bytes
human_parts bytes =
    if leb (10 <<< 40) bytes
    then (bytes >>> 40, b'T' ∷ b'B' ∷ [])
    else if leb (10 <<< 30) bytes
    then (bytes >>> 30, b'G' ∷ b'B' ∷ [])
    else if leb (10 <<< 20) bytes
    then (bytes >>> 20, b'M' ∷ b'B' ∷ [])
    else if leb (10 <<< 10) bytes
    then (bytes >>> 10, b'K' ∷ b'B' ∷ [])
    else (bytes, b'B' ∷ [])

-- What the output holds before its final 0, and the length that is returned.
unfoldable pub append_human_bytes : (ℕ → Bytes) → ℕ → ℕ → Bytes × ℕ
unfolding human_parts
append_human_bytes decimal bytes len =
    let parts = human_parts bytes in
    let text = decimal parts.0 ++ parts.1 in (take (len - 1) text, length text)
