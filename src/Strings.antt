-- ===== src/Strings.antt =====
-- utils/string_util.cc: the escapes of option strings, and decimal numbers; the child modules have the rest.
pub mod Escape
pub mod Decimal
pub mod Parse
pub mod Text
pub mod Digits
pub mod Numbers
pub mod Split
mod Tests
use compaction_test.Base.{
  ℕ, zero, suc, ◌+◌, ◌-◌, ◌*◌, ◌/◌, ◌%◌, ◌^◌, Option, none, some, List, [], ◌∷◌, ◌++◌, Bool, true,
  false, not, ◌&&◌, ◌||◌, ltb, leb, ◌==◌, if◌then◌else◌, Bytes,
}

-- The characters backslash, carriage return and newline, and the others that are special.
abbrev pub backslash : ℕ
backslash = 92

abbrev pub carriage_return : ℕ
carriage_return = 13

abbrev pub newline : ℕ
newline = 10

unfoldable pub is_special_char : ℕ → Bool
is_special_char c = c == backslash || c == b'#' || c == b':' || c == carriage_return || c == newline

unfoldable pub unescape_char : ℕ → ℕ
unescape_char c = if c == b'r' then carriage_return else if c == b'n' then newline else c

unfoldable pub escape_char : ℕ → ℕ
escape_char c = if c == newline then b'n' else if c == carriage_return then b'r' else c

-- The loops, with the output so far.
unfoldable pub escape_loop : Bytes → Bytes → Bytes
unfolding is_special_char escape_char
escape_loop [] output = output
escape_loop (c ∷ raw_string) output = escape_loop raw_string (
    if is_special_char c
    then (output ++ backslash ∷ []) ++ escape_char c ∷ []
    else output ++ c ∷ [])

unfoldable pub escape_option_string : Bytes → Bytes
unfolding escape_loop
escape_option_string raw_string = escape_loop raw_string []

unfoldable pub unescape_loop : Bytes → Bool → Bytes → Bytes
unfolding unescape_char
unescape_loop [] escaped output = output
unescape_loop (c ∷ escaped_string) true output =
    unescape_loop escaped_string false (output ++ unescape_char c ∷ [])
unescape_loop (c ∷ escaped_string) false output =
    let skipped = unescape_loop escaped_string true output in
    let added = unescape_loop escaped_string false (output ++ c ∷ []) in
    if c == backslash then skipped else added

unfoldable pub unescape_option_string : Bytes → Bytes
unfolding unescape_loop
unescape_option_string escaped_string = unescape_loop escaped_string false []

abbrev pub is_digit : ℕ → Bool
is_digit c = leb b'0' c && leb c b'9'

abbrev pub max_uint64 : ℕ
max_uint64 = 2 ^ 64 - 1

-- What `ConsumeDecimalNumber` returns, what it stores through `val`, if it does, and what is left
-- of the input.
pub record Consumed : Type 0 where
  pub returned : Bool
  pub val : Option ℕ
  pub left : Bytes

unfoldable pub consume_loop : Bytes → ℕ → ℕ → Consumed
consume_loop [] v digits = record { returned = ltb 0 digits; val = some v; left = [] }
consume_loop (c ∷ rest) v digits =
    let more = consume_loop rest (v * 10 + (c - b'0')) (digits + 1) in
    if is_digit c
    then (if ltb (max_uint64 / 10) v || (v == max_uint64 / 10 && ltb (max_uint64 % 10) (c - b'0'))
        then record { returned = false; val = none; left = c ∷ rest }
        else more)
    else record { returned = ltb 0 digits; val = some v; left = c ∷ rest }

unfoldable pub consume_decimal_number : Bytes → Consumed
unfolding consume_loop
consume_decimal_number input = consume_loop input 0 0
