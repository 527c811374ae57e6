-- ===== src/Coding/Tests.antt =====
-- The theorems on utils/coding.h and utils/coding.cc at concrete inputs.
use compaction_test.Base.{some, [], ◌∷◌, ◌++◌, Bytes, IsBytes, ◌≡◌, arith}
use compaction_test.Coding.Varint.{encode_varint64, get_varint64}
use compaction_test.Coding.Varint.RoundTrip.{get_varint64-encode}

abbrev two_bytes : Bytes
two_bytes = 7 ∷ 200 ∷ []

abbrev two_bytes-IsBytes : IsBytes two_bytes
two_bytes-IsBytes = (omega arith, (omega arith, tt))

get_varint64-encode_example :
    get_varint64 (encode_varint64 300 ++ two_bytes) ≡ some (300, two_bytes)
get_varint64-encode_example = get_varint64-encode 300 two_bytes (omega arith)
