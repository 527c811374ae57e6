-- ===== src/InternalKey/Comparator/Separator.antt =====
-- `FindShortestSeparator` and `FindShortSuccessor` keep their promises if the user's comparator
-- does.
use Prim.Native.Nat.{Ordering}
use compaction_test.Base.{
  ℕ, ◌+◌, ◌*◌, ◌^◌, ◌<◌, some, Bool, true, false, ◌&&◌, leb, Bytes, length, ◌≡◌, refl, arith, inl,
  inr, ◌⊎◌, Bool-cases,
}
use compaction_test.Slice.{Sign, is_lt}
use compaction_test.Coding.Fixed.{put_fixed64-le}
use compaction_test.InternalKey.{
  append_internal_key_footer, max_sequence_number, value_type_for_seek, pack_sequence_and_type,
}
use compaction_test.InternalKey.Pack.{pack_lem}
use compaction_test.InternalKey.RoundTrip.{key_of}
use compaction_test.InternalKey.Comparator.{
  compare_encoded, find_shortest_separator, find_short_successor,
}
use compaction_test.InternalKey.Comparator.Order.{compare-key_of, extract-key_of}

-- The footer that is tacked on: the largest sequence number and the type for seeking.
abbrev seek_word : ℕ
seek_word = max_sequence_number * 256 + value_type_for_seek

footer_seek :
    (little : Bool) (tmp : Bytes)
    → append_internal_key_footer little tmp max_sequence_number value_type_for_seek
      ≡ some (key_of tmp seek_word)
unfolding append_internal_key_footer pack_sequence_and_type
footer_seek little tmp =
    ground
      (arith, pack_lem max_sequence_number value_type_for_seek, put_fixed64-le little tmp seek_word)

module _ (user : Bytes → Bytes → Sign) (little : Bool) where
  -- A shorter user key that lies between, with the footer, lies between as an internal key.
  before_seek :
      (u tmp : Bytes) (w : ℕ)
      → w < 2 ^ 64
      → user u tmp ≡ Ordering.lt
      → compare_encoded user little (key_of u w) (key_of tmp seek_word) ≡ some Ordering.lt
  before_seek u tmp w hw h =
      ground (arith, (compare-key_of user little u tmp w seek_word hw (omega arith)).0)

  after_seek :
      (tmp v : Bytes) (x : ℕ)
      → x < 2 ^ 64
      → user tmp v ≡ Ordering.lt
      → compare_encoded user little (key_of tmp seek_word) (key_of v x) ≡ some Ordering.lt
  after_seek tmp v x hx h =
      ground (arith, (compare-key_of user little tmp v seek_word x (omega arith) hx).0)

  -- What the promise of both functions is: a key that is the old one or larger.
  abbrev pub AtLeast : Bytes → Bytes → Type 0
  AtLeast key out = (out ≡ key) ⊎ (compare_encoded user little key out ≡ some Ordering.lt)

  module _ (shorten : Bytes → Bytes → Bytes) (u v : Bytes) (w x : ℕ) where
    shortened :
        w < 2 ^ 64
        → x < 2 ^ 64
        → user (shorten u v) v ≡ Ordering.lt
        → (leb (length (shorten u v)) (length u) && is_lt (user u (shorten u v))) ≡ true
        → user u (shorten u v) ≡ Ordering.lt
        → find_shortest_separator user little shorten (key_of u w) (key_of v x)
          ≡ some (key_of (shorten u v) seek_word)
    unfolding find_shortest_separator
    shortened hw hx below test above = ground (
      arith,
      extract-key_of u w,
      extract-key_of v x,
      footer_seek little (shorten u v),
      before_seek u (shorten u v) w hw above,
      after_seek (shorten u v) v x hx below,
    )

    kept :
        (leb (length (shorten u v)) (length u) && is_lt (user u (shorten u v))) ≡ false
        → find_shortest_separator user little shorten (key_of u w) (key_of v x) ≡ some (key_of u w)
    unfolding find_shortest_separator
    kept test = ground (arith, extract-key_of u w, extract-key_of v x)

    larger :
        (leb (length (shorten u v)) (length u) && is_lt (user u (shorten u v))) ≡ true
        → user u (shorten u v) ≡ Ordering.lt
    larger test = ground arith

    -- If the user's comparator orders `u` before `v` and shortens `u` to a key before `v`, then for two
    -- internal keys with these user keys no assertion fails, and what is found is the first key or
    -- a larger one, and lies before the second.
    pub find_shortest_separator_lem :
        w < 2 ^ 64
        → x < 2 ^ 64
        → user u v ≡ Ordering.lt
        → user (shorten u v) v ≡ Ordering.lt
        → (out : Bytes) × (find_shortest_separator user little shorten (key_of u w) (key_of v x)
            ≡ some out)
          × AtLeast (key_of u w) out
          × (compare_encoded user little out (key_of v x) ≡ some Ordering.lt)
    find_shortest_separator_lem hw hx ordered below =
        elim (Bool-cases (leb (length (shorten u v)) (length u) && is_lt (user u (shorten u v)))) [
          | inl test ↦ (
            key_of (shorten u v) seek_word,
            shortened hw hx below test (larger test),
            inr (before_seek u (shorten u v) w hw (larger test)),
            after_seek (shorten u v) v x hx below,
          )
          | inr test ↦ (
            key_of u w,
            kept test,
            inl refl,
            ground (arith, (compare-key_of user little u v w x hw hx).0),
          )
        ]

  module _ (successor : Bytes → Bytes) (u : Bytes) (w : ℕ) where
    moved :
        w < 2 ^ 64
        → (leb (length (successor u)) (length u) && is_lt (user u (successor u))) ≡ true
        → user u (successor u) ≡ Ordering.lt
        → find_short_successor user little successor (key_of u w)
          ≡ some (key_of (successor u) seek_word)
    unfolding find_short_successor
    moved hw test above = ground (
      arith,
      extract-key_of u w,
      footer_seek little (successor u),
      before_seek u (successor u) w hw above,
    )

    stayed :
        (leb (length (successor u)) (length u) && is_lt (user u (successor u))) ≡ false
        → find_short_successor user little successor (key_of u w) ≡ some (key_of u w)
    unfolding find_short_successor
    stayed test = ground (arith, extract-key_of u w)

    -- Whatever the user's comparator does, `FindShortSuccessor` fails no assertion and leaves the key
    -- or a larger one.
    pub find_short_successor_lem :
        w < 2 ^ 64
        → (out : Bytes) × (find_short_successor user little successor (key_of u w) ≡ some out)
          × AtLeast (key_of u w) out
    find_short_successor_lem hw =
        elim (Bool-cases (leb (length (successor u)) (length u) && is_lt (user u (successor u)))) [
          | inl test ↦
              let above : user u (successor u) ≡ Ordering.lt = ground arith in
              (
                key_of (successor u) seek_word,
                moved hw test above,
                inr (before_seek u (successor u) w hw above),
              )
          | inr test ↦ (key_of u w, stayed test, inl refl)
        ]
