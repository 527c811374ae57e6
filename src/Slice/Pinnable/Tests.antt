-- ===== src/Slice/Pinnable/Tests.antt =====
-- The theorems on pinnable slices at concrete ones.
use compaction_test.Base.{none, some, [], ◌∷◌, true, false, ◌≡◌, refl}
use compaction_test.Cleanable.{Cleanable}
use compaction_test.Cleanable.Counts.{chain_of}
use compaction_test.Slice.Pinnable.{PinnableSlice, pinnable_move_assign}
use compaction_test.Slice.Pinnable.Laws.{IsInSync, pinnable_move_lem}

abbrev no_cleanups : Cleanable
no_cleanups = record { head = record { function = 0; arg1 = 0; arg2 = 0 }; next = [] }

abbrev unpin_5 : Cleanable
unpin_5 = record { head = record { function = 64; arg1 = 5; arg2 = 0 }; next = [] }

abbrev own_text : PinnableSlice
own_text = record {
  bytes = 97 ∷ 98 ∷ 99 ∷ [];
  self_space = 97 ∷ 98 ∷ 99 ∷ [];
  external = none;
  pinned = false;
  cleanups = no_cleanups;
}

abbrev pinned_text : PinnableSlice
pinned_text = record {
  bytes = 120 ∷ [];
  self_space = [];
  external = none;
  pinned = true;
  cleanups = unpin_5;
}

own_text-IsInSync : IsInSync own_text
own_text-IsInSync = record { same = λ h. refl }

pinnable_move_lem_example :
    (this2 : PinnableSlice) × (other2 : PinnableSlice) × (pinnable_move_assign pinned_text own_text
      ≡ some (this2, other2, chain_of unpin_5))
    × IsInSync this2
    × IsInSync other2
    × (this2.bytes ≡ own_text.bytes)
    × (this2.pinned ≡ own_text.pinned)
    × (this2.cleanups ≡ own_text.cleanups)
    × (other2.bytes ≡ [])
    × (chain_of other2.cleanups ≡ [])
pinnable_move_lem_example = pinnable_move_lem pinned_text own_text own_text-IsInSync refl
