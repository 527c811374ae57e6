-- ===== src/Stream/Windows.antt =====
-- The loop of `FPGA_Stream_Merger::DoCompaction` of include/stream_merger.cc.
use compaction_test.Base.{
  ℕ, ◌<◌, ◌^◌, zero, suc, ◌+◌, ◌*◌, ◌≤◌, ◌==◌, if◌then◌else◌, none, some, Bytes, length,
  length-append, ◌≡◌, refl, arith,
}
use compaction_test.Stream.{append_files, stream_loop}

length-append_files :
    (memory : ℕ → Bytes) (window left i : ℕ)
    → ((i : ℕ) → length (memory i) ≡ window)
    → length (append_files memory left i) ≡ left * window
unfolding append_files
length-append_files memory window zero i h = omega arith
length-append_files memory window (suc left) i h = omega (
  arith,
  h i,
  length-append (memory i) (append_files memory left (i + 1)),
  length-append_files memory window left (i + 1) h,
)

endless :
    (fuel : ℕ) (memory : ℕ → ℕ → Bytes) (window files r : ℕ)
    → ((r i : ℕ) → length (memory r i) ≡ window)
    → 1 ≤ files * window
    → files * window < 2 ^ 32
    → stream_loop fuel memory files r ≡ none
unfolding stream_loop
endless zero memory window files r h n b = refl
endless (suc fuel) memory window files r h n b = ground (
  arith,
  length-append_files (memory r) window files 0 (h r),
  endless fuel memory window files (r + 1) h n b,
)

-- A round always appends as many bytes as the windows of all files have, whatever was read. So, if
-- that is below 2 ^ 32, the loop ends after its first round if there are no files or the window is 0, and else it never ends:
-- no fuel is enough.
pub stream_loop_lem :
    (fuel : ℕ) (memory : ℕ → ℕ → Bytes) (window files : ℕ)
    → ((r i : ℕ) → length (memory r i) ≡ window)
    → files * window < 2 ^ 32
    → stream_loop (suc fuel) memory files 0 ≡ (if files * window == 0 then some 1 else none)
unfolding stream_loop
stream_loop_lem fuel memory window files h b = ground (
  arith,
  length-append_files (memory 0) window files 0 (h 0),
  endless fuel memory window files 1 h,
)
