-- ===== src/Lib.antt =====
-- A model of the compaction test program: the merger of sorted tables and the formats under it.
--
-- The parts, from the bottom up:
--   * Base: what the modules share, numbers, lists, machine words and the laws of bit operations.
--   * Slice (include/slice.h, utils/slice.cc): slices as the lists of their bytes; `compare_slice`
--     is Slice::compare, `to_string` and `decode_hex` are ToString and DecodeHex.
--     Slice/Pinnable has PinnableSlice, over Cleanable, and Slice/Transform has SliceTransform
--     (include/slice_transform.h) and its implementations.
--   * Coding (utils/coding.h, utils/coding.cc): fixed-width numbers for machines of both byte
--     orders, where `little` is port::kLittleEndian; Coding/Varint has the varints and the
--     length-prefixed slices, Coding/Zigzag the signed ones. What a function stores through `dst`
--     is the list that it returns; a `Slice *input` that moves on is a result.
--   * InternalKey (db_format/dbformat.h, db_format/dbformat.cc, db_format/types.h): a user key, a
--     sequence number and a type, packed into the last eight bytes. InternalKey/Comparator has
--     InternalKeyComparator, over a user comparator that is a parameter, and the range tombstones. InternalKey/IterKey has IterKey with its inline space,
--     its buffer on the heap and its pinned keys, and `run_view` says what its operations mean;
--     InternalKey/Transform has InternalKeySliceTransform, and InternalKey/Bijection the bytes that
--     are keys.
--   * Block (db_format/on_board_format.h, db_format/on_board_fomat.cc, and
--     tables/gear_table/gear_table.cc): the blocks of 8192 bytes that hold the entries of a table;
--     Block/Vector has ComposeEntryVector, whose slices are places in the blocks.
--   * Table (include/tables/table.h, tables/table_builder.cc, tables/plain_table/plain_table.cc): the
--     references that a table keeps into the blocks that it loads, and what a plain table writes.
--   * Merger (include/merger.h, include/merger.cc): the state of the merger, its queue of entries
--     and the three filters. It parses internal keys and compares slices. Merger/Heap has the
--     comparators of the heaps, and Merger/FileNames the names of new tables.
--   * Stream (include/stream_merger.cc): the entries of a plain table, the arbitration of each
--     against the last one, and the loop of the merger that reads windows of files; Stream/Merge has
--     MergeEntries whole, and Stream/Plain reads what a plain table wrote.
--   * Bench (tools/gear_bench_tool.cc): the loops of generate_files, over the key generator, the
--     internal keys and the names; Bench/Driver has the threads, the table formats and the choice of
--     benchmarks, and Bench/Merged gives the files to the merger of Stream/Merge.
--   * Comparator (include/comparator.h, include/user_comparator_wrapper.h, utils/kv_map.h): the
--     interface as a record, its wrapper, and the maps in the order of a comparator.
--   * Status (include/status.h): the codes, the functions that make and test a status, and its
--     copies and moves, with the objects by their addresses.
--   * Random (include/random.h): the multiplicative generator modulo 2 ^ 31 - 1 and its draws;
--     Random/Library has the classes over generators of the standard library.
--   * Cleanable (utils/cleanable.h, utils/cleanable.cc): the chain of functions that an object runs;
--     Cleanable/World has many objects, and the operations that move cleanups between them.
--   * KeyGenerator (include/gear_bench_classes.h, tools/gear_bench_classes.cc): the layout of the
--     keys of the benchmark, and the generators that draw their numbers; KeyGenerator/Spanning has
--     the sets of keys and the maps made of them.
--   * Port (port/port_posix.h, port/port_posix.cc): the flag `locked_` of Mutex and CondVar, which
--     the threads set and clear in single steps around the calls of pthread; Port/Calls has what the
--     system is asked for.
--   * Strings (utils/string_util.cc): the escapes of option strings, and decimal numbers, read and
--     printed; Strings/Split has StringSplit;
--     Strings/Parse has the numbers with a unit and the vectors of numbers, where what is thrown is
--     a constructor of `Parsed`, and Strings/Text trimming, printable text and sizes for people.
--
-- A machine word is a number below 2 ^ w, and what the code cuts to w bits is cut with `% 2 ^ w`. A
-- failed assertion, a read out of range and a call of `back()` on an empty vector are `none`. Loops
-- are recursion on the list, on a count of the rounds, or, where a number is divided, on its order.
-- On fuel run the loop over blocks, which makes one round for each 312 entries and has one more
-- round than there are entries; the loop that loads blocks, which has one more round than there are
-- bytes; the loop over the text of a vector, which takes a character at least in each round; the loop
-- that reads the entries of a file, for which one round more than there are entries is enough; the
-- loop that writes files of generated keys, with one round more than there are keys; and
-- the loop over windows, for which no fuel is enough.
--
-- `std::priority_queue` is a parameter, the order in which it gives its elements out. Of
-- `Comparator` the theorems assume a total order, which include/comparator.h asks for, and of its
-- separators no more than the theorem says. What `new char[n]` holds, and the generator, the shuffle
-- and the sort of the standard library, are parameters: a block has the size asked for, and a
-- shuffle keeps the length. An object that is delegated its own cleanups, and slices that point into
-- the buffer that an operation of IterKey changes, are left out.
--
-- Of memory that is read after it was freed, a parameter says what is read (generate_files keeps
-- slices into strings that are gone).
--
-- Not modelled: files, clocks and the parsing of flags (I/O), the printing of times and of rounded
-- numbers, the read-write lock and the other functions of the port layer that only call the library.
pub mod Base
pub mod Cleanable
pub mod Coding
pub mod Comparator
pub mod Slice
pub mod InternalKey
pub mod Bench
pub mod Block
pub mod KeyGenerator
pub mod Merger
pub mod Stream
pub mod Status
pub mod Port
pub mod Random
pub mod Strings
pub mod Table
