-- ===== src/Lib.antt =====
-- A verification library for redlib: the ring buffers, the circular queue, the hash map, the chunk
-- array, the priority queue and the linked list of data/struct, the strings and slices of string,
-- the scanner, the tokenizer and small text formats of data/format, the fields of data/serialize,
-- the page index of alloc, the checksums of net and the random numbers of math.
--
-- Texts and the tokenizer: the tokenizer works through the scanner alone, and the scanner uses what
-- Slices says of white space. The containers do not call one another; each keeps its state behind a
-- pointer that the caller owns. A function that changes `*p` is a function from the record to the
-- new record, beside what the code returns. Words of 64 bits are the native ℕ with their wrap-around
-- written out (`add64`, `sub64`, `mul64` of Prelude/Tests). Allocators are arguments: what a call
-- answers is chosen by the caller of the definition, refusals included; the chunk array, the
-- priority queue and the linked list, which do not look at the answer, the stack and the list of
-- fields of a serializer, and the parsers of Formats are given every block; the copies of a
-- serializer's names can be refused.
--
--   Prelude, Prelude/Tests, Lists, Bits   Boolean tests, wrapping words, arrays as lists, bits.
--   Window    what a circular array holds: the elements from an index on, round the end.
--   Fifo      the specification of both circular containers: a first-in first-out queue as a list.
--   Ring      data/struct/ring_buffer.c (cring_*) and data/struct/ring_buffer.hpp (RingBuffer): push,
--             pop, push_buf, pop_buf, clear, size, peek, at. Ring/Models says which queue a ring
--             stands for, Ring/Run is about one contiguous copy, Ring/PushBuf and Ring/PopBuf about the
--             copies in two pieces, Ring/Calls about sequences of calls.
--   Queue     data/struct/queue.c (cqueue_*): fixed, or growing where max_capacity is 0. Queue/Models
--             says which list a queue holds, Queue/Grow is about the copy into the larger block,
--             Queue/Enqueue about enqueueing.
--   ChunkArray   data/struct/chunk_array.c (chunk_array_*): ChunkArray has the chunks and the operations,
--             ChunkArray/Packed is about the items of the chunks and reading them, Push and Remove about
--             the operations that change them.
--   HashMap   data/struct/hashmap.c (hash_map_*, chm_*): HashMap has the table, the walks, creation,
--             growth and put, HashMap/Release the functions that give entries up. HashMap/Pow2 is about
--             the rounding of capacities, Keys about the comparison, Lookup, Walks and Chains about one
--             chain, Table, Flatten and Resize about the array of buckets, Valid about the invariant,
--             Stored, Put and Remove about the operations.
--
--   Sorting   insertion in order, as a list function, for the two parts below.
--   PriorityQueue   data/struct/priority_queue.c: PriorityQueue/Order is about one insertion into the
--             tree, Inserted about all insertions.
--   LinkedList   data/struct/linked_list.c: the nodes from head on with their addresses, tail and length.
--             LinkedList/Linked has the invariant, Remove and Sort are about the operations.
--   Numbers   string/string.c, numbers and text: u64_to_dec, u64_to_base, parse_hex, parse_bin and the
--             parsers parse_hex_u64, parse_int_u64, parse_int64, parse_uint32_dec. Numbers/Value is what
--             a list of digits stands for, Base, Decimal and Hex are about the functions.
--   Strings   string/string.c, C strings: strcmp_case, strncmp_case, strstart_case, strindex, strcont,
--             strend_case, strcasestr and smaller ones. Strings/Compare, Find and Suffix.
--   Append    string/string.c, the functions that fill a buffer of limited size; Append/Room is about the
--             room and the flag.
--   Slices    string/slice.c and string/slice.h: trimming, matching, equality and the splitter.
--             Slices/Trim, Match and Split.
--   Scanner   data/format/scanner/scanner.c: a position in a text; Scanner/Ahead says that it only moves
--             forward.
--   Tokenizer data/format/tokenizer/tokenizer.c over the scanner. Tokenizer/State has the tokens and the
--             state, Skip white space and comments, NumberToken and Read the readers, Next the checks and
--             the call itself. Advance, Answers, Literals and Checks are about one reader or check,
--             Comments about the loop over comments, Progress about a call, Tokens about the calls of a
--             client, Digits and Decimal about numbers that Numbers writes.
--   BinarySerial   data/serialize/binary_serial.c and binary_scanner.c, the list of fields of a
--             serializer; BinarySerial/Structure is about reading back what is written.
--   PageIndex alloc/page_index.c: PageIndex/Sizes is about looking up, Register and Unregister about the
--             changes.
--   Checksums net/checksums.c: Checksums/Fold is about the loop over the carry, Verify about a receiver,
--             Pseudo about the pseudo headers.
--   Rng       math/rng.c: Rng/Range is about numbers in a range, Fill about filling memory.
--   Formats   data/format/percent.c, query_string.c and userinfo.c. Formats/Percent, Query and Userinfo.
--
-- Bounds: a map has at most 2 ^ 60 buckets, so that its size in bytes and that of the next table fit
-- 64 bits; a ring and a queue have fewer than 2 ^ 64 slots. Where the code counts in an `int` or
-- narrows a size to 32 bits, the theorems are about sizes that fit: the chunks of
-- chunk_array_remove, the texts of strindex and emit_padded (fewer than 2 ^ 31), the texts of
-- percent_decode (fewer than 2 ^ 32 - 1). Loops are structural recursion over the elements or the
-- count that the code walks. Some loops have a number of rounds: the division into parts and digits
-- (Numbers, at most three parts of nine digits and ten digits above), the digits in any base (65,
-- the bound of the code) and a client's loop over the splitter (Slices, as many as there are
-- pieces), linked_list_clear (as many as there are nodes), the loop over comments (one more than
-- bytes are left) and a client's calls of the tokenizer, the loop over the carry of a checksum
-- (three, of which the last only tests) and the fields of a structure (one more than its bytes); the
-- theorems about them need no more. A plain `char` is unsigned, as on the AArch64 that the build is
-- for.
--
-- Not modelled: the NULL arguments on which a container's function returns at once, the addresses of
-- blocks but for the nodes of the linked list, hash_map_set_allocator, chunk_array_find,
-- chunk_array_destroy, the string wrappers of the hash map, priority_queue_destroy,
-- linked_list_clone, parse_float and parse_double, string_format_va_buf, the strings that are
-- allocated, string_split and string_quick_split, token_name, rng_next01f, the data that a
-- serializer writes and reads, and the other parts of the repository.
pub mod Prelude
pub mod Window
pub mod Fifo
pub mod Append
pub mod BinarySerial
pub mod Checksums
pub mod ChunkArray
pub mod Formats
pub mod HashMap
pub mod LinkedList
pub mod Numbers
pub mod PageIndex
pub mod PriorityQueue
pub mod Queue
pub mod Ring
pub mod Rng
pub mod Scanner
pub mod Slices
pub mod Sorting
pub mod Strings
pub mod Tokenizer
