-- ===== src/Lib.antt =====
-- CORA: the parts of the overlaybd tree that carry its logic: the layered block device, the chunking
-- of data, and the cache engine. All paths are from the repository's root.
--
-- Lsmt (overlaybd/src/overlaybd/lsmt) is the log-structured device of index.h, index.cpp and file.cpp:
-- an index maps ranges of blocks of the device to ranges of blocks of files, a write appends its data
-- to a file and inserts a mapping, and a read looks the mappings up and copies from the files.
-- Lsmt/Segment has Segment and SegmentMapping, whose bit fields are cut by `% 2 ^ 50`, `% 2 ^ 14` and
-- `% 2 ^ 55`; the assertions of index.h and index.cpp are not evaluated, that of pwrite is.
-- Lsmt/Layout has what an index means, a map from blocks to blocks of files (`find`), and the shape of
-- its mappings (`Chain`). Lsmt/Lookup is the look-up (copy_n, trim_edge_mappings), where an iterator
-- is the list of the elements from it on; what of std::lower_bound and std::set is used is written
-- out. Lsmt/Index0 is the writable index, Lsmt/Combo the look-up over a set and an index below it,
-- Lsmt/Merge merge_indexes, Lsmt/Create the checks of arrays, Lsmt/Compress compress_raw_index.
-- Lsmt/MemoryIndex is IMemoryIndex, an interface with the law of a look-up; Lsmt/Foreach is
-- foreach_segments over it, with a round of fuel for each block and one more, since a full round moves
-- on by 16 blocks at least. Lsmt/File is LSMTReadOnlyFile::pread, and Lsmt/File/Write the writes of
-- LSMTFile with the group commit of its index file, under the lock of a call; Lsmt/File/Log plays that
-- file back as do_load_index and open_file_rw do, after its header. Memory and files hold bytes of any
-- type. The files below are an environment: what they answer to a read and take of a write are
-- arguments. The loops over MAX_IO_SIZE have fuel of one more than the bytes. Left out of lsmt: the
-- level index; a read into a null buffer; commit, compaction, sealing and the header and trailer; the
-- sparse and the warp file; statistics and logs.
--
-- Chunking (overlaybd/FastCDC-c/fastcdc.c) cuts a buffer where a rolling gear hash meets a mask. A
-- function of the source is the definition of its name: fastCDC_init is fast_cdc_init, cdc_origin_64,
-- rolling_data_2byes_64, normalized_chunking_64 and normalized_chunking_2byes_64 keep theirs. The
-- global variables are the record Globals; the two normalized functions write MinSize and return the
-- globals. A memory is a function from offsets to bytes that does not end with the buffer, so a read
-- past the end is visible. Words of 64 bits wrap by `% 2 ^ 64`. The loops recur on the rounds they
-- have left. `n`, an int, is a natural number: the callers pass none below zero. MD5, which is
-- openssl's, is a parameter. Chunking/Gear holds the table and the masks, Hash the fingerprint, Loops
-- and Cut where a cut falls, Reads which bytes decide it, Resync two buffers that share content,
-- TwoBytes the forms of two bytes a round.
--
-- Zfile (overlaybd/src/overlaybd/zfile) is the class FastCDCChunker of fastcdc_wrapper.cpp and the
-- loop of zfile_compress, zfile.cpp, that cuts a read into batches of chunks. Its fuel is one more
-- than the bytes read: every round moves on by a byte at least. The chunkers of a process share the
-- globals, so the theorems ask that the globals hold the chunker's own maximum. What becomes of a
-- batch, compression, checksums and writes, is not modelled.
--
-- Ocf (overlaybd/src/overlaybd/cache/ocf_cache/ocf) is the cache engine in C that the build compiles
-- into the service. Err has the error codes of inc/ocf_err.h. Ocf.AsyncLock is
-- src/utils/utils_async_lock.c: an operation holds the lock's mutex throughout, so it is one step, and
-- it returns the waiters that it completes. The allocation of waiters is left out. Ocf.Lru is the
-- lists of src/ocf_lru.c: insertion, removal, balancing of the hot half, set_hot. The metadata of the
-- lines is a function from line numbers, ENV_BUG_ON is `none`, counters wrap at 32 bits. The locks
-- around the lists, the partitions, and the iterators for eviction and cleaning are left out.
-- Ocf.NhitHash and Ocf.Promotion are src/promotion: the hash of counted lines of nhit/nhit_hash.c, the
-- policy of nhit/nhit.c over it, and the switch between policies of promotion.c. A lookup's fuel is
-- one more than the slots of the ring, which is enough for a list of distinct slots. What the
-- allocator answers is an argument. Ocf.Refcnt is src/utils/utils_refcnt.c, one call at a time, with
-- counters that wrap at 32 bits. Ocf.Engine is src/engine/cache_engine.c: it counts a dirty request by
-- Ocf.Refcnt. The answer of the sequential cutoff is an argument, as are the values that the engines
-- return. Ocf.Space is src/ocf_space.c. The sizes of the partitions and ocf_lru_req_clines, of
-- src/ocf_lru.c, are an interface with no law: any lists, and any answers of theirs. Ocf.Pipeline is
-- src/utils/utils_pipeline.c, driven by handlers that each answer once; its fuel is one run more than
-- the steps make calls.
pub mod Base
pub mod Chunking
pub mod Lsmt
pub mod Zfile
pub mod Ocf
