-- ===== src/Zfile.antt =====
-- overlaybd/src/overlaybd/zfile: the class `FastCDCChunker` of fastcdc_wrapper.cpp, and the loop of
-- `zfile_compress` (zfile.cpp) that splits what one read returned into chunks and batches of chunks.
-- Log lines are left out. What `compress_batch` and the writes do with a batch is not modelled.
pub mod Progress
pub mod Tiles
pub mod Tests
use cora.Base.{
  ℕ, zero, suc, ◌+◌, ◌-◌, ◌^◌, List, [], ◌∷◌, ◌++◌, Bool, true, false, ◌||◌, Option, none, some,
  ltb, leb, ◌==◌, if◌then◌else◌, length,
}
use mathlib.Core.Option
use cora.Chunking.{Memory, Globals, fast_cdc_init, normalized_chunking_64}

pub record FastCdcChunker : Type 0 where
  pub m_min_size : ℕ
  pub m_avg_size : ℕ
  pub m_max_size : ℕ

-- What the chunkers of a process share: `s_initialized` and the globals of fastcdc.c.
pub record Process : Type 0 where
  pub s_initialized : Bool
  pub globals : Globals

-- The constructor. `md5` is openssl's.
unfoldable pub fast_cdc_chunker : (List ℕ → List ℕ) → ℕ → ℕ → ℕ → Process → Process × FastCdcChunker
fast_cdc_chunker md5 min_size avg_size max_size s =
    let g = if s.s_initialized then s.globals else fast_cdc_init md5 s.globals in
    (
      record {
        s_initialized = true;
        globals = record g { min_size = min_size; max_size = max_size; expect_cs = avg_size };
      },
      record { m_min_size = min_size; m_avg_size = avg_size; m_max_size = max_size },
    )

abbrev pub int_max : ℕ
int_max = 2 ^ 31 - 1

-- `length > m_max_size ? m_max_size : length`, then capped at `INT_MAX`.
abbrev pub actual_length : FastCdcChunker → ℕ → ℕ
actual_length c length =
    let l = if ltb c.m_max_size length then c.m_max_size else length in
    if ltb int_max l then int_max else l

-- What `next_chunk` makes of the size that the C function returned.
pub bound_chunk : FastCdcChunker → ℕ → ℕ → ℕ
bound_chunk c length chunk_size =
    if leb chunk_size 0
    then (if ltb c.m_min_size length then c.m_min_size else length)
    else (if ltb chunk_size c.m_min_size
        then (if ltb length c.m_min_size then length else c.m_min_size)
        else (if ltb c.m_max_size chunk_size then c.m_max_size else chunk_size))

-- `none` is the null pointer.
unfoldable pub next_chunk : FastCdcChunker → Option Memory → ℕ → Globals → Globals × ℕ
unfolding bound_chunk
next_chunk c none length g = (g, 0)
next_chunk c (some p) length g =
    if length == 0
    then (g, 0)
    else (let r = normalized_chunking_64 g p (actual_length c length) in
        (r.0, bound_chunk c length r.1))

-- One call of `compress_batch`: where its bytes start, and the sizes of its chunks.
pub record Batch : Type 0 where
  pub start : ℕ
  pub lens : List ℕ

-- The chunks left when the loop ends are one more batch, if there are any.
abbrev pub last_batch : ℕ → List ℕ → List Batch
last_batch start [] = []
last_batch start (x ∷ xs) = record { start = start; lens = x ∷ xs } ∷ []

-- `chunk_size == 0 || chunk_size > remaining`: the rest becomes the last chunk.
abbrev pub clamp_chunk : ℕ → ℕ → ℕ
clamp_chunk chunk_size remaining =
    if chunk_size == 0 || ltb remaining chunk_size then remaining else chunk_size

-- `while (offset < readn)`, with `lens` for `raw_chunk_len[0 .. n - 1]`. `none`: out of fuel.
unfoldable pub chunk_loop :
    FastCdcChunker → Memory → ℕ → ℕ → ℕ → Globals → ℕ → ℕ → List ℕ → Option (List Batch)
chunk_loop c p readn nbatch zero g offset start lens = none
chunk_loop c p readn nbatch (suc fuel) g offset start lens =
    let (g', size) = next_chunk c (some (λ i. p (offset + i))) (readn - offset) g in
    let chunk_size = clamp_chunk size (readn - offset) in
    let offset' = offset + chunk_size in
    let lens' = lens ++ chunk_size ∷ [] in
    let go_on = chunk_loop c p readn nbatch fuel g' offset' start lens' in
    let flushed =
      Option.map (λ bs. record { start = start; lens = lens' } ∷ bs)
        (chunk_loop c p readn nbatch fuel g' offset' offset' []) in
    if ltb offset readn
    then (if leb nbatch (length lens') then flushed else go_on)
    else some (last_batch start lens)

-- The chunks of one read.
unfoldable pub chunk_buffer : FastCdcChunker → Memory → ℕ → ℕ → Globals → Option (List Batch)
chunk_buffer c p readn nbatch g = chunk_loop c p readn nbatch (suc readn) g 0 0 []
