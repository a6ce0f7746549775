-- ===== src/Zfile/Progress.antt =====
-- The sizes that `next_chunk` returns.
use cora.Base.{ℕ, ◌≤◌, ◌<◌, min, ◌≡◌, refl, ◌⊎◌, List, some, arith, ne→==}
use cora.Chunking.{Memory, Globals, set_min_size, normalized_chunking_64}
use cora.Chunking.Cut.{normalized_chunking_64-IsFirst}
use cora.Zfile.{
  FastCdcChunker, Process, fast_cdc_chunker, actual_length, bound_chunk, int_max, next_chunk,
}

-- The globals hold this chunker's maximum, which no other chunker has overwritten, and the sizes are
-- in order, with room for the 8 KiB midpoint.
pub record IsOwned (c : FastCdcChunker) (g : Globals) : Type 0 where
  pub owned : g.max_size ≡ c.m_max_size
  pub ordered : c.m_min_size ≤ c.m_max_size
  pub room : 8192 ≤ c.m_max_size
  pub is_int : c.m_max_size ≤ int_max

-- A chunk of `length` bytes at most `m_max_size` long: never empty, never past the data, and shorter
-- than `m_min_size` only if it is all the data there is.
pub record IsChunk (c : FastCdcChunker) (length size : ℕ) : Type 0 where
  pub nonempty : 0 < size
  pub inside : size ≤ length
  pub at_most : size ≤ c.m_max_size
  pub at_least : (c.m_min_size ≤ size) ⊎ (size ≡ length)

normalized_size :
    (g : Globals) (p : Memory) (n : ℕ)
    → 8192 ≤ g.max_size
    → n ≤ g.max_size
    → ((normalized_chunking_64 g p n).1 ≤ n)
      × (((normalized_chunking_64 g p n).1 ≡ n) ⊎ (6144 ≤ (normalized_chunking_64 g p n).1))
normalized_size g p n big le =
    let cut = (normalized_chunking_64-IsFirst g p n big).1 in
    (
      omega (arith, cut.upto),
      min_cases n (normalized_chunking_64 g p n).1 (omega (arith, cut.upto)) cut.from,
    )
  where
    min_cases : (n r : ℕ) → r ≤ n → min n 6144 ≤ r → (r ≡ n) ⊎ (6144 ≤ r)
    min_cases n r a b = ground arith

bound_chunk-IsChunk :
    (c : FastCdcChunker) (length n r : ℕ)
    → 0 < length
    → n ≡ min length c.m_max_size
    → 0 < r
    → r ≤ n
    → c.m_min_size ≤ c.m_max_size
    → (r ≡ n) ⊎ (6144 ≤ r)
    → IsChunk c length (bound_chunk c length r)
unfolding bound_chunk
bound_chunk-IsChunk c length n r pos e pr le ord f = ground arith

actual_length-min :
    (c : FastCdcChunker) (length : ℕ)
    → c.m_max_size ≤ int_max
    → actual_length c length ≡ min length c.m_max_size
actual_length-min c length h = ground arith

pub next_chunk-IsChunk :
    (c : FastCdcChunker) (g : Globals) (p : Memory) (length : ℕ)
    → IsOwned c g
    → 0 < length
    → IsChunk c length (next_chunk c (some p) length g).1
      × ((next_chunk c (some p) length g).0 ≡ set_min_size g)
      × IsOwned c (next_chunk c (some p) length g).0
unfolding next_chunk
next_chunk-IsChunk c g p length o pos =
    rw (ne→== length 0 (omega arith), kept)
      (
        bound_chunk-IsChunk c length n _ pos (actual_length-min c length o.is_int)
            (omega (arith, size, shorter)) (size.0) o.ordered size.1,
        refl,
        record { owned = o.owned; ordered = o.ordered; room = o.room; is_int = o.is_int },
      )
  where
    n : ℕ
    n = actual_length c length

    shorter : (n ≡ min length c.m_max_size)
    shorter = actual_length-min c length o.is_int

    size :
        ((normalized_chunking_64 g p n).1 ≤ n)
        × (((normalized_chunking_64 g p n).1 ≡ n) ⊎ (6144 ≤ (normalized_chunking_64 g p n).1))
    size = normalized_size g p n (omega (arith, o.owned, o.room)) (omega (arith, shorter, o.owned))

    kept : (normalized_chunking_64 g p n).0 ≡ set_min_size g
    kept = (normalized_chunking_64-IsFirst g p n (omega (arith, o.owned, o.room))).0

-- A chunker that has just been made owns the globals, if its sizes are in order and leave room.
pub fast_cdc_chunker-IsOwned :
    (md5 : List ℕ → List ℕ) (lo avg hi : ℕ) (s : Process)
    → lo ≤ hi
    → 8192 ≤ hi
    → hi ≤ int_max
    → IsOwned (fast_cdc_chunker md5 lo avg hi s).1 (fast_cdc_chunker md5 lo avg hi s).0.globals
unfolding fast_cdc_chunker
fast_cdc_chunker-IsOwned md5 lo avg hi s a b c = record {
  owned = refl;
  ordered = a;
  room = b;
  is_int = c;
}
