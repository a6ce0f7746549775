-- ===== src/Lsmt/Compress.antt =====
-- `compress_raw_index` of lsmt/index.cpp, which joins neighbouring mappings of an array in place, and its
-- prediction. The written part of the array up to `i` is the result.
pub mod Joined
use cora.Base.{
  ℕ, suc, ◌+◌, ◌%◌, ◌^◌, List, [], ◌∷◌, Bool, true, false, not, ◌&&◌, if◌then◌else◌, ltb, ◌==◌,
}
use cora.Lsmt.Segment.{SegmentMapping, end, mend, max_length}

-- `a ^ b` on single bits.
abbrev pub xor : Bool → Bool → Bool
xor true b = not b
xor false b = b

-- The condition to join `k` to `m`.
unfoldable pub joins : SegmentMapping → SegmentMapping → Bool
joins m k =
    (end m == k.offset)
    && (mend m == k.moffset)
    && not (xor m.zeroed k.zeroed)
    && (m.tag == k.tag)
    && ltb (m.length + k.length) max_length

-- `mapping[i].length += mapping[j].length`.
abbrev pub join : SegmentMapping → SegmentMapping → SegmentMapping
join m k = record m { length = (m.length + k.length) % 2 ^ 14 }

-- The loop, with `mapping[i]` as `m`.
unfoldable pub compress_from : SegmentMapping → List SegmentMapping → List SegmentMapping
compress_from m [] = m ∷ []
compress_from m (k ∷ ms) =
    let joined = compress_from (join m k) ms in
    let apart = m ∷ compress_from k ms in if joins m k then joined else apart

unfoldable pub compress_raw_index : List SegmentMapping → List SegmentMapping
compress_raw_index [] = []
compress_raw_index (m ∷ ms) = compress_from m ms

-- The condition of the prediction, which does not look at where the mappings lead.
unfoldable pub joins_predict : SegmentMapping → SegmentMapping → Bool
joins_predict m k =
    (end m == k.offset)
    && (m.tag == k.tag)
    && not (xor m.zeroed k.zeroed)
    && ltb (m.length + k.length) max_length

unfoldable pub predict_from : SegmentMapping → List SegmentMapping → ℕ
predict_from m [] = 1
predict_from m (k ∷ ms) =
    let joined = predict_from (join m k) ms in
    let apart = suc (predict_from k ms) in if joins_predict m k then joined else apart

unfoldable pub compress_raw_index_predict : List SegmentMapping → ℕ
compress_raw_index_predict [] = 0
compress_raw_index_predict (m ∷ ms) = predict_from m ms
