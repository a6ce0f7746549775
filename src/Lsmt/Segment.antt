-- ===== src/Lsmt/Segment.antt =====
-- `Segment` and `SegmentMapping` of lsmt/index.h, whose bit fields keep 50 bits of an offset, 14 of
-- a length and 55 of a mapped offset. The assertions are not evaluated.
use cora.Base.{ℕ, ◌+◌, ◌-◌, ◌%◌, ◌^◌, Bool, true, false, if◌then◌else◌, leb, sub_64}

pub record Segment : Type 0 where
  pub offset : ℕ
  pub length : ℕ

pub record SegmentMapping : Type 0 where
  pub offset : ℕ
  pub length : ℕ
  pub moffset : ℕ
  pub zeroed : Bool
  pub tag : ℕ

abbrev pub max_length : ℕ
max_length = 2 ^ 14 - 1

abbrev pub invalid_offset : ℕ
invalid_offset = 2 ^ 50 - 1

-- `Segment{offset, length}`, which cuts both to their bits.
abbrev pub segment : ℕ → ℕ → Segment
segment offset length = record { offset = offset % 2 ^ 50; length = length % 2 ^ 14 }

abbrev pub segment_end : Segment → ℕ
segment_end s = s.offset + s.length

abbrev pub end : SegmentMapping → ℕ
end m = m.offset + m.length

-- `end` of a mapping where it is mapped to; a zeroed one has no extent there.
abbrev pub mend : SegmentMapping → ℕ
mend m = if m.zeroed then m.moffset else m.moffset + m.length

-- `Segment::forward_offset_to`.
abbrev pub segment_forward_offset_to : Segment → ℕ → Segment
segment_forward_offset_to s x = record {
  offset = x % 2 ^ 50;
  length = (s.length + (2 ^ 64 - sub_64 x s.offset)) % 2 ^ 14;
}

abbrev pub forward_offset_to : SegmentMapping → ℕ → SegmentMapping
forward_offset_to m x = record m {
  offset = x % 2 ^ 50;
  length = (m.length + (2 ^ 64 - sub_64 x m.offset)) % 2 ^ 14;
  moffset = (m.moffset + (if m.zeroed then 0 else sub_64 x m.offset)) % 2 ^ 55;
}

abbrev pub backward_end_to : SegmentMapping → ℕ → SegmentMapping
backward_end_to m x = record m { length = sub_64 x m.offset % 2 ^ 14 }

abbrev pub discard : SegmentMapping → SegmentMapping
discard m = record m { zeroed = true }

abbrev pub invalid_mapping : SegmentMapping
invalid_mapping = record {
  offset = invalid_offset;
  length = 0;
  moffset = 0;
  zeroed = false;
  tag = 0;
}

-- `operator<`, of which the right side is looked at where it starts only.
abbrev pub precedes : SegmentMapping → ℕ → Bool
precedes a o = leb (end a) o
