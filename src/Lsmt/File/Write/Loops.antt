-- ===== src/Lsmt/File/Write/Loops.antt =====
-- The loops of `pwrite` and of `fallocate` in lsmt/file.cpp.
use cora.Base.{
  ℕ, zero, suc, ◌+◌, ◌-◌, ◌*◌, ◌%◌, ◌^◌, ◌≤◌, ◌<◌, ◌≡◌, refl, ap, ◌∙◌, true, Option, arith,
  le-cases, inl, inr, le→ltb, lt→ltb,
}
use cora.Lsmt.Segment.{max_length}
use cora.Lsmt.Layout.{Block}
use cora.Lsmt.File.{alignment}
use cora.Lsmt.File.Write.{Device, Disk, fallocate_once, fallocate}
use cora.Lsmt.File.Write.Once.{IsDevice}
use cora.Lsmt.File.Write.Refine.{Wrote}
use cora.Lsmt.File.Write.Punch.{fallocate_once-Wrote}

module _ {Byte : Type 0} (null : Byte) (disk : Disk) (back : ℕ → Option Block)
    (lower : ℕ → ℕ → Byte) where
  Wrote-then :
      (f : ℕ → Byte) (n k m offset : ℕ) (d d' d'' : Device Byte)
      → n + k ≡ m
      → Wrote null disk back lower f n offset d d'
      → Wrote null disk back lower (λ i. f (n + i)) k (offset + n) d' d''
      → Wrote null disk back lower f m offset d d''
  Wrote-then f n k m offset d d' d'' e w w' = record {
    valid = w'.valid;
    bytes = λ a. w'.bytes a ∙ elim (le-cases (offset + n) a) [
      | inl h ↦ ground (arith, w.bytes a, ap f (shift a h))
      | inr h ↦ ground (arith, w.bytes a)
    ];
    grown = omega (arith, w.grown, w'.grown);
  }
    where
      shift : (a : ℕ) → offset + n ≤ a → n + (a - (offset + n)) ≡ a - offset
      shift a h = omega arith

  -- The files take what they are given.
  abbrev pub TakesAll : Type 0
  TakesAll = (size count : ℕ) → disk.taken size count ≡ count

  -- On such a device, punching a hole of a whole number of blocks at a whole block succeeds and leaves such a device, where the bytes
  -- of the hole are null and all others as before.
  pub fallocate-Wrote :
      (fuel : ℕ) (d : Device Byte) (len offset : ℕ)
      → IsDevice null disk back lower d
      → len % alignment ≡ 0
      → offset % alignment ≡ 0
      → offset + len < alignment * 2 ^ 50
      → d.data_size + len ≤ alignment * 2 ^ 54
      → len < fuel
      → ((fallocate disk fuel d true true offset len).success ≡ true)
        × Wrote null disk back lower
            (λ i. null)
            len
            offset
            d
            (fallocate disk fuel d true true offset len).state
  unfolding fallocate
  fallocate-Wrote zero d len offset v a b fits room f = absurd (omega arith)
  fallocate-Wrote (suc fuel) d len offset v a b fits room f =
      let step = max_length * alignment in
      elim (le-cases len step) [
        | inl k ↦
            rw (le→ltb step len k)
              (fallocate_once-Wrote null disk back lower d len offset v a b k fits)
        | inr k ↦
            let w =
              fallocate_once-Wrote null disk back lower d step offset v refl b (omega arith)
                (omega arith) in
            let first = (fallocate_once disk d true true offset step).state in
            let w' =
              fallocate-Wrote fuel first (len - step) (offset + step) w.1.valid (omega arith)
                (omega arith) (omega arith) (omega (arith, w.1.grown)) (omega arith) in
            rw (lt→ltb step len k, w.0)
              (
                w'.0,
                Wrote-then (λ i. null) step (len - step) len offset d first _ (omega arith) w.1
                    w'.1,
              )
      ]
