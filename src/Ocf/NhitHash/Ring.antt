-- ===== src/Ocf/NhitHash/Ring.antt =====
-- The ring buffer of nhit_hash.c: the pointer, and the slots apart from the one that is being filled.
use cora.Base.{
  ℕ, ◌+◌, ◌%◌, ◌<◌, ◌≡◌, refl, subst, ◌∙◌, ◌≢◌, true, arith, ◌==◌, Bool-cases, inl, inr, ==→eq,
}
use cora.Ocf.NhitHash.{
  Elem, NhitHash, get_rb_slot, commit_rb_slot, core_id_invalid, forget_core, link_prev, link_next,
  link_head, collision_remove, collision_insert_new, nhit_hash_insert,
}

-- Between calls: the pointer is inside the ring, and no slot is being filled.
pub record IsRing (h : NhitHash) : Type 0 where
  pub inside : h.rb_pointer < h.rb_entries
  pub free : (j : ℕ) → (h.ring_buffer j).valid ≡ true

-- The slot holds the same line with the same count.
pub record SameLine (a b : Elem) : Type 0 where
  pub lba : a.core_lba ≡ b.core_lba
  pub id : a.core_id ≡ b.core_id
  pub counter : a.counter ≡ b.counter
  pub valid : a.valid ≡ b.valid

SameLine-trans : (a b c : Elem) → SameLine a b → SameLine b c → SameLine a c
SameLine-trans a b c p q = record {
  lba = p.lba ∙ q.lba;
  id = p.id ∙ q.id;
  counter = p.counter ∙ q.counter;
  valid = p.valid ∙ q.valid;
}

-- What a step that is about slot `s` keeps.
record Keeps (s : ℕ) (h t : NhitHash) : Type 0 where
  pointer : t.rb_pointer ≡ h.rb_pointer
  entries : t.rb_entries ≡ h.rb_entries
  lines : (j : ℕ) → s ≢ j → SameLine (t.ring_buffer j) (h.ring_buffer j)

Keeps-trans : (s : ℕ) (a b c : NhitHash) → Keeps s a b → Keeps s b c → Keeps s a c
Keeps-trans s a b c p q = record {
  pointer = q.pointer ∙ p.pointer;
  entries = q.entries ∙ p.entries;
  lines = λ j ne. SameLine-trans _ _ _ (q.lines j ne) (p.lines j ne);
}

Keeps-refl : (s : ℕ) (h : NhitHash) → Keeps s h h
Keeps-refl s h = record {
  pointer = refl;
  entries = refl;
  lines = λ j ne. record { lba = refl; id = refl; counter = refl; valid = refl };
}

forget-Keeps : (h : NhitHash) (s : ℕ) → Keeps s h (forget_core h s)
forget-Keeps h s = record {
  pointer = refl;
  entries = refl;
  lines = λ j ne. record {
    lba = ground arith;
    id = ground arith;
    counter = ground arith;
    valid = ground arith;
  };
}

prev-Keeps : (h : NhitHash) (s : ℕ) → Keeps s h (link_prev h s)
prev-Keeps h s = record {
  pointer = ground arith;
  entries = ground arith;
  lines = λ j ne. record {
    lba = ground arith;
    id = ground arith;
    counter = ground arith;
    valid = ground arith;
  };
}

next-Keeps : (h : NhitHash) (s : ℕ) → Keeps s h (link_next h s)
next-Keeps h s = record {
  pointer = ground arith;
  entries = ground arith;
  lines = λ j ne. record {
    lba = ground arith;
    id = ground arith;
    counter = ground arith;
    valid = ground arith;
  };
}

head-Keeps : (h : NhitHash) (s hash : ℕ) → Keeps s h (link_head h s hash)
head-Keeps h s hash = record {
  pointer = ground arith;
  entries = ground arith;
  lines = λ j ne. record {
    lba = ground arith;
    id = ground arith;
    counter = ground arith;
    valid = ground arith;
  };
}

remove-Keeps : (h : NhitHash) (s : ℕ) → Keeps s h (collision_remove h s)
unfolding collision_remove
remove-Keeps h s = elim (Bool-cases ((h.ring_buffer s).core_id == core_id_invalid)) [
  | inl gone ↦ rw gone (Keeps-refl s h)
  | inr here ↦ rw here (
      Keeps-trans s h a _ (forget-Keeps h s) (
        Keeps-trans s a b _ (prev-Keeps a s)
          (Keeps-trans s b c _ (next-Keeps b s) (head-Keeps c s _))))
]
  where
    a : NhitHash
    a = forget_core h s

    b : NhitHash
    b = link_prev a s

    c : NhitHash
    c = link_next b s

insert_new-Keeps : (h : NhitHash) (s i l : ℕ) → Keeps s h (collision_insert_new h s i l)
unfolding collision_insert_new
insert_new-Keeps h s i l = record {
  pointer = ground arith;
  entries = ground arith;
  lines = λ j ne. record {
    lba = ground arith;
    id = ground arith;
    counter = ground arith;
    valid = ground arith;
  };
}

commit-Keeps : (h : NhitHash) (s : ℕ) → Keeps s h (commit_rb_slot h s)
commit-Keeps h s = record {
  pointer = refl;
  entries = refl;
  lines = λ j ne. record {
    lba = ground arith;
    id = ground arith;
    counter = ground arith;
    valid = ground arith;
  };
}

taken-lines :
    (h : NhitHash) (j : ℕ)
    → h.rb_pointer ≢ j
    → SameLine ((get_rb_slot h).2.ring_buffer j) (h.ring_buffer j)
unfolding get_rb_slot
taken-lines h j ne = record {
  lba = ground arith;
  id = ground arith;
  counter = ground arith;
  valid = ground arith;
}

-- What an insertion promises of the state before and after.
pub record IsAdvance (h t : NhitHash) : Type 0 where
  pub ring : IsRing t
  pub moved : t.rb_pointer ≡ (h.rb_pointer + 1) % h.rb_entries
  pub entries : t.rb_entries ≡ h.rb_entries
  pub others : (j : ℕ) → h.rb_pointer ≢ j → SameLine (t.ring_buffer j) (h.ring_buffer j)

valid-commit : (h : NhitHash) (s : ℕ) → ((commit_rb_slot h s).ring_buffer s).valid ≡ true
valid-commit h s = ground arith

-- From a ring at rest, an insertion moves the pointer on by one slot, around the end, leaves the ring at
-- rest, and every slot but the one at the pointer keeps its line and its count.
pub insert-IsAdvance :
    (h : NhitHash) (core_id core_lba : ℕ)
    → IsRing h
    → IsAdvance h (nhit_hash_insert h core_id core_lba)
unfolding nhit_hash_insert get_rb_slot
insert-IsAdvance h i l r = rw (r.free h.rb_pointer) (record {
  ring = record { inside = omega (arith, k.pointer, k.entries, r.inside); free = all_valid };
  moved = k.pointer;
  entries = k.entries;
  others = others;
})
  where
    s : ℕ
    s = h.rb_pointer

    taken : NhitHash
    taken = (get_rb_slot h).2

    filled : NhitHash
    filled = collision_insert_new (collision_remove taken s) s i l

    k : Keeps s taken (commit_rb_slot filled s)
    k =
        Keeps-trans s taken (collision_remove taken s) (commit_rb_slot filled s)
          (remove-Keeps taken s)
          (Keeps-trans s (collision_remove taken s) filled (commit_rb_slot filled s)
            (insert_new-Keeps (collision_remove taken s) s i l) (commit-Keeps filled s))

    others : (j : ℕ) → s ≢ j → SameLine ((commit_rb_slot filled s).ring_buffer j) (h.ring_buffer j)
    others j ne = SameLine-trans _ (taken.ring_buffer j) _ (k.lines j ne) (taken-lines h j ne)

    all_valid : (j : ℕ) → ((commit_rb_slot filled s).ring_buffer j).valid ≡ true
    all_valid j = elim (Bool-cases (s == j)) [
      | inl e ↦
          subst (λ x. ((commit_rb_slot filled s).ring_buffer x).valid ≡ true) (==→eq s j e)
            (valid-commit filled s)
      | inr e ↦ (others j (λ q. ground arith)).valid ∙ r.free j
    ]
