-- ===== src/Ocf/Lru/Segment.antt =====
-- A run of lines that the metadata links in both directions.
use cora.Base.{ℕ, ◌≡◌, refl, sym, ◌∙◌, ◌≢◌, List, [], ◌∷◌, ◌++◌, Bool, update, ne→==, ==_refl}
use cora.Ocf.Lru.{Meta, Nodes, end_marker, set_prev, set_next}

abbrev pub head_or : List ℕ → ℕ → ℕ
head_or [] d = d
head_or (x ∷ xs) d = x

abbrev pub last_or : ℕ → List ℕ → ℕ
last_or d [] = d
last_or d (x ∷ xs) = last_or x xs

-- `xs` is linked, with `p` before its first line and `n` behind its last.
abbrev pub Seg : Nodes → ℕ → List ℕ → ℕ → Type 0
Seg ns p [] n = Unit {0}
Seg ns p (x ∷ xs) n = ((ns x).prev ≡ p) × ((ns x).next ≡ head_or xs n) × Seg ns x xs n

-- `c` is not among the lines.
abbrev pub Fresh : ℕ → List ℕ → Type 0
Fresh c [] = Unit {0}
Fresh c (x ∷ xs) = (c ≢ x) × Fresh c xs

-- No line stands twice, and none is the end marker.
abbrev pub Distinct : List ℕ → Type 0
Distinct [] = Unit {0}
Distinct (x ∷ xs) = (x ≢ end_marker) × Fresh x xs × Distinct xs

-- Every line has this hot flag.
abbrev pub AllHot : Nodes → Bool → List ℕ → Type 0
AllHot ns b [] = Unit {0}
AllHot ns b (x ∷ xs) = ((ns x).hot ≡ b) × AllHot ns b xs

pub last_or-append : (d : ℕ) (xs ys : List ℕ) → last_or d (xs ++ ys) ≡ last_or (last_or d xs) ys
last_or-append d [] ys = refl
last_or-append d (x ∷ xs) ys = last_or-append x xs ys

pub head_or-append : (d : ℕ) (xs ys : List ℕ) → head_or (xs ++ ys) d ≡ head_or xs (head_or ys d)
head_or-append d [] ys = refl
head_or-append d (x ∷ xs) ys = refl

pub Fresh-append : (c : ℕ) (xs ys : List ℕ) → Fresh c xs → Fresh c ys → Fresh c (xs ++ ys)
Fresh-append c [] ys a b = b
Fresh-append c (x ∷ xs) ys a b = (a.0, Fresh-append c xs ys a.1 b)

pub Fresh-split : (c : ℕ) (xs ys : List ℕ) → Fresh c (xs ++ ys) → Fresh c xs × Fresh c ys
Fresh-split c [] ys a = (tt, a)
Fresh-split c (x ∷ xs) ys a = let r = Fresh-split c xs ys a.1 in ((a.0, r.0), r.1)

-- What `Distinct` says around a line in the middle.
pub Distinct-middle :
    (ys : List ℕ) (c : ℕ) (zs : List ℕ)
    → Distinct (ys ++ c ∷ zs)
    → (c ≢ end_marker) × Fresh c ys × Fresh c zs × Distinct (ys ++ zs)
Distinct-middle [] c zs d = (d.0, tt, d.1, d.2)
Distinct-middle (y ∷ ys) c zs d =
    let r = Distinct-middle ys c zs d.2 in
    let f = Fresh-split y ys (c ∷ zs) d.1 in
    (r.0, ((λ e. f.1.0 (sym e)), r.1), r.2, (d.0, Fresh-append y ys zs f.0 f.1.1, r.3))

pub Distinct-split : (ys zs : List ℕ) → Distinct (ys ++ zs) → Distinct ys × Distinct zs
Distinct-split [] zs d = (tt, d)
Distinct-split (y ∷ ys) zs d =
    let r = Distinct-split ys zs d.2 in ((d.0, (Fresh-split y ys zs d.1).0, r.0), r.1)

pub last_or-ne : (d : ℕ) (xs : List ℕ) → d ≢ end_marker → Distinct xs → last_or d xs ≢ end_marker
last_or-ne d [] h k = h
last_or-ne d (x ∷ xs) h k = last_or-ne x xs k.0 k.2

pub last_or-Fresh : (c d : ℕ) (xs : List ℕ) → c ≢ d → Fresh c xs → c ≢ last_or d xs
last_or-Fresh c d [] h f = h
last_or-Fresh c d (x ∷ xs) h f = last_or-Fresh c x xs f.0 f.1

module _ (ns : Nodes) (i : ℕ) (v : Meta) where
  pub Seg-update :
      (p : ℕ) (xs : List ℕ) (n : ℕ) → Fresh i xs → Seg ns p xs n → Seg (update ns i v) p xs n
  Seg-update p [] n f s = tt
  Seg-update p (x ∷ xs) n f s = rw (ne→== i x f.0) (s.0, s.1, Seg-update x xs n f.1 s.2)

  pub AllHot-update :
      (b : Bool) (xs : List ℕ) → Fresh i xs → AllHot ns b xs → AllHot (update ns i v) b xs
  AllHot-update b [] f s = tt
  AllHot-update b (x ∷ xs) f s = rw (ne→== i x f.0) (s.0, AllHot-update b xs f.1 s.1)

-- A write that keeps the links of every line keeps the runs, and so for the flags.
pub Seg-congr :
    (ns ms : Nodes)
    → ((x : ℕ) → ((ms x).prev ≡ (ns x).prev) × ((ms x).next ≡ (ns x).next))
    → (p : ℕ) (xs : List ℕ) (n : ℕ) → Seg ns p xs n
    → Seg ms p xs n
Seg-congr ns ms h p [] n s = tt
Seg-congr ns ms h p (x ∷ xs) n s = ((h x).0 ∙ s.0, (h x).1 ∙ s.1, Seg-congr ns ms h x xs n s.2)

pub AllHot-congr :
    (ns ms : Nodes)
    → ((x : ℕ) → (ms x).hot ≡ (ns x).hot)
    → (b : Bool) (xs : List ℕ) → AllHot ns b xs
    → AllHot ms b xs
AllHot-congr ns ms h b [] s = tt
AllHot-congr ns ms h b (x ∷ xs) s = (h x ∙ s.0, AllHot-congr ns ms h b xs s.1)

pub Seg-append :
    (ns : Nodes) (p : ℕ) (xs ys : List ℕ) (n : ℕ)
    → Seg ns p xs (head_or ys n)
    → Seg ns (last_or p xs) ys n
    → Seg ns p (xs ++ ys) n
Seg-append ns p [] ys n a b = b
Seg-append ns p (x ∷ xs) ys n a b =
    (a.0, a.1 ∙ sym (head_or-append n xs ys), Seg-append ns x xs ys n a.2 b)

pub Seg-split :
    (ns : Nodes) (p : ℕ) (xs ys : List ℕ) (n : ℕ)
    → Seg ns p (xs ++ ys) n
    → Seg ns p xs (head_or ys n) × Seg ns (last_or p xs) ys n
Seg-split ns p [] ys n s = (tt, s)
Seg-split ns p (x ∷ xs) ys n s =
    let r = Seg-split ns x xs ys n s.2 in ((s.0, s.1 ∙ head_or-append n xs ys, r.0), r.1)

-- The line behind the last one is changed by a write of its `next`.
pub Seg-set_next :
    (ns : Nodes) (p x : ℕ) (xs : List ℕ) (m n : ℕ)
    → Distinct (x ∷ xs)
    → Seg ns p (x ∷ xs) m
    → Seg (set_next ns (last_or x xs) n) p (x ∷ xs) n
Seg-set_next ns p x [] m n d s = rw (==_refl x) (s.0, refl, tt)
Seg-set_next ns p x (y ∷ xs) m n d s =
    rw (ne→== (last_or y xs) x (λ e. last_or-Fresh x y xs d.1.0 d.1.1 (sym e)))
      (s.0, s.1, Seg-set_next ns x y xs m n d.2 s.2)

-- The line before the first one is changed by a write of its `prev`.
pub Seg-set_prev :
    (ns : Nodes) (p q x : ℕ) (xs : List ℕ) (n : ℕ)
    → Distinct (x ∷ xs)
    → Seg ns p (x ∷ xs) n
    → Seg (set_prev ns x q) q (x ∷ xs) n
Seg-set_prev ns p q x xs n d s =
    rw (==_refl x) (refl, s.1, Seg-update ns x (record (ns x) { prev = q }) x xs n d.1 s.2)

pub last_or-Fresh_right :
    (y : ℕ) (ys zs : List ℕ) → Distinct ((y ∷ ys) ++ zs) → Fresh (last_or y ys) zs
last_or-Fresh_right y [] zs d = d.1
last_or-Fresh_right y (x ∷ ys) zs d = last_or-Fresh_right x ys zs d.2

-- Two runs are joined by a write at the end of the first and one at the start of the second.
pub Seg-join :
    (ns : Nodes) (c p y : ℕ) (ys : List ℕ) (z : ℕ) (zs : List ℕ) (m n : ℕ)
    → Distinct ((y ∷ ys) ++ z ∷ zs)
    → Seg ns p (y ∷ ys) m
    → Seg ns c (z ∷ zs) n
    → Seg (set_prev (set_next ns (last_or y ys) z) z (last_or y ys)) p ((y ∷ ys) ++ z ∷ zs) n
Seg-join ns c p y ys z zs m n d a b =
    let l = last_or y ys in
    let parts = Distinct-split (y ∷ ys) (z ∷ zs) d in
    let mid = Distinct-middle (y ∷ ys) z zs d in
    Seg-append (set_prev (set_next ns l z) z l) p (y ∷ ys) (z ∷ zs) n
      (Seg-update (set_next ns l z) z _ p (y ∷ ys) z mid.1 (Seg-set_next ns p y ys m z parts.0 a))
      (Seg-set_prev (set_next ns l z) c l z zs n parts.1
        (Seg-update ns l _ c (z ∷ zs) n (last_or-Fresh_right y ys (z ∷ zs) d) b))

pub AllHot-split :
    (ns : Nodes) (b : Bool) (xs ys : List ℕ)
    → AllHot ns b (xs ++ ys)
    → AllHot ns b xs × AllHot ns b ys
AllHot-split ns b [] ys a = (tt, a)
AllHot-split ns b (x ∷ xs) ys a = let r = AllHot-split ns b xs ys a.1 in ((a.0, r.0), r.1)

pub AllHot-append :
    (ns : Nodes) (b : Bool) (xs ys : List ℕ)
    → AllHot ns b xs
    → AllHot ns b ys
    → AllHot ns b (xs ++ ys)
AllHot-append ns b [] ys a c = c
AllHot-append ns b (x ∷ xs) ys a c = (a.0, AllHot-append ns b xs ys a.1 c)

pub Seg-last :
    (ns : Nodes) (p x : ℕ) (xs : List ℕ) (n : ℕ)
    → Seg ns p (x ∷ xs) n
    → (ns (last_or x xs)).next ≡ n
Seg-last ns p x [] n s = s.1
Seg-last ns p x (y ∷ xs) n s = Seg-last ns x y xs n s.2
