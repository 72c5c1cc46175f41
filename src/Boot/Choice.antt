-- ===== src/Boot/Choice.antt =====
-- What memory `kernel_entry` of src/kernel/kernel_entry.c chooses.
use dar_os.Base.{
  ℕ, ◌+◌, ◌-◌, ◌^◌, ◌<◌, ◌≤◌, ◌≡◌, ◌⊎◌, inl, inr, refl, ap, ◌∙◌, sym, subst, ◌==◌, ltb, leb, true,
  false, if◌then◌else◌, Option, none, some, add64, sub64, List, [], ◌∷◌, arith, Bool-cases,
}
use dar_os.Boot.{Region, clip, choose, low}

-- The regions end within 64 bits.
unfoldable pub Ends : List Region → Type 0
Ends [] = Unit
Ends (r ∷ rs) = (r.start + r.length < 2 ^ 64) × Ends rs

-- How much a region has that is free and not low.
unfoldable pub free_length : Region → ℕ
free_length r =
    if r.type == 1
    then if leb low r.start
      then r.length
      else if leb low (r.start + r.length)
      then r.start + r.length - low
      else 0
    else 0

unfoldable pub longest : List Region → ℕ
longest [] = 0
longest (r ∷ rs) = if ltb (longest rs) (free_length r) then free_length r else longest rs

-- A free region, behind the low memory, that is the end of a region of the table.
pub record IsEnd (r q : Region) : Type 0 where
  pub free : q.type ≡ 1
  pub still : r.type ≡ 1
  pub starts : q.start ≤ r.start
  pub high : low ≤ r.start
  pub ends : r.start + r.length ≡ q.start + q.length

unfoldable pub Among : Region → List Region → Type 0
Among r [] = ⊥
Among r (q ∷ qs) = IsEnd r q ⊎ Among r qs

-- What has been chosen of a table: nothing if none of it is free, and else the longest that is.
unfoldable pub Chosen : List Region → Option Region → Type 0
Chosen table none = longest table ≡ 0
Chosen table (some r) = Among r table × (r.length ≡ longest table) × (0 < r.length)

-- The four cases of an entry.
clip_other : (q : Region) → (q.type == 1) ≡ false → (clip q ≡ q) × (free_length q ≡ 0)
unfolding clip free_length
clip_other q t = rw t (refl, refl)

clip_high :
    (q : Region)
    → (q.type == 1) ≡ true
    → ltb q.start low ≡ false
    → (clip q ≡ q) × (free_length q ≡ q.length)
unfolding clip free_length
clip_high q t h = let l : leb low q.start ≡ true = ground arith in rw (t, h, l) (refl, refl)

clip-low :
    (q : Region)
    → (q.type == 1) ≡ true
    → ltb q.start low ≡ true
    → ltb (add64 q.start q.length) low ≡ true
    → q.start + q.length < 2 ^ 64
    → (clip q ≡ record q { type = 2 }) × (free_length q ≡ 0)
unfolding clip free_length
clip-low q t h e lt =
    let l : leb low q.start ≡ false = ground arith in
    let m : leb low (q.start + q.length) ≡ false = ground arith in rw (t, h, e, l, m) (refl, refl)

clip_both :
    (q : Region)
    → (q.type == 1) ≡ true
    → ltb q.start low ≡ true
    → ltb (add64 q.start q.length) low ≡ false
    → q.start + q.length < 2 ^ 64
    → (clip q ≡ record q { length = sub64 q.length (low - q.start); start = low })
      × (free_length q ≡ q.start + q.length - low)
unfolding clip free_length
clip_both q t h e lt =
    let l : leb low q.start ≡ false = ground arith in
    let m : leb low (q.start + q.length) ≡ true = ground arith in rw (t, h, e, l, m) (refl, refl)

-- What an entry gives: nothing, or the free end of its region.
clip-gives :
    (q : Region)
    → q.start + q.length < 2 ^ 64
    → (((clip q).type == 1 ≡ false) × (free_length q ≡ 0))
      ⊎ (((clip q).type == 1 ≡ true) × IsEnd (clip q) q × ((clip q).length ≡ free_length q))
clip-gives q lt = elim (Bool-cases (q.type == 1)) [
  | inl t ↦ elim (Bool-cases (ltb q.start low)) [
    | inl h ↦ elim (Bool-cases (ltb (add64 q.start q.length) low)) [
      | inl e ↦
          let (c, f) = clip-low q t h e lt in
          let two : ((clip q).type == 1) ≡ false = ap (λ r. r.type == 1) c in inl (two, f)
      | inr e ↦
          let (c, f) = clip_both q t h e lt in
          let r : Region = record q { length = sub64 q.length (low - q.start); start = low } in
          let one : ((clip q).type == 1) ≡ true = ap (λ r. r.type == 1) c ∙ t in
          let end : IsEnd r q = record {
            free = ground arith;
            still = ground arith;
            starts = ground arith;
            high = ground arith;
            ends = ground arith;
          } in
          let len : r.length ≡ free_length q = ground arith in
          inr (one, subst (λ x. IsEnd x q) (sym c) end, ap (λ r. r.length) c ∙ len)
    ]
    | inr h ↦
        let (c, f) = clip_high q t h in
        let one : ((clip q).type == 1) ≡ true = ap (λ r. r.type == 1) c ∙ t in
        let end : IsEnd q q = record {
          free = ground arith;
          still = ground arith;
          starts = ground arith;
          high = ground arith;
          ends = refl;
        } in
        inr (one, subst (λ x. IsEnd x q) (sym c) end, ap (λ r. r.length) c ∙ sym f)
  ]
  | inr t ↦
      let (c, f) = clip_other q t in
      let none : ((clip q).type == 1) ≡ false = ap (λ r. r.type == 1) c ∙ t in inl (none, f)
]

choose-skip :
    (q : Region) (rs : List Region) (largest : ℕ) (best : Option Region)
    → ((clip q).type == 1) ≡ false
    → choose (q ∷ rs) largest best ≡ choose rs largest best
unfolding choose
choose-skip q rs largest best t = rw t refl

choose-short :
    (q : Region) (rs : List Region) (largest : ℕ) (best : Option Region)
    → ((clip q).type == 1) ≡ true
    → ltb largest (clip q).length ≡ false
    → choose (q ∷ rs) largest best ≡ choose rs largest best
unfolding choose
choose-short q rs largest best t l = rw (t, l) refl

choose-long :
    (q : Region) (rs : List Region) (largest : ℕ) (best : Option Region)
    → ((clip q).type == 1) ≡ true
    → ltb largest (clip q).length ≡ true
    → choose (q ∷ rs) largest best ≡ choose rs (clip q).length (some (clip q))
unfolding choose
choose-long q rs largest best t l = rw (t, l) refl

-- The longer of the first and the others.
longest-first :
    (q : Region) (rs : List Region) → longest rs ≤ free_length q → longest (q ∷ rs) ≡ free_length q
unfolding longest
longest-first q rs le = ground arith

longest-rest :
    (q : Region) (rs : List Region) → free_length q ≤ longest rs → longest (q ∷ rs) ≡ longest rs
unfolding longest
longest-rest q rs le = ground arith

longest-bound :
    (q : Region) (rs : List Region) (n : ℕ)
    → free_length q ≤ n
    → longest rs ≤ n
    → longest (q ∷ rs) ≤ n
unfolding longest
longest-bound q rs n a b = ground arith

-- What the loop gives from a region chosen before: that one if no free one is longer, and else the longest.
abbrev Loop : List Region → (largest : ℕ) → (best o : Option Region) → Type 0
Loop rs largest best o =
    ((o ≡ best) × (longest rs ≤ largest))
    ⊎ ((r : Region) × (o ≡ some r) × Among r rs × (r.length ≡ longest rs) × (largest < r.length))

-- An entry that is not chosen, since what it has that is free is not longer than the longest so far.
Loop-passes :
    (q : Region) (rs : List Region) (largest : ℕ) (best o : Option Region)
    → free_length q ≤ largest
    → Loop rs largest best o
    → Loop (q ∷ rs) largest best o
unfolding Among
Loop-passes q rs largest best o le (inl (e, b)) = inl (e, longest-bound q rs largest le b)
Loop-passes q rs largest best o le (inr (r, e, a, l, lt)) =
    let m = longest-rest q rs (omega arith) in inr (r, e, inr a, l ∙ sym m, lt)

Loop-takes :
    (q : Region) (rs : List Region) (largest : ℕ) (best o : Option Region)
    → IsEnd (clip q) q
    → (clip q).length ≡ free_length q
    → largest < (clip q).length
    → Loop rs (clip q).length (some (clip q)) o
    → Loop (q ∷ rs) largest best o
unfolding Among
Loop-takes q rs largest best o end f lt (inl (e, b)) =
    let m = longest-first q rs (omega arith) in inr (clip q, e, inl end, f ∙ sym m, lt)
Loop-takes q rs largest best o end f lt (inr (r, e, a, l, lt')) =
    let m = longest-rest q rs (omega arith) in inr (r, e, inr a, l ∙ sym m, omega arith)

choose-Loop :
    (rs : List Region) (largest : ℕ) (best : Option Region)
    → Ends rs
    → Loop rs largest best (choose rs largest best)
unfolding choose longest Among Ends
choose-Loop [] largest best ends = inl (refl, omega arith)
choose-Loop (q ∷ rs) largest best (lt, ends) =
    let rest = choose-Loop rs largest best ends in
    elim (clip-gives q lt) [
      | inl (t, f) ↦
          subst (Loop (q ∷ rs) largest best) (sym (choose-skip q rs largest best t))
            (Loop-passes q rs largest best (choose rs largest best) (omega arith) rest)
      | inr (t, end, f) ↦ elim (Bool-cases (ltb largest (clip q).length)) [
        | inl longer ↦
            subst (Loop (q ∷ rs) largest best) (sym (choose-long q rs largest best t longer)) (
              Loop-takes q rs largest best (choose rs (clip q).length (some (clip q))) end f
                (ground arith) (choose-Loop rs (clip q).length (some (clip q)) ends))
        | inr short ↦
            subst (Loop (q ∷ rs) largest best) (sym (choose-short q rs largest best t short))
              (Loop-passes q rs largest best (choose rs largest best) (ground arith) rest)
      ]
    ]

-- The loop chooses, of what the regions have that is free and behind the low memory, the longest, and nothing exactly if
-- they have none: for a table whose regions end within 64 bits.
pub choose-Chosen : (table : List Region) → Ends table → Chosen table (choose table 0 none)
unfolding Chosen
choose-Chosen table ends = elim (choose-Loop table 0 none ends) [
  | inl (e, le) ↦ subst (Chosen table) (sym e) (omega arith)
  | inr (r, e, a, l, lt) ↦ subst (Chosen table) (sym e) (a, l, lt)
]
