-- ===== src/Malloc/Fit.antt =====
-- The search of `malloc` in src/lib/malloc.c, and the map with a block on the run that it finds.
use dar_os.Base.{
  ℕ, zero, suc, ◌+◌, ◌-◌, ◌*◌, ◌/◌, ◌≤◌, ◌<◌, ◌≡◌, ◌≢◌, sym, ap, subst, ◌∙◌, true, false, Option,
  none, some, ◌&&◌, arith, ◌==◌, ltb, leb, if◌then◌else◌, Bool-cases, Option-cases, inl, inr,
}
use native.Mathlib.Decide.{dec_lt}
use mathlib.Core.Option.{some-injective}
use dar_os.Malloc.{per_quad, bpart, whole_quads, place, set_mask, fill_quads, search_quads}
use dar_os.Malloc.Runs.{
  with_block, FreeRun, is_free-FreeRun, whole_quads-true, place-some, fill_quads_lem, set_mask_lem,
}

abbrev pub whole_of : ℕ → ℕ
whole_of needed = (needed - 1) / per_quad

abbrev pub need_of : ℕ → ℕ
need_of needed = needed - per_quad * whole_of needed

-- Entry `e` begins a free run of `n` entries, and `g` is the map with a block there. A block that fits
-- in a quadword lies within the map.
pub record Fits (map_size : ℕ) (f : ℕ → ℕ) (n e : ℕ) (g : ℕ → ℕ) : Type 0 where
  pub run : FreeRun f e n
  pub block : (j : ℕ) → g j ≡ with_block f e n j
  pub inside : n ≤ per_quad → e + n ≤ per_quad * map_size
  pub start : e < per_quad * map_size

pub none≢some {ℓ} : {A : Type ℓ} {a : A} → none ≢ some a
none≢some h = cc

-- A block within one quadword.
small-Fits :
    (i j need map_size : ℕ) (f : ℕ → ℕ)
    → i < map_size
    → j + need ≤ per_quad
    → 0 < need
    → FreeRun f (per_quad * i + j) need
    → Fits map_size f need (per_quad * i + j) (set_mask i j need f)
small-Fits i j need map_size f lt fit pos run = record {
  run = run;
  block = λ e. set_mask_lem i j need f e run;
  inside = λ _. omega arith;
  start = omega arith;
}

module _ (i map_size needed : ℕ) (f : ℕ → ℕ) (lt : i < map_size) where
  -- A block that begins with whole quadwords.
  large-Fits :
      (w need : ℕ)
      → needed ≡ per_quad * w + need
      → 0 < w
      → 0 < need
      → need ≤ per_quad
      → FreeRun f (per_quad * i) (per_quad * w)
      → FreeRun f (per_quad * (i + w) + 0) need
      → Fits map_size f needed (per_quad * i) (fill_quads w (i + w) (set_mask (i + w) 0 need f))
  large-Fits w need e wpos npos le quads last = record {
    run = λ j p q. elim (dec_lt j (per_quad * i + per_quad * w)) [
      | yes lt ↦ quads j p lt
      | no ge ↦ last j (omega arith) (omega arith)
    ];
    block = λ j.
        fill_quads_lem w (i + w) (set_mask (i + w) 0 need f) j (omega arith)
        ∙ ap
            (λ x. if leb (per_quad * (i + w - w)) j && ltb j (per_quad * (i + w)) then bpart else x)
            (set_mask_lem (i + w) 0 need f j last)
        ∙ joined j;
    inside = λ small. absurd (omega arith);
    start = omega arith;
  }
    where
      joined :
          (j : ℕ)
          → (if leb (per_quad * (i + w - w)) j && ltb j (per_quad * (i + w))
              then bpart
              else with_block f (per_quad * (i + w) + 0) need j)
            ≡ with_block f (per_quad * i) needed j
      joined j = unfold with_block in (ground arith)

  -- The end of a successful round, where the place found is entry `j` of quadword `i + w`.
  placed-Fits :
      (w need j : ℕ)
      → needed ≡ per_quad * w + need
      → 0 < need
      → need ≤ per_quad
      → FreeRun f (per_quad * i) (per_quad * w)
      → j < per_quad - (need - 1)
      → (per_quad < needed → j ≡ 0)
      → FreeRun f (per_quad * (i + w) + j) need
      → Fits map_size f needed
          (if w == 0 then per_quad * (i + w) + j else per_quad * (i + w - w))
          (fill_quads w (i + w) (set_mask (i + w) j need f))
  unfolding fill_quads
  placed-Fits zero need j e pos le quads hi only run =
      subst (λ n. Fits map_size f n (per_quad * (i + 0) + j) (set_mask (i + 0) j need f))
        (omega arith) (small-Fits (i + 0) j need map_size f (omega arith) (omega arith) pos run)
  placed-Fits (suc w) need j e pos le quads hi only run =
      let z : j ≡ 0 = only (omega arith) in
      subst
        (λ k.
          Fits map_size f needed k (fill_quads (suc w) (i + suc w) (set_mask (i + suc w) j need f)))
        {x = per_quad * i} (ground arith)
        (subst
          (λ k.
            Fits map_size f needed (per_quad * i)
              (fill_quads (suc w) (i + suc w) (set_mask (i + suc w) k need f)))
          (sym z)
          (large-Fits (suc w) need e (omega arith) pos le quads
            (λ x p q. run x (omega arith) (omega arith))))

module _ (fuel i map_size needed : ℕ) (f : ℕ → ℕ) (lt : leb map_size i ≡ false) where
  abbrev pub stop : ℕ
  stop = (whole_quads (whole_of needed) i f).1

  abbrev pub place_at : Option ℕ
  place_at = place (per_quad - (need_of needed - 1)) 0 needed (need_of needed) stop f

  pub search_quads-blocked :
      (whole_quads (whole_of needed) i f).0 ≡ false
      → search_quads (suc fuel) i map_size needed f ≡ search_quads fuel (stop + 1) map_size needed f
  unfolding search_quads
  search_quads-blocked e = rw (lt, e)

  pub search_quads-no_place :
      (whole_quads (whole_of needed) i f).0 ≡ true
      → place_at ≡ none
      → search_quads (suc fuel) i map_size needed f ≡ search_quads fuel (stop + 1) map_size needed f
  unfolding search_quads
  search_quads-no_place e p = rw (lt, e, p)

  pub search_quads-found :
      (j : ℕ)
      → (whole_quads (whole_of needed) i f).0 ≡ true
      → place_at ≡ some j
      → search_quads (suc fuel) i map_size needed f
        ≡ some (
          if whole_of needed == 0 then per_quad * stop + j else per_quad * (stop - whole_of needed),
          fill_quads (whole_of needed) stop (set_mask stop j (need_of needed) f),
        )
  unfolding search_quads
  search_quads-found j e p = rw (lt, e, p)

  stop-Fits :
      (j : ℕ)
      → 0 < needed
      → (whole_quads (whole_of needed) i f).0 ≡ true
      → place_at ≡ some j
      → Fits map_size f needed
          (if whole_of needed == 0
            then per_quad * stop + j
            else per_quad * (stop - whole_of needed))
          (fill_quads (whole_of needed) stop (set_mask stop j (need_of needed) f))
  stop-Fits j pos found at =
      let (k, quads) = whole_quads-true (whole_of needed) i f found in
      let (lo, hi, free, only) =
        place-some (per_quad - (need_of needed - 1)) 0 needed (need_of needed) stop f j at in
      subst
        (λ x.
          Fits map_size f needed
            (if whole_of needed == 0 then per_quad * x + j else per_quad * (x - whole_of needed))
            (fill_quads (whole_of needed) x (set_mask x j (need_of needed) f)))
        (sym k)
        (placed-Fits i map_size needed f (ground arith) (whole_of needed) (need_of needed) j
          (omega arith) (omega arith) (omega arith) quads (omega arith) only
          (subst (λ x. FreeRun f (per_quad * x + j) (need_of needed)) k
            (is_free-FreeRun f (per_quad * stop + j) (need_of needed) free)))

-- Where the search finds a place it is a free run, and the map has a block there.
pub search_quads-Fits :
    (fuel i map_size needed : ℕ) (f : ℕ → ℕ) (e : ℕ) (g : ℕ → ℕ)
    → 0 < needed
    → search_quads fuel i map_size needed f ≡ some (e, g)
    → Fits map_size f needed e g
unfolding search_quads
search_quads-Fits zero i map_size needed f e g pos h = cc
search_quads-Fits (suc fuel) i map_size needed f e g pos h = elim (Bool-cases (leb map_size i)) [
  | inl past ↦ absurd (none≢some (rw past at h))
  | inr lt ↦ elim (Bool-cases (whole_quads (whole_of needed) i f).0) [
    | inr blocked ↦
        search_quads-Fits fuel _ map_size needed f e g pos
          (sym (search_quads-blocked fuel i map_size needed f lt blocked) ∙ h)
    | inl found ↦ elim (Option-cases (place_at fuel i map_size needed f lt)) [
      | inl nowhere ↦
          search_quads-Fits fuel _ map_size needed f e g pos
            (sym (search_quads-no_place fuel i map_size needed f lt found nowhere) ∙ h)
      | inr (j, at) ↦
          subst (λ r. Fits map_size f needed r.0 r.1)
            (some-injective _ _
              (sym (search_quads-found fuel i map_size needed f lt j found at) ∙ h))
            (stop-Fits fuel i map_size needed f lt j pos found at)
    ]
  ]
]
