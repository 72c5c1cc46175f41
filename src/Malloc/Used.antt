-- ===== src/Malloc/Used.antt =====
-- What src/lib/malloc.c says of the room in the heap: the use that `heapUsed` counts, and what a null
-- pointer means.
use Prim.Native.Nat.{min, max}
use dar_os.Base.{
  ℕ, zero, suc, ◌+◌, ◌-◌, ◌*◌, ◌≤◌, ◌<◌, ◌≡◌, ◌≢◌, ◌⊎◌, refl, sym, ap, subst, ◌∙◌, true, false,
  none, arith, leb, Option-cases, inl, inr,
}
use native.Mathlib.Decide.{ℕ_discrete}
use dar_os.Malloc.{
  Heap, blk_sz, per_quad, is_free, place, whole_quads, search_quads, count_used, heap_used,
  heap_size, malloc,
}
use dar_os.Malloc.Runs.{with_block, FreeRun}
use dar_os.Malloc.Fit.{
  whole_of, need_of, place_at, none≢some, search_quads-no_place, search_quads-found,
}
use dar_os.Malloc.Free.{blocks, malloc-Granted, malloc-found}

-- The entries of a block that lie among `n` from `a` on.
abbrev overlap : (n a e m : ℕ) → ℕ
overlap n a e m = min (a + n) (e + m) - max a e

count_used-with_block :
    (n a e m : ℕ) (f g : ℕ → ℕ)
    → FreeRun f e m
    → ((j : ℕ) → g j ≡ with_block f e m j)
    → count_used n a g ≡ count_used n a f + overlap n a e m
unfolding count_used with_block
count_used-with_block zero a e m f g run block = omega arith
count_used-with_block (suc n) a e m f g run block =
    ground (arith, count_used-with_block n (a + 1) e m f g run block, run a, block a)

-- A block that ends within the heap adds its bytes to what `heapUsed` returns.
pub heap_used-malloc :
    (n_bytes : ℕ) (h : Heap)
    → (malloc n_bytes h).0 ≢ 0
    → (n_bytes ≤ 4096) ⊎ ((malloc n_bytes h).0 + blocks n_bytes * blk_sz ≤ h.heap + heap_size h)
    → heap_used (malloc n_bytes h).1 ≡ heap_used h + blocks n_bytes * blk_sz
unfolding heap_used heap_size
heap_used-malloc n_bytes h ne fit =
    let (e, g) = malloc-Granted n_bytes h ne in
    ap (λ m. count_used (per_quad * m) 0 (malloc n_bytes h).1.entry * blk_sz) g.unmoved.1
    ∙ ap (λ c. c * blk_sz)
        (count_used-with_block (per_quad * h.map_size) 0 e (blocks n_bytes) h.entry _ g.fits.run
          g.fits.block)
    ∙ ground (arith, g.fits.inside, g.pointer)

place-none :
    (n j needed i : ℕ) (f : ℕ → ℕ) (k : ℕ)
    → needed ≤ per_quad
    → j ≤ k
    → k < j + n
    → place n j needed needed i f ≡ none
    → is_free f (per_quad * i + k) needed ≡ false
unfolding place
place-none zero j needed i f k le p q h = absurd (omega arith)
place-none (suc n) j needed i f k le p q h = elim (ℕ_discrete j k) [
  | yes e ↦ ground (arith, ap (λ x. is_free f (per_quad * i + x) needed) e)
  | no ne ↦ ground (arith, place-none n (j + 1) needed i f k)
]

module _ (fuel i map_size needed : ℕ) (f : ℕ → ℕ) where
  module _ (pos : 0 < needed) (le : needed ≤ per_quad) (lt : leb map_size i ≡ false) where
    whole-zero : whole_of needed ≡ 0
    whole-zero = omega arith

    need-all : need_of needed ≡ needed
    need-all = omega arith

    found : (whole_quads (whole_of needed) i f).0 ≡ true
    unfolding whole_quads
    found = subst (λ w. (whole_quads w i f).0 ≡ true) (sym whole-zero) refl

    stop-here : (whole_quads (whole_of needed) i f).1 ≡ i
    unfolding whole_quads
    stop-here = subst (λ w. (whole_quads w i f).1 ≡ i) (sym whole-zero) refl

    -- For a request of at most a quadword, a round of the search that finds no place leads to the
    -- next round.
    search_quads-none :
        search_quads (suc fuel) i map_size needed f ≡ none
        → (place (per_quad - (needed - 1)) 0 needed needed i f ≡ none)
          × (search_quads fuel (i + 1) map_size needed f ≡ none)
    search_quads-none h = elim (Option-cases (place_at fuel i map_size needed f lt)) [
      | inl nowhere ↦ (
        subst (λ n. place (per_quad - (n - 1)) 0 needed n i f ≡ none) need-all
            (subst
              (λ k. place (per_quad - (need_of needed - 1)) 0 needed (need_of needed) k f ≡ none)
              stop-here nowhere),
        subst (λ k. search_quads fuel (k + 1) map_size needed f ≡ none) stop-here
            (sym (search_quads-no_place fuel i map_size needed f lt found nowhere) ∙ h),
      )
      | inr (j, at) ↦
          absurd (none≢some (sym h ∙ search_quads-found fuel i map_size needed f lt j found at))
    ]

search_quads_complete :
    (fuel i map_size needed : ℕ) (f : ℕ → ℕ) (x k : ℕ)
    → 0 < needed
    → needed ≤ per_quad
    → map_size ≤ i + fuel
    → i ≤ x
    → x < map_size
    → k + needed ≤ per_quad
    → search_quads fuel i map_size needed f ≡ none
    → is_free f (per_quad * x + k) needed ≡ false
search_quads_complete zero i map_size needed f x k pos le enough p q fit h = absurd (omega arith)
search_quads_complete (suc fuel) i map_size needed f x k pos le enough p q fit h =
    let (here, later) = search_quads-none fuel i map_size needed f pos le (ground arith) h in
    elim (ℕ_discrete i x) [
      | yes e ↦
          subst (λ y. is_free f (per_quad * y + k) needed ≡ false) e
            (place-none (per_quad - (needed - 1)) 0 needed i f k le (omega arith) (omega arith)
              here)
      | no ne ↦
          search_quads_complete fuel (i + 1) map_size needed f x k pos le (omega arith)
            (omega arith) q fit later
    ]

-- In a heap that is set up, `malloc` returns null for a request of at least a byte and at most a quadword only if no
-- quadword of the map has that many free entries in a row.
pub malloc_complete :
    (n_bytes : ℕ) (h : Heap) (x k : ℕ)
    → h.heap ≢ 0
    → 0 < n_bytes
    → n_bytes ≤ 4096
    → x < h.map_size
    → k + blocks n_bytes ≤ per_quad
    → (malloc n_bytes h).0 ≡ 0
    → is_free h.entry (per_quad * x + k) (blocks n_bytes) ≡ false
malloc_complete n_bytes h x k set_up pos le lt fit z =
    elim (Option-cases (search_quads h.map_size 0 h.map_size (blocks n_bytes) h.entry)) [
      | inl full ↦
          search_quads_complete h.map_size 0 h.map_size (blocks n_bytes) h.entry x k (ground arith)
            (ground arith) (omega arith) (omega arith) lt fit full
      | inr ((e, g), s) ↦ absurd (
          set_up (
            sum-zero h.heap (e * blk_sz)
              (sym (ap (λ r. r.0) (malloc-found n_bytes h e g (ground arith) s)) ∙ z)))
    ]
  where
    sum-zero : (a b : ℕ) → a + b ≡ 0 → a ≡ 0
    sum-zero a b e = omega arith
