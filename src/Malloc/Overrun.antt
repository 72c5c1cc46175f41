-- ===== src/Malloc/Overrun.antt =====
-- A request to `malloc` of src/lib/malloc.c for more than the heap holds.
use dar_os.Base.{
  ℕ, zero, suc, ◌+◌, ◌-◌, ◌*◌, ◌<◌, ◌≡◌, ◌≢◌, ap, ap₂, ◌∙◌, true, false, Option, some, arith, ◌==◌,
  leb, if◌then◌else◌,
}
use dar_os.Malloc.{
  Heap, per_quad, qblk_sz, bfree, bend, heap_size, malloc, is_free, whole_quads, place,
  search_quads, fill_quads, set_mask,
}
use dar_os.Malloc.Runs.{with_block, FreeRun, FreeRun-is_free, fill_quads_lem, set_mask_lem}
use dar_os.Malloc.Fit.{whole_of, need_of, place_at, search_quads-found}
use dar_os.Malloc.Free.{malloc-found}

whole_quads-free :
    (n i : ℕ) (f : ℕ → ℕ)
    → FreeRun f (per_quad * i) (per_quad * n)
    → whole_quads n i f ≡ (true, i + n)
unfolding whole_quads
whole_quads-free zero i f run = ap (λ k. (true, k)) (omega arith)
whole_quads-free (suc n) i f run =
    rw (FreeRun-is_free f (per_quad * i) per_quad (λ j p q. run j p (omega arith))) (
      whole_quads-free n (i + 1) f (λ j p q. run j (omega arith) (omega arith))
      ∙ ap (λ k. (true, k)) (omega arith))

place-one :
    (n needed i : ℕ) (f : ℕ → ℕ)
    → f (per_quad * i + 0) ≡ bfree
    → place (suc n) 0 needed 1 i f ≡ some 0
unfolding place is_free
place-one n needed i f z = rw z

-- The blocks of a request for one block more than the heap holds.
abbrev over : ℕ → ℕ
over m = per_quad * m + 1

module _ (m : ℕ) (f : ℕ → ℕ) (pos : 0 < m) (run : FreeRun f 0 (over m)) where
  whole-over : whole_of (over m) ≡ m
  whole-over = omega arith

  need-over : need_of (over m) ≡ 1
  need-over = omega arith

  quads-over : whole_quads (whole_of (over m)) 0 f ≡ (true, m)
  quads-over =
      ap (λ w. whole_quads w 0 f) whole-over
      ∙ whole_quads-free m 0 f (λ j p q. run j (omega arith) (omega arith))
      ∙ ap (λ k. (true, k)) (omega arith)

  place-over : (lt : leb m 0 ≡ false) → place_at zero 0 m (over m) f lt ≡ some 0
  place-over lt =
      ap₂ (λ n k. place (per_quad - (n - 1)) 0 (over m) n k f) need-over (ap (λ q. q.1) quads-over)
      ∙ place-one 31 (over m) m f (run (per_quad * m + 0) (omega arith) (omega arith))

  abbrev shape : (w k n : ℕ) → Option (ℕ × (ℕ → ℕ))
  shape w k n =
      some
        (if w == 0 then per_quad * k + 0 else per_quad * (k - w), fill_quads w k (set_mask k 0 n f))

  shape-over : shape m m 1 ≡ some (0, fill_quads m m (set_mask m 0 1 f))
  shape-over = ground arith

  search_quads-over :
      (fuel : ℕ)
      → search_quads (suc fuel) 0 m (over m) f ≡ some (0, fill_quads m m (set_mask m 0 1 f))
  search_quads-over fuel =
      search_quads-found fuel 0 m (over m) f (ground arith) 0 (ap (λ q. q.0) quads-over)
        (place-over (ground arith))
      ∙ ap (λ w. shape w stop_at (need_of (over m))) whole-over
      ∙ ap₂ (shape m) (ap (λ q. q.1) quads-over) need-over
      ∙ shape-over
    where
      stop_at : ℕ
      stop_at = (whole_quads (whole_of (over m)) 0 f).1

  end-over : fill_quads m m (set_mask m 0 1 f) (per_quad * m) ≡ bend
  unfolding with_block
  end-over = ground (
    arith,
    fill_quads_lem m m (set_mask m 0 1 f) (per_quad * m) (omega arith),
    set_mask_lem m 0 1 f (per_quad * m) (λ j p q. run j (omega arith) (omega arith)),
  )

-- A request for one block more than the heap holds is granted, where the heap is set up and not empty, the whole map is clear and the
-- memory behind it reads as one more free entry: `malloc` returns the start of the heap, and stores the
-- block's end in that memory, behind the map.
pub malloc-overrun :
    (h : Heap)
    → h.heap ≢ 0
    → 0 < h.map_size
    → FreeRun h.entry 0 (per_quad * h.map_size + 1)
    → let (p, k) = malloc (heap_size h + 1) h in
      (p ≡ h.heap) × (k.entry (per_quad * h.map_size) ≡ bend)
unfolding heap_size
malloc-overrun h set_up pos run =
    let s = search_quads-over h.map_size h.entry pos run (h.map_size - 1) in
    let e =
      malloc-found (h.map_size * qblk_sz + 1) h 0 _ (ground arith)
        (ap₂ (λ n b. search_quads n 0 h.map_size b h.entry) (omega arith) (ground arith) ∙ s) in
    (
      ap (λ r. r.0) e ∙ omega arith,
      ap (λ r. r.1.entry (per_quad * h.map_size)) e ∙ end-over h.map_size h.entry pos run,
    )
