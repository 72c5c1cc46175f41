-- ===== src/Malloc/Palloc.antt =====
-- `palloc` of src/lib/malloc.c, which takes an aligned page of 2 MB from the end of the heap, and what
-- `free` makes of such a page.
use dar_os.Base.{
  ℕ, zero, suc, ◌+◌, ◌-◌, ◌*◌, ◌/◌, ◌%◌, ◌^◌, ◌≤◌, ◌<◌, ◌≡◌, ◌≢◌, ap, fun_ext, ◌∙◌, false, some,
  ◌&&◌, arith, ◌==◌, ltb, leb, sub64, if◌then◌else◌, Bool-cases, inl, inr,
}
use dar_os.Malloc.{
  Heap, blk_sz, per_quad, qblk_sz, bpart, bend, is_free, free_from, is_outside, free,
}
use dar_os.Malloc.Runs.{with_block, FreeRun, is_free-FreeRun}
use dar_os.Malloc.Free.{free_from-with_block, free-found}

abbrev pub l2_page_sz : ℕ
l2_page_sz = 2 * 1024 * 1024

-- The quadwords of a page.
abbrev pub page_quads : ℕ
page_quads = 512

-- What `palloc` comes to: a page at a pointer, no page, or an index that has wrapped below 0, from
-- which the source reads memory far outside the map.
pub data Paged : Type 0 where
  page : (p : ℕ) → Heap → Paged
  no_page : Paged
  wild : Paged

-- `map[i + j] = -1` for the quadwords of the page, and then `map[i + 511] -= 1`, which clears the low
-- bit of the quadword and so of its first entry.
unfoldable pub mark_page : (ℕ → ℕ) → ℕ → ℕ → ℕ
mark_page f i e =
    if leb (per_quad * i) e && ltb e (per_quad * (i + page_quads))
    then (if e == per_quad * (i + 511) then bend else bpart)
    else f e

-- The loop over `i`, which bounds its rounds by what is left to 0.
unfoldable pub palloc_loop : (fuel i : ℕ) → Heap → Paged
palloc_loop zero i h = wild
palloc_loop (suc fuel) i h =
    let next = palloc_loop fuel (i - page_quads) h in
    if i == 0
    then no_page
    else if is_free h.entry (per_quad * i) (per_quad * page_quads)
    then page (h.heap + i * qblk_sz) (record h { entry = mark_page h.entry i })
    else if ltb i page_quads
    then wild
    else next

abbrev pub first_page : Heap → ℕ
first_page h =
    sub64 (sub64 ((h.heap + h.map_size * qblk_sz) / l2_page_sz * l2_page_sz) l2_page_sz) h.heap
    / qblk_sz

unfoldable pub palloc : Heap → Paged
palloc h =
    if h.heap == 0 then no_page else palloc_loop (first_page h / page_quads + 1) (first_page h) h

-- A page that was found begins at quadword `i`: all of it was free, it is aligned, and it ends within
-- the heap.
pub record IsPage (h : Heap) (i : ℕ) (p : ℕ) (k : Heap) : Type 0 where
  pub pointer : p ≡ h.heap + i * qblk_sz
  pub marked : k ≡ record h { entry = mark_page h.entry i }
  pub was_free : FreeRun h.entry (per_quad * i) (per_quad * page_quads)
  pub aligned : p % l2_page_sz ≡ 0
  pub within : i + page_quads ≤ h.map_size

page-injective : {p q : ℕ} {h k : Heap} → page p h ≡ page q k → (p ≡ q) × (h ≡ k)
page-injective e = (cc, cc)

palloc_loop-IsPage :
    (fuel i : ℕ) (h : Heap) (p : ℕ) (k : Heap)
    → (h.heap + i * qblk_sz) % l2_page_sz ≡ 0
    → i + page_quads ≤ h.map_size
    → palloc_loop fuel i h ≡ page p k
    → (j : ℕ) × IsPage h j p k
unfolding palloc_loop
palloc_loop-IsPage zero i h p k al le e = cc
palloc_loop-IsPage (suc fuel) i h p k al le e =
    elim (Bool-cases (is_free h.entry (per_quad * i) (per_quad * page_quads))) [
      | inl free ↦ (
        i,
        record {
          pointer = ground arith;
          marked = ground arith;
          was_free = is_free-FreeRun h.entry (per_quad * i) (per_quad * page_quads) free;
          aligned = ground arith;
          within = le;
        },
      )
      | inr used ↦
          palloc_loop-IsPage fuel (i - page_quads) h p k (ground arith) (omega arith) (ground arith)
    ]

module _ (h : Heap) (al : h.heap % 4096 ≡ 0) (big : 1024 ≤ h.map_size) where
  module _ (small : h.heap + h.map_size * qblk_sz < 2 ^ 64) where
    first_page-aligned : (h.heap + first_page h * qblk_sz) % l2_page_sz ≡ 0
    first_page-aligned = omega arith

    first_page-within : first_page h + page_quads ≤ h.map_size
    first_page-within = omega arith

    -- In a heap that begins at a multiple of 4096, as the kernel's does, is of 4 MB or more and ends
    -- below 2 ^ 64, a page from `palloc` is one of 2 MB, aligned, that was free and lies within the
    -- heap.
    pub palloc-IsPage : (p : ℕ) (k : Heap) → palloc h ≡ page p k → (j : ℕ) × IsPage h j p k
    unfolding palloc
    palloc-IsPage p k e =
        palloc_loop-IsPage (first_page h / page_quads + 1) (first_page h) h p k first_page-aligned
          first_page-within (ground arith)

-- The map after such a page has been freed: the last 31 entries of the page are still in use.
unfoldable pub leaked : (ℕ → ℕ) → ℕ → ℕ → ℕ
leaked f i e =
    if leb (per_quad * (i + 511) + 1) e && ltb e (per_quad * (i + page_quads)) then bpart else f e

mark_page-with_block :
    (f : ℕ → ℕ) (i e : ℕ)
    → mark_page f i e ≡ with_block (leaked f i) (per_quad * i) (suc (per_quad * 511)) e
unfolding mark_page with_block leaked
mark_page-with_block f i e = ground arith

leaked-FreeRun :
    (f : ℕ → ℕ) (i : ℕ)
    → FreeRun f (per_quad * i) (per_quad * page_quads)
    → FreeRun (leaked f i) (per_quad * i) (suc (per_quad * 511))
unfolding leaked
leaked-FreeRun f i run j p q = ground (arith, run j)

module _ {h : Heap} {i p : ℕ} {k : Heap} (pg : IsPage h i p k) (set_up : h.heap ≢ 0) where
  free_from-page :
      free_from (per_quad * h.map_size + 1) (per_quad * i) (mark_page h.entry i)
      ≡ some (leaked h.entry i)
  free_from-page =
      ap (free_from (per_quad * h.map_size + 1) (per_quad * i))
        (fun_ext (mark_page-with_block h.entry i))
      ∙ free_from-with_block (per_quad * 511) (per_quad * h.map_size + 1) (per_quad * i)
          (leaked h.entry i) (leaked-FreeRun h.entry i pg.was_free) (omega (arith, pg.within))

  page-inside : is_outside p (record h { entry = mark_page h.entry i }) ≡ false
  unfolding is_outside
  page-inside = ground (arith, pg.pointer, pg.within)

  page-entry : (p - h.heap) / blk_sz ≡ per_quad * i
  page-entry = omega (arith, pg.pointer)

  -- Freeing a page does not give all of it back: its last 31 blocks stay in use.
  pub free-page : free p k ≡ some (record h { entry = leaked h.entry i })
  free-page =
      ap (free p) pg.marked
      ∙ free-found p (record h { entry = mark_page h.entry i }) (leaked h.entry i) page-inside
          (ap (λ e. free_from (per_quad * h.map_size + 1) e (mark_page h.entry i)) page-entry
            ∙ free_from-page)

module _ (h : Heap) (al : h.heap % 4096 ≡ 0) (big : 1024 ≤ h.map_size) where
  module _ (small : h.heap + h.map_size * qblk_sz < 2 ^ 64) where
    palloc-set_up : (p : ℕ) (k : Heap) → palloc h ≡ page p k → h.heap ≢ 0
    unfolding palloc
    palloc-set_up p k e = ground arith

    -- In a heap that begins at a multiple of 4096, is of 4 MB or more and ends below 2 ^ 64, freeing a
    -- page as soon as `palloc` has returned it leaves 31 of its blocks in use, the last ones of its last
    -- quadword: the map differs from the one before `palloc` in just those.
    pub free-palloc :
        (p : ℕ) (k : Heap)
        → palloc h ≡ page p k
        → (j : ℕ) × (p ≡ h.heap + j * qblk_sz)
          × FreeRun h.entry (per_quad * j) (per_quad * page_quads)
          × (free p k ≡ some (record h { entry = leaked h.entry j }))
    free-palloc p k e =
        let (j, pg) = palloc-IsPage h al big small p k e in
        (j, pg.pointer, pg.was_free, free-page pg (palloc-set_up p k e))
