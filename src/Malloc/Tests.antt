-- ===== src/Malloc/Tests.antt =====
-- Runs of src/lib/malloc.c, and the theorems about it at concrete heaps.
use dar_os.Base.{
  ℕ, ◌+◌, ◌*◌, ◌<◌, ◌≡◌, ◌≢◌, refl, true, false, some, inl, [], ◌∷◌, arith, ltb, if◌then◌else◌,
  nth_or,
}
use dar_os.Malloc.{
  Heap, init_heap, heap_used, heap_size, is_free, whole_quads, place, set_mask, fill_quads,
  search_quads, malloc, free,
}
use dar_os.Malloc.Runs.{with_block, FreeRun, FreeRun-is_free}
use dar_os.Malloc.Free.{Granted, malloc-Granted, free-malloc}
use dar_os.Malloc.Used.{heap_used-malloc, malloc_complete}
use dar_os.Malloc.Palloc.{
  page, palloc, palloc_loop, IsPage, mark_page, leaked, palloc-IsPage, free-palloc, first_page,
}
use dar_os.Malloc.Realloc.{realloc}
use dar_os.Malloc.Shrink.{realloc-shrink}
use dar_os.Malloc.Init.{init_heap-overrun}
use dar_os.Malloc.Overrun.{malloc-overrun}

-- Two quadwords of map, the first three entries of which are a block.
abbrev small : Heap
small = record { entry = nth_or (3 ∷ 3 ∷ 2 ∷ []) 0; map_size = 2; heap = 0x1000 }

abbrev clear_heap : Heap
clear_heap = record { entry = λ _. 0; map_size = 2; heap = 0x1000 }

-- A heap of 4 MB that is in use up to the end of its second quadword.
abbrev large : Heap
large = record { entry = λ e. if ltb e 64 then 3 else 0; map_size = 1024; heap = 0x400000 }

malloc-small : (malloc 300 small).0 ≡ 0x1000 + 3 * 128
unfolding malloc search_quads whole_quads place is_free
malloc-small = refl

malloc-small_entries : (malloc 300 small).1.entry 5 ≡ 2
unfolding malloc search_quads whole_quads place is_free set_mask fill_quads
malloc-small_entries = refl

malloc_ne : (malloc 300 small).0 ≢ 0
unfolding malloc search_quads whole_quads place is_free
malloc_ne e = absurd (omega arith)

malloc-Granted_example : (e : ℕ) × Granted 300 small e (malloc 300 small)
malloc-Granted_example = malloc-Granted 300 small malloc_ne

free-malloc_example : free (malloc 300 small).0 (malloc 300 small).1 ≡ some small
free-malloc_example = free-malloc 300 small malloc_ne (inl (omega arith))

heap_used-malloc_example : heap_used (malloc 300 small).1 ≡ heap_used small + 3 * 128
heap_used-malloc_example = heap_used-malloc 300 small malloc_ne (inl (omega arith))

-- A heap with a free entry between any two.
abbrev holes : Heap
holes = record { entry = nth_or (2 ∷ 0 ∷ 2 ∷ []) 2; map_size = 2; heap = 0x1000 }

malloc_complete_example : is_free holes.entry (32 * 0 + 0) 2 ≡ false
unfolding malloc search_quads whole_quads place is_free
malloc_complete_example =
    malloc_complete 200 holes 0 0 (omega arith) (omega arith) (omega arith) (omega arith)
      (omega arith) refl

realloc-shrink_example :
    (e : ℕ) × ((malloc 300 small).0 ≡ 0x1000 + e * 128)
    × (realloc (malloc 300 small).0 200 (malloc 300 small).1 (λ _. 7)
        ≡ some ((malloc 300 small).0, record small { entry = with_block small.entry e 2 }, λ _. 7))
realloc-shrink_example =
    realloc-shrink 300 200 small (λ _. 7) malloc_ne (inl (omega arith)) (omega arith) (omega arith)

init_heap-overrun_example :
    let h = init_heap true (λ _. 1) 0x300000 (4104 * 100) in
    0x300000 + 4104 * 100 < h.heap + heap_size h
init_heap-overrun_example = init_heap-overrun (λ _. 1) 0x300000 100 refl (omega arith)

malloc-overrun_example :
    let (p, k) = malloc (heap_size clear_heap + 1) clear_heap in
    (p ≡ 0x1000) × (k.entry (32 * 2) ≡ 2)
malloc-overrun_example = malloc-overrun clear_heap (omega arith) (omega arith) (λ j p q. refl)

first_page-large : first_page large ≡ 512
first_page-large = refl

palloc-large :
    palloc large ≡ page (0x400000 + 512 * 4096) (record large { entry = mark_page large.entry 512 })
unfolding palloc palloc_loop
palloc-large = rw (FreeRun-is_free large.entry (32 * 512) (32 * 512) (λ j p q. ground arith))

palloc-IsPage_example :
    (j : ℕ) × IsPage large j
      (0x400000 + 512 * 4096)
      (record large { entry = mark_page large.entry 512 })
palloc-IsPage_example =
    palloc-IsPage large refl (omega arith) (omega arith) (0x400000 + 512 * 4096)
      (record large { entry = mark_page large.entry 512 }) palloc-large

free-palloc_example :
    (j : ℕ) × (0x400000 + 512 * 4096 ≡ 0x400000 + j * 4096)
    × FreeRun large.entry (32 * j) (32 * 512)
    × (free (0x400000 + 512 * 4096) (record large { entry = mark_page large.entry 512 })
        ≡ some (record large { entry = leaked large.entry j }))
free-palloc_example =
    free-palloc large refl (omega arith) (omega arith) (0x400000 + 512 * 4096)
      (record large { entry = mark_page large.entry 512 }) palloc-large
