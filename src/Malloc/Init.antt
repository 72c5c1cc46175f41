-- ===== src/Malloc/Init.antt =====
-- What `init_heap` of src/lib/malloc.c sets up, against the region that it is given.
use dar_os.Base.{
  ℕ, zero, suc, ◌+◌, ◌*◌, ◌/◌, ◌%◌, ◌≤◌, ◌<◌, ◌≡◌, ◌≢◌, refl, ap, Bool, true, arith, ltb,
  if◌then◌else◌,
}
use dar_os.Malloc.{blk_sz, per_quad, qblk_sz, bfree, init_heap, count_used, heap_used, heap_size}
use dar_os.Malloc.Runs.{FreeRun}

count_used-free : (n e : ℕ) (f : ℕ → ℕ) → FreeRun f e n → count_used n e f ≡ 0
unfolding count_used
count_used-free zero e f run = refl
count_used-free (suc n) e f run =
    ground (arith, run e, count_used-free n (e + 1) f (λ j p q. run j (omega arith) (omega arith)))

-- `init_heap` leaves a heap of which nothing is in use and whose map is clear. The map and the heap lie
-- within the memory given, in a user process; in the kernel the heap begins at a multiple of 4096, and
-- may end up to 4095 bytes behind that memory.
pub init_heap-fits :
    (kernel : Bool) (junk : ℕ → ℕ) (start size : ℕ)
    → let h = init_heap kernel junk start size in
      (heap_used h ≡ 0)
      × FreeRun h.entry 0 (per_quad * h.map_size)
      × (start + 8 * h.map_size ≤ h.heap)
      × (h.heap % (if kernel then 4096 else 1) ≡ 0)
      × (h.heap + heap_size h ≤ start + size + (if kernel then 4095 else 0))
unfolding heap_used heap_size init_heap
init_heap-fits kernel junk start size = (
  ap (λ c. c * blk_sz) (count_used-free _ 0 _ (λ j p q. cleared j q)),
  λ j p q. cleared j q,
  ground arith,
  ground arith,
  ground arith,
)
  where
    cleared :
        (j : ℕ)
        → j < 0 + per_quad * (size / (qblk_sz / 8 + 1) / 8)
        → (if ltb j (per_quad * (size / (qblk_sz / 8 + 1) / 8)) then 0 else junk j) ≡ bfree
    cleared j lt = ground arith

-- In the kernel, memory that begins at a multiple of 4096 and is of as many times 4104 bytes as the map
-- has quadwords is overrun by the heap, if the map does not end at a multiple of 4096 too.
pub init_heap-overrun :
    (junk : ℕ → ℕ) (start m : ℕ)
    → start % 4096 ≡ 0
    → m % 512 ≢ 0
    → let h = init_heap true junk start (4104 * m) in start + 4104 * m < h.heap + heap_size h
unfolding heap_size init_heap
init_heap-overrun junk start m al odd = ground arith
