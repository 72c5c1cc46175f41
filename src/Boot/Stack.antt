-- ===== src/Boot/Stack.antt =====
-- Where `kernel_entry` of src/kernel/kernel_entry.c puts the stack and the heap in the memory that it chooses.
use dar_os.Base.{
  ℕ, ◌+◌, ◌%◌, ◌^◌, ◌<◌, ◌≤◌, ◌≡◌, inl, inr, subst, true, none, some, sub64, List, [], ◌∷◌, arith,
}
use dar_os.Malloc.{heap_used, heap_size}
use dar_os.Malloc.Init.{init_heap-fits}
use dar_os.Boot.{Region, choose, low, stack_size, kernel_stack_top, kernel_heap}
use dar_os.Boot.Choice.{Ends, Among, Chosen, choose-Chosen}

Among-high : (r : Region) (table : List Region) → Among r table → low ≤ r.start
unfolding Among
Among-high r [] a = absurd a
Among-high r (q ∷ qs) (inl e) = e.high
Among-high r (q ∷ qs) (inr a) = Among-high r qs a

Among-Ends :
    (r : Region) (table : List Region) → Ends table → Among r table → r.start + r.length < 2 ^ 64
unfolding Among Ends
Among-Ends r [] ends a = absurd a
Among-Ends r (q ∷ qs) (lt, ends) (inl e) = omega (arith, e.ends)
Among-Ends r (q ∷ qs) (lt, ends) (inr a) = Among-Ends r qs ends a

-- The stack and the heap are in the chosen region, behind the low memory, if it has at least 64 KB: the stack's top is a
-- multiple of 16 less than 16 bytes below the end of those, the empty heap lies behind it, at a multiple of 4096, and
-- may end up to 4095 bytes behind the region.
pub kernel_heap-placed :
    (junk : ℕ → ℕ) (table : List Region) (r : Region)
    → Ends table
    → choose table 0 none ≡ some r
    → stack_size ≤ r.length
    → let top = kernel_stack_top r in
      let h = kernel_heap junk r in
      (low + stack_size < top + 16)
      × (r.start + stack_size < top + 16)
      × (top ≤ r.start + stack_size)
      × (top % 16 ≡ 0)
      × (top ≤ h.heap)
      × (h.heap % 4096 ≡ 0)
      × (h.heap + heap_size h ≤ r.start + r.length + 4095)
      × (heap_used h ≡ 0)
unfolding Chosen kernel_stack_top kernel_heap
kernel_heap-placed junk table r ends e big =
    let chosen : Chosen table (some r) = subst (Chosen table) e (choose-Chosen table ends) in
    let high = Among-high r table chosen.0 in
    let within = Among-Ends r table ends chosen.0 in
    let top = kernel_stack_top r in
    let (used, free, map, aligned, end) =
      init_heap-fits true junk top (sub64 r.length stack_size) in
    (
      omega arith,
      omega arith,
      omega arith,
      omega arith,
      omega (arith, map),
      aligned,
      omega (arith, end),
      used,
    )
