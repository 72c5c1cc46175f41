-- ===== src/Boot.antt =====
-- The memory that `kernel_entry` of src/kernel/kernel_entry.c chooses for the kernel's stack and heap.
pub mod Choice
pub mod Stack
mod Tests
use dar_os.Base.{
  ℕ, zero, suc, ◌+◌, ◌-◌, ◌*◌, ◌/◌, ◌%◌, ◌^◌, ◌==◌, ltb, Bool, true, false, if◌then◌else◌, Option,
  none, some, add64, sub64, List, [], ◌∷◌,
}
use dar_os.Malloc.{Heap, init_heap}

-- `struct mem_table_entry`: a region that the firmware reports; type 1 is free memory.
pub record Region : Type 0 where
  pub start : ℕ
  pub length : ℕ
  pub type : ℕ

-- Memory below 0x300000 holds the page tables and the kernel.
abbrev pub low : ℕ
low = 0x300000

abbrev pub stack_size : ℕ
stack_size = 64 * 1024

-- An entry as the loop leaves it: a free region without what it has of the low memory, and one that ends there of type 2.
unfoldable pub clip : Region → Region
clip r =
    if r.type == 1
    then if ltb r.start low
      then if ltb (add64 r.start r.length) low
        then record r { type = 2 }
        else record r { length = sub64 r.length (low - r.start); start = low }
      else r
    else r

-- The loop: the longest free region so far, and its length, which is 0 as long as there is none; of those as long the
-- first. Where there is none, the source goes on with an index that it has not set.
unfoldable pub choose : (table : List Region) (largest : ℕ) (best : Option Region) → Option Region
choose [] largest best = best
choose (r ∷ rs) largest best =
    let r' = clip r in
    let better = choose rs r'.length (some r') in
    let same = choose rs largest best in
    if r'.type == 1 then if ltb largest r'.length then better else same else same

-- `(start + STACK_SIZE) & ~0b1111`.
unfoldable pub kernel_stack_top : Region → ℕ
kernel_stack_top r = add64 r.start stack_size / 16 * 16

-- The heap, in the memory behind the stack; what the memory holds at first is `junk`.
unfoldable pub kernel_heap : (junk : ℕ → ℕ) → Region → Heap
kernel_heap junk r = init_heap true junk (kernel_stack_top r) (sub64 r.length stack_size)
