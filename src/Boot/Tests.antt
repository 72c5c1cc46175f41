-- ===== src/Boot/Tests.antt =====
-- The choice of memory at a concrete table.
use dar_os.Base.{◌+◌, ◌%◌, ◌<◌, ◌≤◌, ◌≡◌, refl, some, none, List, [], ◌∷◌, arith}
use dar_os.Malloc.{heap_used, heap_size}
use dar_os.Boot.{Region, clip, choose, low, stack_size, kernel_stack_top, kernel_heap}
use dar_os.Boot.Choice.{Ends, Chosen, choose-Chosen}
use dar_os.Boot.Stack.{kernel_heap-placed}

abbrev table : List Region
table =
    record { start = 0; length = 0x9FC00; type = 1 }
    ∷ record { start = 0x9FC00; length = 0x400; type = 2 }
    ∷ record { start = 0x100000; length = 0x1FEF0000; type = 1 }
    ∷ record { start = 0x1FFF0000; length = 0x10000; type = 3 }
    ∷ []

abbrev chosen : Region
chosen = record { start = 0x300000; length = 0x1FCF0000; type = 1 }

table-Ends : Ends table
unfolding Ends
table-Ends = (omega arith, (omega arith, (omega arith, (omega arith, tt))))

choose-Chosen_example : Chosen table (choose table 0 none)
choose-Chosen_example = choose-Chosen table table-Ends

table-chosen : choose table 0 none ≡ some chosen
unfolding choose clip
table-chosen = refl

kernel_heap-placed_example :
    let top = kernel_stack_top chosen in
    let h = kernel_heap (λ _. 0) chosen in
    (low + stack_size < top + 16)
    × (chosen.start + stack_size < top + 16)
    × (top ≤ chosen.start + stack_size)
    × (top % 16 ≡ 0)
    × (top ≤ h.heap)
    × (h.heap % 4096 ≡ 0)
    × (h.heap + heap_size h ≤ chosen.start + chosen.length + 4095)
    × (heap_used h ≡ 0)
kernel_heap-placed_example =
    kernel_heap-placed (λ _. 0) table chosen table-Ends table-chosen (omega arith)
