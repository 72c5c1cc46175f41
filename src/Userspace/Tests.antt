-- ===== src/Userspace/Tests.antt =====
-- The programs of src/userspace at concrete inputs.
use dar_os.Base.{ℕ, ◌+◌, ◌<◌, ◌≤◌, ◌≡◌, ◌^◌, refl, some, [], ◌∷◌, ◌++◌, length, suc, arith}
use dar_os.Proc.Memory.{bytes_at}
use dar_os.Proc.Start.{physical, start_proc, map_proc_mem}
use dar_os.Proc.Wake.{got_line, with_line}
use dar_os.Proc.Lines.{HasRead, got_line-HasRead}
use dar_os.Proc.Tests.{kernel, line, found, placed}
use dar_os.LinkedList.{get_node, get_node_by_condition}
use dar_os.LinkedList.Walk.{list_item}
use dar_os.Proc.Table.{find_map, proc_by_pid, make_runnable}
use dar_os.Userspace.{take_line, fib_bound, fib_loop}
use dar_os.Userspace.Numbers.{after, fib_loop-after}
use dar_os.Userspace.Reading.{take_line-line}

-- From 1 and 1, where the program starts.
fib_loop-after_example :
    (n : ℕ) × (fib_loop fib_bound (1, 1) ≡ some (after n (1, 1)))
    × (fib_bound ≤ (after n (1, 1)).1)
    × ((after n (1, 1)).1 < 2 ^ 64)
fib_loop-after_example =
    fib_loop-after fib_bound (1, 1)
      (record { real = omega arith; least = omega arith; most = omega arith }) (omega arith)
      (omega arith) (omega arith)

read_line :
    let k' = got_line 1 line 13 kernel in
    HasRead line (kernel.proc 100) (start_proc (k'.proc 100) k')
read_line = got_line-HasRead 1 13 100 line kernel found (ground arith) (placed 2 (omega arith))

page : let k' = got_line 1 line 13 kernel in (start_proc (k'.proc 100) k').1.mapped ≡ 0x800087
unfolding got_line proc_by_pid find_map get_node_by_condition get_node list_item make_runnable
    with_line start_proc map_proc_mem
page = refl

heap_above :
    let k' = got_line 1 line 13 kernel in
    let r = start_proc (k'.proc 100) k' in
    physical r.1.mapped r.0.registers.rbx + length line ≤ 2 ^ 40
unfolding physical
heap_above =
    let k' = got_line 1 line 13 kernel in
    let r = start_proc (k'.proc 100) k' in omega (arith, page, read_line.below)

-- The shell at 100 gets "hi".
take_line-line_example :
    let k' = got_line 1 line 13 kernel in
    let r = start_proc (k'.proc 100) k' in
    let regs = r.0.registers in
    bytes_at
      (suc (length line))
      (2 ^ 40)
      (take_line regs.rax (physical r.1.mapped regs.rbx) (2 ^ 40) r.1.ram)
    ≡ line ++ (0 ∷ [])
take_line-line_example =
    let k' = got_line 1 line 13 kernel in
    take_line-line line (kernel.proc 100) (start_proc (k'.proc 100) k') (2 ^ 40) read_line
      heap_above
