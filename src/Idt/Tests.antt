-- ===== src/Idt/Tests.antt =====
-- The table of `init_interrupts` of src/kernel/interrupt.c at the vector of the system calls.
use dar_os.Base.{ℕ, ◌+◌, ◌*◌, ◌%◌, ◌<◌, ◌^◌, arith}
use dar_os.Idt.Table.{
  Handler, default_pic_p, default_pic_s, default_interrupt, irq0, irq1_kbd, irq8_rtc, trap, etrap,
  divide_by_zero, double_fault, page_fault, int0x80, init_table,
}
use dar_os.Idt.Last.{handler_of}
use dar_os.Idt.Vectors.{Gate, init_table-Gate}

abbrev cleared : ℕ → ℕ
cleared k = 0

abbrev address : Handler → ℕ
address default_pic_p = 0x200000
address default_pic_s = 0x200010
address default_interrupt = 0x200020
address irq0 = 0x200030
address irq1_kbd = 0x200040
address irq8_rtc = 0x200050
address (trap n) = 0x201000 + 16 * (n % 32)
address (etrap n) = 0x202000 + 16 * (n % 32)
address divide_by_zero = 0x200060
address double_fault = 0x200070
address page_fault = 0x200080
address int0x80 = 0x200090

small_address : (h : Handler) → address h < 2 ^ 64
small_address default_pic_p = omega arith
small_address default_pic_s = omega arith
small_address default_interrupt = omega arith
small_address irq0 = omega arith
small_address irq1_kbd = omega arith
small_address irq8_rtc = omega arith
small_address (trap n) = omega arith
small_address (etrap n) = omega arith
small_address divide_by_zero = omega arith
small_address double_fault = omega arith
small_address page_fault = omega arith
small_address int0x80 = omega arith

init_table-Gate_example : Gate address (init_table address cleared) 0x80 (handler_of 0x80)
init_table-Gate_example = init_table-Gate address small_address cleared 0x80 (omega arith)
