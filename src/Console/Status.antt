-- ===== src/Console/Status.antt =====
-- The status bar of src/kernel/console.c, the last line of the screen.
use dar_os.Base.{
  ℕ, zero, suc, ◌+◌, ◌-◌, ◌*◌, ◌/◌, ◌%◌, ◌==◌, ltb, leb, if◌then◌else◌, write, Option, none, some,
  List, [], ◌∷◌, length,
}
use dar_os.Malloc.{Heap, heap_used}
use dar_os.Strings.Format.{num, str, sprintf}
use dar_os.Clock.{RtcTime}
use dar_os.Callbacks.{Callback, Callbacks, register_periodic_callback}
use dar_os.Console.Screen.{Console}

infixl 20 ◌>>=◌
abbrev pub ◌>>=◌ {ℓ κ} : {A : Type ℓ} {B : Type κ} → Option A → (A → Option B) → Option B
none >>= f = none
some a >>= f = f a

-- The first cell of the status line, which has 80.
abbrev pub status_line : ℕ
status_line = 24 * 80

-- A character into a cell, whose colour stays.
abbrev pub set_char : (c word : ℕ) → ℕ
set_char c word = word / 256 * 256 + c

-- `for (l = loc; *s && l < 160; s++, l++) STATUS_LINE[l*2] = *s`, on the bytes of `s` before its terminator.
unfoldable pub write_chars : List ℕ → (l : ℕ) → (ℕ → ℕ) → ℕ → ℕ
write_chars [] l vram = vram
write_chars (c ∷ s) l vram =
    let i = status_line + l in
    let rest = write_chars s (l + 1) (write vram i (set_char c (vram i))) in
    if ltb l 160 then rest else vram

unfoldable pub write_status_bar : (s : List ℕ) (loc : ℕ) → Console → Console
write_status_bar s loc c = if leb 80 loc then c else record c { vram = write_chars s loc c.vram }

-- "bytes" and "K".
abbrev in_bytes : List ℕ
in_bytes = b'b' ∷ b'y' ∷ b't' ∷ b'e' ∷ b's' ∷ []

abbrev in_k : List ℕ
in_k = b'K' ∷ []

-- "Heap used: %u %s".
abbrev heap_format : List ℕ
heap_format =
    b'H' ∷ b'e' ∷ b'a' ∷ b'p' ∷ b' ' ∷ b'u' ∷ b's' ∷ b'e' ∷ b'd' ∷ b':' ∷ b' ' ∷ b'%' ∷ b'u' ∷ b' '
    ∷ b'%' ∷ b's' ∷ []

-- "%%p %us", which gives the format "%p 24s".
abbrev width_format : List ℕ
width_format = b'%' ∷ b'%' ∷ b'p' ∷ b' ' ∷ b'%' ∷ b'u' ∷ b's' ∷ []

abbrev max_len : ℕ
max_len = 24

unfoldable pub cut : (n : ℕ) → List ℕ → List ℕ
cut zero s = []
cut (suc n) [] = []
cut (suc n) (c ∷ s) = c ∷ cut n s

-- The text of 24 characters that `updateHeapUse` writes; `junk` is what the formatter's padding character is at first.
unfoldable pub heap_text : (junk used : ℕ) → Option (List ℕ)
heap_text junk used = do
  let m = if leb 1024 used then used / 1024 else used
  s ← sprintf junk heap_format (num m ∷ str (if leb 1024 used then in_k else in_bytes) ∷ [])
  f ← sprintf junk width_format (num max_len ∷ [])
  if ltb (length s) max_len then sprintf junk f (str s ∷ []) else some (cut max_len s)

unfoldable pub update_heap_use : (junk : ℕ) → Heap → Console → Option Console
update_heap_use junk h c = do
  s ← heap_text junk (heap_used h)
  some (write_status_bar s (80 - length s) c)

-- "%p 2u:%p02u:%p02u.%p03u %s".
abbrev clock_format : List ℕ
clock_format =
    b'%' ∷ b'p' ∷ b' ' ∷ b'2' ∷ b'u' ∷ b':' ∷ b'%' ∷ b'p' ∷ b'0' ∷ b'2' ∷ b'u' ∷ b':' ∷ b'%' ∷ b'p'
    ∷ b'0' ∷ b'2' ∷ b'u' ∷ b'.' ∷ b'%' ∷ b'p' ∷ b'0' ∷ b'3' ∷ b'u' ∷ b' ' ∷ b'%' ∷ b's' ∷ []

-- The text that `updateClock` writes.
unfoldable pub clock_text : (junk : ℕ) → RtcTime → Option (List ℕ)
clock_text junk t =
    let hours = if t.hours % 12 == 0 then 12 else t.hours % 12 in
    let ampm = (if leb 12 t.hours then b'P' else b'A') ∷ b'M' ∷ [] in
    sprintf junk clock_format (num hours ∷ num t.minutes ∷ num t.seconds ∷ num t.ms ∷ str ampm ∷ [])

unfoldable pub update_clock : (junk : ℕ) → RtcTime → Console → Option Console
update_clock junk t c = do s ← clock_text junk t; some (write_status_bar s 0 c)

-- Blanks in the status bar's colour.
unfoldable pub clear_status : (n l : ℕ) → (ℕ → ℕ) → ℕ → ℕ
clear_status zero l vram = vram
clear_status (suc n) l vram = clear_status n (l + 1) (write vram (status_line + l) 0x5f00)

abbrev os_name : List ℕ
os_name = b'P' ∷ b'u' ∷ b'r' ∷ b'p' ∷ b'O' ∷ b'S' ∷ []

-- `setStatusBar`. The addresses of the two functions are arguments.
unfoldable pub set_status_bar :
    (junk : ℕ) (others : ℕ → Callback) (clock_f heap_f : ℕ)
    → Heap
    → Console × Callbacks
    → Option (Console × Callbacks)
set_status_bar junk others clock_f heap_f h (c, s) = do
  let blank : Console = record c { vram = clear_status 80 0 c.vram }
  c' ← update_heap_use junk h (write_status_bar os_name 37 blank)
  let clock : Callback = record { count = 60; period = 1; f = clock_f }
  let heap : Callback = record { count = 2; period = 1; f = heap_f }
  some (c', register_periodic_callback others heap (register_periodic_callback others clock s))
