-- ===== src/Keyboard/Tests.antt =====
-- Runs of src/kernel/keyboard.c, and the theorems about it at concrete bytes.
use dar_os.Base.{
  ℕ, ◌≤◌, length, ◌≡◌, refl, sym, ap, Bool, true, false, some, List, [], ◌∷◌, ◌==◌, if◌then◌else◌,
  arith,
}
use dar_os.Console.Screen.{current}
use dar_os.Console.Line.{insert}
use dar_os.Console.Handler.{Holds}
use dar_os.Console.Tests.{cell, console, before, term-Holds}
use dar_os.Keyboard.Layout.{find_key}
use dar_os.Queue.{init, push, pop, store, is_full, inc}
use dar_os.Queue.Fifo.{contents, count, span}
use dar_os.Keyboard.Work.{
  Pending, Event, scanned, due, work, handle_all, irq1_kbd, process_keys, run, step,
}
use dar_os.Keyboard.Matched.{codes_of, rounds, total, keys_in, Matched, Others, Other}
use dar_os.Keyboard.Delivery.{handle_all-scanned}
use dar_os.Keyboard.Scan.{
  Kbd, Act, call, key_scanned, scan_main, scan_extended, scan_all, broadcast, all_listeners, shown,
}
use dar_os.Keyboard.Modifiers.{
  held, genuine, odd_count, shift_press, shift_release, scan_all-modifiers,
}
use dar_os.Keyboard.Typeable.{code_of, shift_of, find_char, pick}
use dar_os.Keyboard.Untypeable.{is_typed, scan_all-missing}
use dar_os.Keyboard.Typing.{deliver, key_scanned-insert}

abbrev kbd : Bool → Kbd
kbd shift = record {
  shift_down = shift;
  ctrl_down = false;
  alt_down = false;
  caps_lock_on = false;
  last_e0 = false;
  listeners = some (1 ∷ []);
}

-- Shift down, A, the up arrow with its faked shifts, shift up, A.
abbrev bytes : List ℕ
bytes = 0x2a ∷ 0x1e ∷ 0xe0 ∷ 0xaa ∷ 0xe0 ∷ 0x48 ∷ 0x1e ∷ 0xaa ∷ 0x1e ∷ []

abbrev pressed : ℕ → Bool → Act
pressed key shift = call 1 (record { key = key; alt = false; ctrl = false; shift = shift })

scan_all-bytes :
    (scan_all bytes (kbd false)).1
    ≡ pressed b'A' true ∷ pressed 23 true ∷ pressed b'A' true ∷ pressed b'a' false ∷ []
unfolding scan_all key_scanned scan_main scan_extended find_key broadcast all_listeners shown
scan_all-bytes = refl

scan_all-modifiers_example :
    let k = (scan_all bytes (kbd false)).0 in
    (k.shift_down ≡ held shift_press shift_release false (genuine false bytes))
    × (k.ctrl_down ≡ held (λ c. c == 0x1d) (λ c. c == 0x9d) false bytes)
    × (k.alt_down ≡ held (λ c. c == 0x38) (λ c. c == 0xb8) false bytes)
    × (k.caps_lock_on ≡ (if odd_count 0x3a bytes then true else false))
scan_all-modifiers_example = scan_all-modifiers bytes (kbd false)

shift_of-Q : shift_of b'Q' ≡ true
unfolding shift_of find_char pick
shift_of-Q = refl

scan_all-missing_example : is_typed 92 (scan_all (0x2b ∷ 0xe0 ∷ 0x2b ∷ []) (kbd false)).1 ≡ false
scan_all-missing_example = scan_all-missing 92 (0x2b ∷ 0xe0 ∷ 0x2b ∷ []) (kbd false) refl

key_scanned-insert_example :
    Holds
      (current (deliver 1 (key_scanned (code_of b'Q') (kbd true)).1 console))
      (insert (cell b'Q') before)
key_scanned-insert_example =
    key_scanned-insert b'Q' 1 (kbd true) console (omega arith) (omega arith) refl
      (ap kbd (sym shift_of-Q)) (omega arith) refl term-Holds

abbrev junk : ℕ → ℕ
junk i = 0

-- Nothing waits.
abbrev pending : Pending
pending = record {
  wq = init junk 100;
  kbd_buf = init junk 100;
  kbd = kbd false;
  acts = [];
  ran = [];
}

-- A is pressed, the clock is due, one piece of work is done, and A is released.
abbrev events : List Event
events = scanned 0x1e ∷ due 500 ∷ work ∷ scanned 0x9e ∷ []

pending-Matched : Matched 300 4 pending
unfolding count contents span keys_in init
pending-Matched = record {
  wq = record { head_in = omega arith; tail_in = omega arith; room = omega arith };
  kbd_buf = record { head_in = omega arith; tail_in = omega arith; room = omega arith };
  wq_room = omega arith;
  buf_room = omega arith;
  same = refl;
}

events-Others : Others 300 events
unfolding Others Other
events-Others = (tt, (ground arith, (tt, (tt, tt))))

two_left : length (contents (handle_all 300 junk events pending).wq) ≤ 2
unfolding handle_all step irq1_kbd run process_keys push pop store is_full inc init contents count
    span key_scanned scan_main find_key
two_left = omega arith

handle_all-scanned_example :
    let s' = handle_all 300 junk (rounds 2) (handle_all 300 junk events pending) in
    (s'.kbd, s'.acts) ≡ total pending (codes_of events)
handle_all-scanned_example =
    handle_all-scanned 300 junk (ground arith) events pending 2 events-Others pending-Matched
      two_left
