-- ===== src/Keyboard/Typing.antt =====
-- From a scan code of src/kernel/keyboard.c to the line of src/kernel/console.c, whose `gotInput` is a
-- listener.
use dar_os.Base.{
  ℕ, ◌+◌, ◌≤◌, ◌<◌, ◌≡◌, refl, true, false, some, List, [], ◌∷◌, ◌==◌, if◌then◌else◌, arith,
}
use dar_os.Console.Keys.{Input, got_input}
use dar_os.Console.Term.{page_index_for}
use dar_os.Console.Screen.{Console, current}
use dar_os.Console.Line.{Line, insert}
use dar_os.Console.Handler.{Holds}
use dar_os.Console.Typing.{got_input-insert}
use dar_os.Keyboard.Scan.{Kbd, Act, call, command, si, key_scanned, broadcast, all_listeners}
use dar_os.Keyboard.Typeable.{is_missing, code_of, shift_of, key_scanned-printable}

-- What the calls of listener `tty` do, where that is the console's `gotInput`.
unfoldable pub deliver : (tty : ℕ) → List Act → Console → Console
deliver tty [] c = c
deliver tty (call l i ∷ acts) c = deliver tty acts (if l == tty then got_input i c else c)
deliver tty (command cmd arg ∷ acts) c = deliver tty acts c

deliver-broadcast :
    (tty : ℕ) (k : Kbd) (i : Input) (c : Console)
    → k.listeners ≡ some (tty ∷ [])
    → deliver tty (broadcast k i) c ≡ got_input i c
unfolding deliver broadcast all_listeners
deliver-broadcast tty k i c e = rw e (ground arith)

-- If the console is the one listener, shift is as the character needs it and no other modifier is on, no
-- 0xe0 has come before, and the terminal that is shown is not that of the logs, has offsets of whole words in order and
-- empty cells behind its end, and has the page that the end moves to, then scanning the code of a printable character that
-- has a key inserts its cell at the cursor of that terminal and leaves it in order.
pub key_scanned-insert :
    (key tty : ℕ) (k : Kbd) (c : Console) {z : Line}
    → 32 ≤ key
    → key ≤ 126
    → is_missing key ≡ false
    → k ≡ record {
      shift_down = shift_of key;
      ctrl_down = false;
      alt_down = false;
      caps_lock_on = false;
      last_e0 = false;
      listeners = some (tty ∷ []);
    }
    → 0 < c.shown
    → (current c).page (page_index_for ((current c).end + 2)) ≡ true
    → Holds (current c) z
    → Holds (current (deliver tty (key_scanned (code_of key) k).1 c)) (insert (0x0700 + key) z)
key_scanned-insert key tty k c lo hi there e pos page h =
    rw
      (
        key_scanned-printable key k lo hi there (rw e refl) (rw e refl) (rw e refl),
        deliver-broadcast tty k (si k key) c (rw e refl),
        e,
      )
      (got_input-insert key (shift_of key) c (ground arith) pos page h)
