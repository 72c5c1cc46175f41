-- ===== src/Console/Keys.antt =====
-- The keys of src/kernel/console.c: the editing keys, `M_readline`, and `gotInput`, which sends each
-- key to its handler.
use dar_os.Base.{
  ℕ, zero, suc, ◌+◌, ◌-◌, ◌*◌, ◌%◌, Bool, not, ◌&&◌, ◌||◌, List, [], ◌∷◌, ◌==◌, ltb, leb,
  if◌then◌else◌, write,
}
use dar_os.Console.Term.{
  Term, lines, byte_at, word_start, word_end, erase_left, erase_right, erase_word_left,
  erase_word_right, erase_to_anchor, erase_to_end,
}
use dar_os.Console.Screen.{
  Console, got_line, current, set_current, update_cursor_position, sync_screen, scroll_down_by,
  scroll_up_by, scroll_to_bottom, scroll_to_top, clear,
}
use dar_os.Console.Print.{print_char_color, print_color, show_term}

-- An editing key first scrolls to the bottom; it does nothing more if `stays` holds of the terminal,
-- and else changes it and shows it.
abbrev pub editing : (stays : Term → Bool) (change : Term → Term) → Console → Console
editing stays change c =
    let c' = scroll_to_bottom c in
    if stays (current c') then c' else sync_screen (set_current (change (current c')) c')

abbrev pub moving : (stays : Term → Bool) (target : Term → ℕ) → Console → Console
moving stays target c =
    let c' = scroll_to_bottom c in
    let t = current c' in
    if stays t then c' else update_cursor_position (set_current (record t { cur = target t }) c')

abbrev pub at_anchor : Term → Bool
at_anchor t = t.cur == t.anchor

abbrev pub at_end : Term → Bool
at_end t = t.cur == t.end

unfoldable pub backspace : Console → Console
backspace c = editing at_anchor erase_left c

unfoldable pub delete : Console → Console
delete c = editing at_end erase_right c

unfoldable pub delete_word_left : Console → Console
delete_word_left c = editing at_anchor erase_word_left c

unfoldable pub delete_word_right : Console → Console
delete_word_right c = editing at_end erase_word_right c

unfoldable pub clear_cur_to_anchor : Console → Console
clear_cur_to_anchor c = editing at_anchor erase_to_anchor c

unfoldable pub clear_cur_to_end : Console → Console
clear_cur_to_end c = editing at_end erase_to_end c

unfoldable pub word_left : Console → Console
word_left c = moving at_anchor (λ t. word_start t.word t.anchor t.cur) c

unfoldable pub word_right : Console → Console
word_right c = moving at_end (λ t. word_end t.word t.end t.cur) c

unfoldable pub cursor_left : Console → Console
cursor_left c = moving at_anchor (λ t. t.cur - 2) c

unfoldable pub cursor_right : Console → Console
cursor_right c = moving at_end (λ t. t.cur + 2) c

unfoldable pub cursor_home : Console → Console
cursor_home c = moving at_anchor (λ t. t.anchor) c

unfoldable pub cursor_end : Console → Console
cursor_end c = moving at_end (λ t. t.end) c

-- The branch of `gotInput` for a printable key.
unfoldable pub type_char : ℕ → Console → Console
type_char key c =
    let c' = scroll_to_bottom c in
    sync_screen (set_current (print_char_color key 0x07 (current c')) c')

-- The bytes that the loop of `M_readline` stores, `len` of them, the terminator's place included.
unfoldable pub read_bytes : (n i : ℕ) → Term → List ℕ
read_bytes zero i t = []
read_bytes (suc n) i t = byte_at t.word (t.anchor + i * 2) ∷ read_bytes n (i + 1) t

unfoldable pub readline : Term → List ℕ
unfolding read_bytes
readline t = read_bytes (t.end - t.anchor + 1) 0 t

-- The string that a reader of these bytes sees: up to the first null.
unfoldable pub c_string : List ℕ → List ℕ
c_string [] = []
c_string (x ∷ xs) = if x == 0 then [] else x ∷ c_string xs

-- The branch of `gotInput` for the enter key.
unfoldable pub enter : Console → Console
enter c =
    let l = readline (current c) in
    let c' =
      print_color (b'\n' ∷ []) 0x07
        (set_current (record (current c) { cur = (current c).end }) c) in
    let t = current c' in
    if t.reading == 0 then c' else record c' {
      terms = write c'.terms c'.shown (record t { reading = 0 });
      calls = got_line t.reading (c_string l) ∷ c'.calls;
    }

pub record Input : Type 0 where
  pub key : ℕ
  pub alt : Bool
  pub ctrl : Bool
  pub shift : Bool

abbrev pub key_up : ℕ
key_up = 23

abbrev pub key_down : ℕ
key_down = 24

abbrev pub key_left : ℕ
key_left = 25

abbrev pub key_right : ℕ
key_right = 26

abbrev pub key_pg_up : ℕ
key_pg_up = 28

abbrev pub key_pg_down : ℕ
key_pg_down = 29

abbrev pub key_home : ℕ
key_home = 30

abbrev pub key_end : ℕ
key_end = 31

abbrev pub key_ins : ℕ
key_ins = 6

abbrev pub key_del : ℕ
key_del = 127

abbrev pub backspace_code : ℕ
backspace_code = 8

abbrev pub is_printable : ℕ → Bool
is_printable c = leb b' ' c && leb c b'~'

-- No modifier, the control key alone, and the alt key alone.
abbrev plain : Input → Bool
plain i = not i.alt && not i.ctrl && not i.shift

abbrev ctrl_only : Input → Bool
ctrl_only i = not i.alt && i.ctrl && not i.shift

abbrev alt_only : Input → Bool
alt_only i = i.alt && not i.ctrl && not i.shift

-- The keys that edit a line, in the second half of `gotInput`.
unfoldable pub edit_input : Input → Console → Console
edit_input i c =
    if is_printable i.key && not i.alt && not i.ctrl
    then type_char i.key c
    else if i.key == backspace_code && plain i
    then backspace c
    else if i.key == backspace_code && alt_only i
    then delete_word_left c
    else if (i.key == b'd' || i.key == b'D') && alt_only i
    then delete_word_right c
    else if i.key == b'\n' && plain i
    then enter c
    else if i.key == b'u' && ctrl_only i
    then clear_cur_to_anchor c
    else if i.key == b'k' && ctrl_only i
    then clear_cur_to_end c
    else if i.key == key_del && plain i
    then delete c
    else if i.key == key_left && plain i
    then cursor_left c
    else if (i.key == key_left || i.key == b'b') && alt_only i
    then word_left c
    else if i.key == key_right && plain i
    then cursor_right c
    else if (i.key == key_right || i.key == b'f') && alt_only i
    then word_right c
    else if i.key == key_home && plain i
    then cursor_home c
    else if i.key == b'a' && ctrl_only i
    then cursor_home c
    else if i.key == key_end && plain i
    then cursor_end c
    else if i.key == b'e' && ctrl_only i
    then cursor_end c
    else if i.key == b'h' && ctrl_only i
    then backspace c
    else if i.key == b'l' && ctrl_only i
    then clear c
    else c

-- A key that scrolls: with shift, or in the terminal of the logs.
abbrev scrolling : Input → Console → Bool
scrolling i c = not i.alt && not i.ctrl && (i.shift || c.shown == 0)

unfoldable pub got_input : Input → Console → Console
got_input i c =
    if leb b'0' i.key && leb i.key b'9' && ctrl_only i
    then show_term (i.key - b'0') c
    else if i.key == key_up && scrolling i c
    then scroll_up_by 1 c
    else if i.key == key_down && scrolling i c
    then scroll_down_by 1 c
    else if i.key == key_pg_down && scrolling i c
    then scroll_down_by lines c
    else if i.key == key_pg_up && scrolling i c
    then scroll_up_by lines c
    else if i.key == key_home && scrolling i c
    then scroll_to_top c
    else if i.key == key_end && scrolling i c
    then scroll_to_bottom c
    else if i.key == key_right && ctrl_only i
    then show_term ((c.shown + 1) % 10) c
    else if i.key == key_left && ctrl_only i
    then show_term ((c.shown + 9) % 10) c
    else if ltb 0 c.shown
    then edit_input i c
    else c
