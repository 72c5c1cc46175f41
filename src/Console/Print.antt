-- ===== src/Console/Print.antt =====
-- Printing to a terminal of src/kernel/console.c, and switching terminals.
use dar_os.Base.{
  ℕ, zero, suc, ◌+◌, ◌-◌, ◌/◌, ◌%◌, ◌^◌, true, false, ◌&&◌, ◌||◌, List, [], ◌∷◌, ◌==◌,
  if◌then◌else◌, write,
}
use dar_os.Console.Term.{Term, printcc}
use dar_os.Console.Screen.{
  Console, start_sh, logs_term, set_term, ensure_pages, top, hide_cursor, show_cursor, sync_screen,
}

-- `for (n = 160 - cur % 160; n > 0; n -= 2) printcc(t, 0, color)`, with `n / 2` rounds.
unfoldable pub fill_line : (n color : ℕ) → Term → Term
fill_line zero color t = t
fill_line (suc n) color t = fill_line n color (printcc 0 color t)

unfoldable pub print_char_color : (c color : ℕ) → Term → Term
print_char_color c color t =
    if c == b'\r' && t.cur % 160 == 0
    then t
    else (let t' =
          if c == b'\r' || c == b'\n'
          then fill_line ((160 - t.cur % 160 + 1) / 2) color t
          else printcc c color t in
        if top t' == top t then t' else ensure_pages t')

-- `while (*s != 0) printCharColor(t, *s++, c)`; the list holds the bytes before the terminator.
unfoldable pub print_chars : (s : List ℕ) (color : ℕ) → Term → Term
print_chars [] color t = t
print_chars (x ∷ s) color t = print_chars s color (print_char_color x color t)

-- The end of `printColorTo`, once the terminal is there.
unfoldable pub print_ready : (i : ℕ) (s : List ℕ) (color : ℕ) → Console → Console
print_ready i s color c =
    let t = print_chars s color (c.terms i) in
    let c' = set_term i (record t { anchor = t.cur }) c in
    if i == c.shown then sync_screen c' else c'

-- "- Start of logs -\\n"
abbrev start_of_logs : List ℕ
start_of_logs =
    b'-' ∷ b' ' ∷ b'S' ∷ b't' ∷ b'a' ∷ b'r' ∷ b't' ∷ b' ' ∷ b'o' ∷ b'f' ∷ b' ' ∷ b'l' ∷ b'o' ∷ b'g'
    ∷ b's' ∷ b' ' ∷ b'-' ∷ b'\n' ∷ []

-- `if (!terms[t].buf)` of `ensureTerm`; what `mallocz` returns holds null pages.
unfoldable pub with_buf : Term → Term
with_buf t = if t.has_buf then t else record t { has_buf = true; cap = 16; page = λ _. false }

-- `ensureTerm`. Its call of `printColorTo` comes when page 0 is there, so that the nested call of
-- `ensureTerm` does nothing.
unfoldable pub ensure_term : ℕ → Console → Console
ensure_term i c =
    let t = with_buf (c.terms i) in
    let c' = set_term i (ensure_pages t) c in
    if t.page 0
    then set_term i t c
    else if i == logs_term
    then print_ready i start_of_logs 0x0f c'
    else record c' {
      terms = write c'.terms i (record (ensure_pages t) { sh = c.last_pid + 1 });
      last_pid = c.last_pid + 1;
      calls = start_sh i ∷ c.calls;
    }

unfoldable pub print_color_to : (i : ℕ) (s : List ℕ) (color : ℕ) → Console → Console
print_color_to i s color c = print_ready i s color (ensure_term i c)

-- `at` starts as -1, which says that no terminal is shown yet.
unfoldable pub print_color : (s : List ℕ) (color : ℕ) → Console → Console
print_color s color c = if c.shown == 2 ^ 64 - 1 then c else print_color_to c.shown s color c

unfoldable pub show_term : ℕ → Console → Console
show_term i c =
    let c' = record c { shown = i } in
    let c'' = sync_screen (ensure_term i (if i == logs_term then hide_cursor c' else c')) in
    if i == c.shown then c else if i == logs_term then c'' else show_cursor c''

unfoldable pub set_reading : (i pid : ℕ) → Console → Console
set_reading i pid c = set_term i (record (c.terms i) { reading = pid }) c

-- `procDone`: a terminal whose shell ends gets a new one.
unfoldable pub proc_done : (pid i : ℕ) → Console → Console
proc_done pid i c =
    if (c.terms i).sh == pid
    then record c {
      terms = write c.terms i (record (c.terms i) { sh = c.last_pid + 1 });
      last_pid = c.last_pid + 1;
      calls = start_sh i ∷ c.calls;
    }
    else c
