-- ===== src/Console/Screen.antt =====
-- The state of src/kernel/console.c as a whole, what part of a terminal is on screen, the cursor, and
-- scrolling. `printColorTo` and the keys are in the modules Print and Keys.
use dar_os.Base.{
  ℕ, ◌+◌, ◌-◌, ◌*◌, ◌/◌, ◌%◌, ◌^◌, true, List, ◌==◌, ltb, leb, if◌then◌else◌, write, sub64, mul64,
}
use dar_os.Console.Term.{Term, lines, empty_cell, line_for, page_index_for, word_at}

-- What the console asks of src/kernel/interrupt.c.
pub data Call : Type 0 where
  start_sh : (t : ℕ) → Call
  got_line : (pid : ℕ) → (bytes : List ℕ) → Call

-- `vram` is the screen, a word for each cell; `crtc` the registers behind ports 0x3D4 and 0x3D5;
-- `last_pid` the counter from which `startSh` takes the pid that it returns; `calls` what has been
-- asked of the processes, the latest first.
pub record Console : Type 0 where
  pub terms : ℕ → Term
  pub shown : ℕ
  pub vram : ℕ → ℕ
  pub crtc : ℕ → ℕ
  pub last_pid : ℕ
  pub calls : List Call

abbrev pub term_count : ℕ
term_count = 10

abbrev pub logs_term : ℕ
logs_term = 0

-- The terminal that is shown.
abbrev pub current : Console → Term
current c = c.terms c.shown

abbrev pub set_term : ℕ → Term → Console → Console
set_term i t c = record c { terms = write c.terms i t }

abbrev pub set_current : Term → Console → Console
set_current t c = set_term c.shown t c

unfoldable pub add_page : Term → ℕ → Term
add_page t i = if t.page i then t else record t {
  cap = if ltb t.cap (i + 2) then t.cap * 2 else t.cap;
  page = write t.page i true;
  word = λ j. if j / (lines * 80) == i then empty_cell else t.word j;
}

unfoldable pub ensure_pages : Term → Term
ensure_pages t =
    let i = page_index_for t.end in
    let t' = if t.page i then t else add_page t i in
    if t'.page (i + 1) then t' else add_page t' (i + 1)

-- The line at the top of the screen, before scrolling.
unfoldable pub top_line : Term → ℕ
top_line t =
    if leb lines (sub64 (line_for t.end) (line_for t.cur))
    then line_for t.cur
    else if ltb (sub64 (line_for t.end) t.clear_top) lines
    then t.clear_top
    else line_for t.end - lines + 1

unfoldable pub top : Term → ℕ
top t = mul64 (sub64 (top_line t) t.v_scroll) 160

unfoldable pub cur_position_in_screen : Term → ℕ
cur_position_in_screen t = sub64 t.cur (top t)

unfoldable pub hide_cursor : Console → Console
hide_cursor c = record c { crtc = write c.crtc 0x0A 0x20 }

unfoldable pub update_cursor_position : Console → Console
update_cursor_position c =
    let p = cur_position_in_screen (current c) in
    if leb (lines * 160) p
    then hide_cursor c
    else record c { crtc = write (write c.crtc 0x0F (p / 2 % 256)) 0x0E (p / 2 / 256 % 256) }

-- `x & 0xC0 | 13` and `x & 0xE0 | 15` keep the two and the three high bits of a byte.
unfoldable pub show_cursor : Console → Console
show_cursor c = if leb (lines * 160) (cur_position_in_screen (current c)) then c else record c {
  crtc =
      write (write c.crtc 0x0A (c.crtc 0x0A / 2 ^ 6 % 4 * 2 ^ 6 + 13)) 0x0B
        (c.crtc 0x0B / 2 ^ 5 % 8 * 2 ^ 5 + 15);
}

-- The 480 quadwords of the screen are its 1920 words; a line of the screen never straddles a page.
unfoldable pub sync_screen : Console → Console
sync_screen c =
    let t = current c in
    update_cursor_position (record c {
      vram = λ k. if ltb k (lines * 80) then word_at t.word (top t + k * 2) else c.vram k;
    })

unfoldable pub scroll_down_by : ℕ → Console → Console
scroll_down_by n c =
    let t = current c in
    let v = if ltb n t.v_scroll then t.v_scroll - n else 0 in
    let c' = sync_screen (set_current (record t { v_scroll = v }) c) in
    if t.v_scroll == 0 then c else if c.shown == logs_term then c' else show_cursor c'

unfoldable pub scroll_to_bottom : Console → Console
scroll_to_bottom c = scroll_down_by (2 ^ 64 - 1) c

unfoldable pub scroll_up_by : ℕ → Console → Console
scroll_up_by n c =
    let t = current c in
    let max_scroll = top t / 160 in
    let n' = if ltb max_scroll n then max_scroll else n in
    if top t == 0 then c else sync_screen (set_current (record t { v_scroll = t.v_scroll + n' }) c)

unfoldable pub scroll_to_top : Console → Console
scroll_to_top c = scroll_up_by (2 ^ 64 - 1) c

-- `clear`.
unfoldable pub clear : Console → Console
clear c =
    let c' = scroll_to_bottom c in
    let t = current c' in
    if line_for t.anchor == top t / 160
    then c'
    else sync_screen (set_current (ensure_pages (record t { clear_top = line_for t.anchor })) c')
