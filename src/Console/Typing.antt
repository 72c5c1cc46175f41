-- ===== src/Console/Typing.antt =====
-- A printable key of src/kernel/console.c, against the zipper's `insert`.
use dar_os.Base.{
  ℕ, ◌+◌, ◌*◌, ◌/◌, ◌≤◌, ◌<◌, ◌≡◌, refl, ap, ◌∙◌, Bool, true, false, arith, ◌==◌, Bool-cases, inl,
  inr,
}
use dar_os.Console.Term.{Term, empty_cell, page_index_for, printcc}
use dar_os.Console.Screen.{Console, current, add_page, ensure_pages, top}
use dar_os.Console.Print.{print_char_color}
use dar_os.Console.Keys.{Input, is_printable, type_char, edit_input, got_input}
use dar_os.Console.Line.{Line, insert, edited}
use dar_os.Console.Cells.{edited-agree}
use dar_os.Console.Insert.{printcc-IsLine, edited-printcc}
use dar_os.Console.Handler.{
  Holds, current-sync_screen, current-set_current, page-scroll_to_bottom, scroll_to_bottom-Holds,
}

-- A buffer that agrees up to the end, and is empty behind it, holds the same line.
agree-Holds :
    {t : Term} {z : Line} (w : ℕ → ℕ) (p : ℕ → Bool) (n : ℕ)
    → Holds t z
    → ((j : ℕ) → j < t.end / 2 → w j ≡ t.word j)
    → ((j : ℕ) → t.end / 2 ≤ j → w j ≡ empty_cell)
    → Holds (record t { word = w; page = p; cap = n }) z
unfolding edited
agree-Holds {t} w p n h same behind =
    let i = h.is_line in
    record {
      is_line = record {
        anchor_even = i.anchor_even;
        cur_even = i.cur_even;
        end_even = i.end_even;
        anchor_le = i.anchor_le;
        cur_le = i.cur_le;
        behind = behind;
      };
      holds =
          edited-agree t (record t { word = w; page = p; cap = n }) t.cur refl i.anchor_le refl
            (λ j q. same j (omega arith)) (λ j k q r e. same j r ∙ ap t.word (omega arith))
          ∙ h.holds;
    }

ensure_pages-there :
    (t : Term)
    → t.page (page_index_for t.end) ≡ true
    → t.page (page_index_for t.end + 1) ≡ true
    → ensure_pages t ≡ t
unfolding ensure_pages
ensure_pages-there t e there = ground arith

ensure_pages-new :
    (t : Term)
    → t.page (page_index_for t.end) ≡ true
    → t.page (page_index_for t.end + 1) ≡ false
    → ensure_pages t ≡ add_page t (page_index_for t.end + 1)
unfolding ensure_pages
ensure_pages-new t e new = ground arith

add_page-Holds :
    {t : Term} {z : Line} (i : ℕ) → page_index_for t.end < i → Holds t z → Holds (add_page t i) z
unfolding add_page
add_page-Holds {t} i lt h = elim (Bool-cases (t.page i)) [
  | inl there ↦ rw there h
  | inr new ↦
      rw new (agree-Holds _ _ _ h (λ j q. ground arith) (λ j q. ground (arith, h.is_line.behind j)))
]

-- `ensurePages` leaves the line alone where the page that the end stands in is there.
pub ensure_pages-Holds :
    {t : Term} {z : Line}
    → t.page (page_index_for t.end) ≡ true
    → Holds t z
    → Holds (ensure_pages t) z
ensure_pages-Holds {t} e h = elim (Bool-cases (t.page (page_index_for t.end + 1))) [
  | inl there ↦ rw (ensure_pages-there t e there) h
  | inr new ↦
      rw (ensure_pages-new t e new) (add_page-Holds (page_index_for t.end + 1) (omega arith) h)
]

printcc-Holds :
    {t : Term} {z : Line} (c cl : ℕ) → Holds t z → Holds (printcc c cl t) (insert (cl * 256 + c) z)
unfolding printcc
printcc-Holds c cl h = record {
  is_line = printcc-IsLine h.is_line c cl;
  holds = edited-printcc h.is_line c cl ∙ ap (insert (cl * 256 + c)) h.holds;
}

cr_ne : (c : ℕ) → is_printable c ≡ true → (c == b'\r') ≡ false
cr_ne c h = ground arith

lf_ne : (c : ℕ) → is_printable c ≡ true → (c == b'\n') ≡ false
lf_ne c h = ground arith

page-printcc :
    (c cl : ℕ) (t : Term)
    → t.page (page_index_for (t.end + 2)) ≡ true
    → (printcc c cl t).page (page_index_for (printcc c cl t).end) ≡ true
unfolding printcc
page-printcc c cl t e = e

print_char_color-Holds :
    {t : Term} {z : Line} (c cl : ℕ)
    → is_printable c ≡ true
    → t.page (page_index_for (t.end + 2)) ≡ true
    → Holds t z
    → Holds (print_char_color c cl t) (insert (cl * 256 + c) z)
unfolding print_char_color
print_char_color-Holds {t} c cl pr e h =
    rw (cr_ne c pr, lf_ne c pr)
      (elim (Bool-cases (top (printcc c cl t) == top t)) [
        | inl same ↦ rw same (printcc-Holds c cl h)
        | inr moved ↦ rw moved (ensure_pages-Holds (page-printcc c cl t e) (printcc-Holds c cl h))
      ])

abbrev pub char_key : ℕ → Bool → Input
char_key key shift = record { key = key; alt = false; ctrl = false; shift = shift }

module _ (key : ℕ) (shift : Bool) (c : Console) (pr : is_printable key ≡ true) where
  edit_input-type_char : edit_input (char_key key shift) c ≡ type_char key c
  unfolding edit_input
  edit_input-type_char = rw pr

  got_input-edit_input :
      0 < c.shown → got_input (char_key key shift) c ≡ edit_input (char_key key shift) c
  unfolding got_input
  got_input-edit_input pos = ground arith

  type_char-Holds :
      {z : Line}
      → (current c).page (page_index_for ((current c).end + 2)) ≡ true
      → Holds (current c) z
      → Holds (current (type_char key c)) (insert (0x0700 + key) z)
  unfolding type_char
  type_char-Holds page h =
      rw (current-sync_screen, current-set_current)
        (print_char_color-Holds key 0x07 pr (page-scroll_to_bottom c page)
          (scroll_to_bottom-Holds c h))

  -- Typing a printable character, with shift or without, inserts its cell, white on black, at the
  -- cursor, where the page that the end moves to is there.
  pub got_input-insert :
      {z : Line}
      → 0 < c.shown
      → (current c).page (page_index_for ((current c).end + 2)) ≡ true
      → Holds (current c) z
      → Holds (current (got_input (char_key key shift) c)) (insert (0x0700 + key) z)
  got_input-insert pos page h =
      rw (got_input-edit_input pos, edit_input-type_char) (type_char-Holds page h)
