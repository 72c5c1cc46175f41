-- ===== src/Console/Tests.antt =====
-- Runs of the keys of src/kernel/console.c, and the theorems about them at a terminal.
use dar_os.Base.{
  ℕ, ◌+◌, ◌≡◌, refl, true, List, [], ◌∷◌, arith, ltb, if◌then◌else◌, get_elem?, none, some, inl,
}
use dar_os.Console.Term.{Term, empty_cell}
use dar_os.Console.Screen.{Console}
use dar_os.Console.Status.{status_line, set_char, write_status_bar, heap_text}
use dar_os.Console.StatusBar.{write_status_bar-text}
use dar_os.Strings.Format.{
  sprintf, vsprintf, run, step, begin, take, room, directive, conversion, emit, fit, trim, repeat,
  advance, may_end,
}
use dar_os.Strings.Digits.{skip_zeros, dec_digits, dstoui, dstoui_from}
use dar_os.Console.Line.{
  Line, line, Key, left_of, right_of, edited, press, drop_right, shift_while, shift_word, shift_all,
}
use dar_os.Console.Handler.{Holds}
use dar_os.Console.Keys.{c_string, readline}
use dar_os.Console.Refine.{press_all}
use dar_os.Console.Readline.{text, chars, readline-text}

abbrev pub cell : ℕ → ℕ
cell c = 0x0700 + c

-- A prompt of two cells, and "ab c" with the cursor on the space.
abbrev cells : List ℕ
cells = cell b'>' ∷ cell b' ' ∷ cell b'a' ∷ cell b'b' ∷ cell b' ' ∷ cell b'c' ∷ []

abbrev nth : List ℕ → ℕ → ℕ
nth xs j = elim (get_elem? xs j) [ none ↦ empty_cell | some x ↦ x ]

abbrev term : Term
term = record {
  word = λ j. if ltb j 6 then nth cells j else empty_cell;
  page = λ i. ltb i 2;
  has_buf = true;
  cap = 16;
  anchor = 4;
  cur = 8;
  end = 12;
  clear_top = 0;
  v_scroll = 0;
  sh = 1;
  reading = 1;
}

abbrev pub console : Console
console = record {
  terms = λ _. term;
  shown = 1;
  vram = λ _. 0;
  crtc = λ _. 0;
  last_pid = 1;
  calls = [];
}

abbrev pub before : Line
before = line (cell b'b' ∷ cell b'a' ∷ []) (cell b' ' ∷ cell b'c' ∷ [])

pub term-Holds : Holds term before
unfolding edited left_of right_of
term-Holds = record {
  is_line = record {
    anchor_even = refl;
    cur_even = refl;
    end_even = refl;
    anchor_le = omega arith;
    cur_le = omega arith;
    behind = λ j le. ground arith;
  };
  holds = refl;
}

press_all-before :
    press_all (Key.word_left ∷ Key.delete ∷ Key.end ∷ []) before
    ≡ line (cell b'c' ∷ cell b' ' ∷ cell b'b' ∷ []) []
unfolding press_all press drop_right shift_word shift_while shift_all
press_all-before = refl

readline-text_example : c_string (readline term) ≡ text before
unfolding text chars shift_all
readline-text_example = readline-text term term-Holds (omega arith)

abbrev os_name : List ℕ
os_name = b'P' ∷ b'u' ∷ b'r' ∷ b'p' ∷ b'O' ∷ b'S' ∷ []

-- The fourth character of the system's name.
write_status_bar-text_example :
    let vram = (write_status_bar os_name 37 console).vram in
    let j = status_line + (37 + 3) in
    (vram j ≡ set_char b'p' (console.vram j)) × (vram 0 ≡ console.vram 0)
write_status_bar-text_example =
    write_status_bar-text os_name 37 console 3 0 (omega arith) (omega arith) (omega arith)
      (inl (omega arith))

-- 5000 bytes are 4 K.
heap_text_test :
    heap_text 0 5000
    ≡ some (
        b' ' ∷ b' ' ∷ b' ' ∷ b' ' ∷ b' ' ∷ b' ' ∷ b' ' ∷ b' ' ∷ b' ' ∷ b' ' ∷ b'H' ∷ b'e' ∷ b'a'
        ∷ b'p' ∷ b' ' ∷ b'u' ∷ b's' ∷ b'e' ∷ b'd' ∷ b':' ∷ b' ' ∷ b'4' ∷ b' ' ∷ b'K' ∷ [])
unfolding heap_text sprintf vsprintf run step begin take room directive conversion emit fit trim
    repeat advance skip_zeros dec_digits may_end dstoui dstoui_from
heap_text_test = refl
