-- ===== src/Console/Refine.antt =====
-- `gotInput` of src/kernel/console.c on the keys that edit the line, against the zipper.
use dar_os.Base.{List, [], ◌∷◌, ℕ, true, false}
use dar_os.Console.Screen.{Console}
use dar_os.Console.Line.{Line, Key, press}
use dar_os.Console.Keys.{
  backspace, delete, delete_word_left, delete_word_right, word_left, word_right, cursor_left,
  cursor_right, Input, got_input, backspace_code, key_del, key_left, key_right, key_home, key_end,
}
use dar_os.Console.Deletes
use dar_os.Console.Moves

abbrev pub plain_key : ℕ → Input
plain_key k = record { key = k; alt = false; ctrl = false; shift = false }

abbrev pub ctrl_key : ℕ → Input
ctrl_key k = record { key = k; alt = false; ctrl = true; shift = false }

abbrev pub alt_key : ℕ → Input
alt_key k = record { key = k; alt = true; ctrl = false; shift = false }

-- The key press that each operation of the zipper stands for.
abbrev pub input_of : Key → Input
input_of Key.backspace = plain_key backspace_code
input_of Key.delete = plain_key key_del
input_of Key.delete_word_left = alt_key backspace_code
input_of Key.delete_word_right = alt_key b'd'
input_of Key.clear_to_anchor = ctrl_key b'u'
input_of Key.clear_to_end = ctrl_key b'k'
input_of Key.word_left = alt_key b'b'
input_of Key.word_right = alt_key b'f'
input_of Key.cursor_left = plain_key key_left
input_of Key.cursor_right = plain_key key_right
input_of Key.home = plain_key key_home
input_of Key.end = plain_key key_end

-- The keys pressed one after the other, on the console and on the line.
unfoldable pub got_keys : List Key → Console → Console
got_keys [] c = c
got_keys (k ∷ ks) c = got_keys ks (got_input (input_of k) c)

unfoldable pub press_all : List Key → Line → Line
press_all [] z = z
press_all (k ∷ ks) z = press_all ks (press k z)
