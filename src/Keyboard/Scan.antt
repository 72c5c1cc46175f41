-- ===== src/Keyboard/Scan.antt =====
-- `keyScanned` of src/kernel/keyboard.c, and its listeners. The tables of the two switches are in the
-- module Layout. A listener is a number; the list of
-- listeners, of src/lib/list.c, is the sequence of its items, the head first.
use dar_os.Base.{
  ℕ, Bool, true, false, not, ◌&&◌, ◌||◌, Option, none, some, List, [], ◌∷◌, map, ◌++◌, ◌==◌, ◌%◌,
  if◌then◌else◌,
}
use dar_os.Console.Keys.{Input}
use dar_os.Keyboard.Layout.{Cap, fixed, shifty, capsy, extended_keys, main_keys, find_key}

-- The modifiers as the keyboard's bytes so far leave them, `last_e0`, and the list of listeners, which
-- is there once one has been registered.
pub record Kbd : Type 0 where
  pub shift_down : Bool
  pub ctrl_down : Bool
  pub alt_down : Bool
  pub caps_lock_on : Bool
  pub last_e0 : Bool
  pub listeners : Option (List ℕ)

-- What scanning a byte does besides: a call of a listener, or `kbd_cmd`.
pub data Act : Type 0 where
  call : (listener : ℕ) → Input → Act
  command : (cmd arg : ℕ) → Act

-- The macro `si`.
abbrev pub si : Kbd → ℕ → Input
si k key = record { key = key; alt = k.alt_down; ctrl = k.ctrl_down; shift = k.shift_down }

-- Which of its two characters a key stands for: the macros `shifty` and `capsy`.
unfoldable pub shown : Kbd → Cap → ℕ
shown k (fixed c) = c
shown k (shifty c s) = if k.shift_down then s else c
shown k (capsy c s) =
    if (k.shift_down && not k.caps_lock_on) || (not k.shift_down && k.caps_lock_on) then s else c

unfoldable pub all_listeners : Option (List ℕ) → List ℕ
all_listeners none = []
all_listeners (some l) = l

-- `gotInput`: every listener is called, from the head of the list on.
unfoldable pub broadcast : Kbd → Input → List Act
broadcast k i = map (λ l. call l i) (all_listeners k.listeners)

abbrev e0_prefix : ℕ
e0_prefix = 0xe0

-- The end of `keyScanned`.
abbrev pub note_e0 : ℕ → Kbd → Kbd
note_e0 c k = record k { last_e0 = c == e0_prefix }

-- The second switch.
unfoldable pub scan_main : ℕ → Kbd → Kbd × List Act
scan_main c k =
    if c == 0x9d
    then (note_e0 c (record k { ctrl_down = false }), [])
    else if c == 0x1d
    then (note_e0 c (record k { ctrl_down = true }), [])
    else if c == 0xaa || c == 0xb6
    then (note_e0 c (record k { shift_down = false }), [])
    else if c == 0x2a || c == 0x36
    then (note_e0 c (record k { shift_down = true }), [])
    else if c == 0xb8
    then (note_e0 c (record k { alt_down = false }), [])
    else if c == 0x38
    then (note_e0 c (record k { alt_down = true }), [])
    else if c == 0x3a
    then (
      note_e0 c (record k { caps_lock_on = not k.caps_lock_on }),
      command 0xed (if k.caps_lock_on then 0 else 4) ∷ [],
    )
    else elim (find_key c main_keys) [
      | none ↦ (note_e0 c k, [])
      | some cap ↦ (note_e0 c k, broadcast k (si k (shown k cap)))
    ]

-- The part of `keyScanned` for a byte that follows an 0xe0.
unfoldable pub scan_extended : ℕ → Kbd → Kbd × List Act
scan_extended c k =
    let k' = record k { last_e0 = false } in
    if c == e0_prefix
    then (k, [])
    else if c % 0x80 == 0x2a || c % 0x80 == 0x36
    then (k', [])
    else elim (find_key c extended_keys) [
      | none ↦ scan_main c k'
      | some cap ↦ (k', broadcast k' (si k' (shown k' cap)))
    ]

unfoldable pub key_scanned : ℕ → Kbd → Kbd × List Act
key_scanned c k = if k.last_e0 then scan_extended c k else scan_main c k

unfoldable pub register_kbd_listener : ℕ → Kbd → Kbd
register_kbd_listener f k = record k { listeners = some (f ∷ all_listeners k.listeners) }

-- All nodes with the listener are taken out.
unfoldable pub remove_all : ℕ → List ℕ → List ℕ
remove_all f [] = []
remove_all f (x ∷ xs) = if x == f then remove_all f xs else x ∷ remove_all f xs

unfoldable pub unregister_kbd_listener : ℕ → Kbd → Kbd
unregister_kbd_listener f k = elim (k.listeners) [
  | none ↦ k
  | some l ↦ record k { listeners = some (remove_all f l) }
]

-- `keyScanned` on one byte after another.
unfoldable pub scan_all : List ℕ → Kbd → Kbd × List Act
scan_all [] k = (k, [])
scan_all (c ∷ cs) k =
    let (k', acts) = key_scanned c k in let (k'', more) = scan_all cs k' in (k'', acts ++ more)
