-- ===== src/Console/Handler.antt =====
-- What a key of src/kernel/console.c does around the change that it makes: it scrolls to the bottom,
-- may stop early, and shows the result.
use dar_os.Base.{
  ◌+◌, ℕ, ◌-◌, ◌≡◌, refl, sym, ap, ◌∙◌, Bool, true, false, arith, ◌==◌, if◌then◌else◌, ◌^◌, ltb,
  subst, Bool-cases, inl, inr,
}
use dar_os.Console.Term.{page_index_for, Term}
use dar_os.Console.Screen.{
  Console, current, hide_cursor, show_cursor, logs_term, set_current, update_cursor_position,
  sync_screen, scroll_down_by, scroll_to_bottom,
}
use dar_os.Console.Keys.{editing, moving}
use dar_os.Console.Line.{Line, edited}
use dar_os.Console.Cells.{IsLine}

-- `u` holds the line `z`, and is in order.
pub record Holds (u : Term) (z : Line) : Type 0 where
  pub is_line : IsLine u
  pub holds : edited u ≡ z

pub current-sync_screen : (c : Console) → current (sync_screen c) ≡ current c
unfolding sync_screen update_cursor_position hide_cursor
current-sync_screen c = ground arith

pub current-update_cursor_position : (c : Console) → current (update_cursor_position c) ≡ current c
unfolding update_cursor_position hide_cursor
current-update_cursor_position c = ground arith

pub current-set_current : (t : Term) (c : Console) → current (set_current t c) ≡ t
current-set_current t c = ground arith

current-show_cursor : (c : Console) → current (show_cursor c) ≡ current c
unfolding show_cursor
current-show_cursor c = ground arith

-- Scrolling leaves all of the terminal but its `v_scroll`.
pub current-scroll_down_by :
    (n : ℕ) (c : Console)
    → (v : ℕ) × (current (scroll_down_by n c) ≡ record (current c) { v_scroll = v })
unfolding scroll_down_by
current-scroll_down_by n c = elim (Bool-cases ((current c).v_scroll == 0)) [
  | inl z ↦ ((current c).v_scroll, rw z)
  | inr nz ↦ (
    if ltb n (current c).v_scroll then (current c).v_scroll - n else 0,
    rw nz (elim (Bool-cases (c.shown == logs_term)) [
      | inl l ↦ rw l (current-sync_screen _ ∙ current-set_current _ c)
      | inr o ↦ rw o (current-show_cursor _ ∙ current-sync_screen _ ∙ current-set_current _ c)
    ]),
  )
]

pub IsLine-scroll : {t : Term} (v : ℕ) → IsLine t → IsLine (record t { v_scroll = v })
IsLine-scroll v i = record {
  anchor_even = i.anchor_even;
  cur_even = i.cur_even;
  end_even = i.end_even;
  anchor_le = i.anchor_le;
  cur_le = i.cur_le;
  behind = i.behind;
}

pub edited-scroll : (t : Term) (v : ℕ) → edited (record t { v_scroll = v }) ≡ edited t
unfolding edited
edited-scroll t v = refl

pub page-scroll_to_bottom :
    (c : Console)
    → (current c).page (page_index_for ((current c).end + 2)) ≡ true
    → (current (scroll_to_bottom c)).page (page_index_for ((current (scroll_to_bottom c)).end + 2))
      ≡ true
unfolding scroll_to_bottom
page-scroll_to_bottom c p =
    let (v, e) = current-scroll_down_by (2 ^ 64 - 1) c in
    subst (λ t. t.page (page_index_for (t.end + 2)) ≡ true) (sym e) p

pub scroll_to_bottom-Holds :
    (c : Console) {z : Line} → Holds (current c) z → Holds (current (scroll_to_bottom c)) z
unfolding scroll_to_bottom
scroll_to_bottom-Holds c h =
    let (v, e) = current-scroll_down_by (2 ^ 64 - 1) c in
    rw e (record {
      is_line = IsLine-scroll v h.is_line;
      holds = edited-scroll (current c) v ∙ h.holds;
    })

-- A key that changes the line refines an operation of the zipper, if its loops do, and if the
-- operation does nothing where the key stops early.
module _ (stays : Term → Bool) (op : Line → Line) (c : Console) {z : Line} where
  pub editing-Holds :
      (change : Term → Term)
      → ((t : Term) → IsLine t → stays t ≡ true → op (edited t) ≡ edited t)
      → ((t : Term) → IsLine t → stays t ≡ false → Holds (change t) (op (edited t)))
      → Holds (current c) z
      → Holds (current (editing stays change c)) (op z)
  editing-Holds change idle works h =
      let h' = scroll_to_bottom-Holds c h in
      let t = current (scroll_to_bottom c) in
      elim (Bool-cases (stays t)) [
        | inl e ↦
            rw e
              (record { is_line = h'.is_line; holds = sym (idle t h'.is_line e) ∙ ap op h'.holds })
        | inr e ↦
            rw (e, current-sync_screen, current-set_current)
              (subst (λ y. Holds (change t) (op y)) h'.holds (works t h'.is_line e))
      ]

  pub moving-Holds :
      (target : Term → ℕ)
      → ((t : Term) → IsLine t → stays t ≡ true → op (edited t) ≡ edited t)
      → ((t : Term)
          → IsLine t
          → stays t ≡ false
          → Holds (record t { cur = target t }) (op (edited t)))
      → Holds (current c) z
      → Holds (current (moving stays target c)) (op z)
  moving-Holds target idle works h =
      let h' = scroll_to_bottom-Holds c h in
      let t = current (scroll_to_bottom c) in
      elim (Bool-cases (stays t)) [
        | inl e ↦
            rw e
              (record { is_line = h'.is_line; holds = sym (idle t h'.is_line e) ∙ ap op h'.holds })
        | inr e ↦
            rw (e, current-update_cursor_position, current-set_current)
              (subst (λ y. Holds (record t { cur = target t }) (op y)) h'.holds
                (works t h'.is_line e))
      ]

shown-sync_screen : (c : Console) → (sync_screen c).shown ≡ c.shown
unfolding sync_screen update_cursor_position hide_cursor
shown-sync_screen c = ground arith

shown-update_cursor_position : (c : Console) → (update_cursor_position c).shown ≡ c.shown
unfolding update_cursor_position hide_cursor
shown-update_cursor_position c = ground arith

shown-show_cursor : (c : Console) → (show_cursor c).shown ≡ c.shown
unfolding show_cursor
shown-show_cursor c = ground arith

shown-scroll_to_bottom : (c : Console) → (scroll_to_bottom c).shown ≡ c.shown
unfolding scroll_to_bottom scroll_down_by
shown-scroll_to_bottom c = grind (arith, shown-sync_screen, shown-show_cursor)

pub shown-editing :
    (stays : Term → Bool) (change : Term → Term) (c : Console)
    → (editing stays change c).shown ≡ c.shown
shown-editing stays change c = grind (arith, shown-sync_screen, shown-scroll_to_bottom)

pub shown-moving :
    (stays : Term → Bool) (target : Term → ℕ) (c : Console)
    → (moving stays target c).shown ≡ c.shown
shown-moving stays target c = grind (arith, shown-update_cursor_position, shown-scroll_to_bottom)
