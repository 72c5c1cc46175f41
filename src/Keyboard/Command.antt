-- ===== src/Keyboard/Command.antt =====
-- Commands to the keyboard's controller, `kbd_cmd` of src/kernel/keyboard.c.
use dar_os.Base.{
  ℕ, zero, suc, ◌+◌, ◌≤◌, ◌≡◌, ◌≢◌, ◌<◌, ◌⊎◌, refl, ap, ◌∙◌, ◌==◌, if◌then◌else◌, List, [], ◌∷◌,
  arith, false, Bool-cases, inl, inr,
}

abbrev pub kbd_ack : ℕ
kbd_ack = 0xfa

-- The loop's rounds: the bytes written to port 0x60. The controller's response in round `i` is an argument; after one that is
-- not an acknowledgement, whether it asks to send again or is another, the loop goes on.
unfoldable pub send : (rounds i cmd arg : ℕ) (response : ℕ → ℕ) → List ℕ
send zero i cmd arg response = []
send (suc rounds) i cmd arg response =
    let again = send rounds (i + 1) cmd arg response in
    cmd ∷ arg ∷ (if response i == kbd_ack then [] else again)

unfoldable pub kbd_cmd : (cmd arg : ℕ) (response : ℕ → ℕ) → List ℕ
kbd_cmd cmd arg response = send 3 0 cmd arg response

-- A command and its argument, `n` times.
unfoldable pub repeated : (n cmd arg : ℕ) → List ℕ
repeated zero cmd arg = []
repeated (suc n) cmd arg = cmd ∷ arg ∷ repeated n cmd arg

-- What `n` sends come from: all but the last were not acknowledged, and the last was, or no round was left.
unfoldable pub Sent : (rounds i : ℕ) (response : ℕ → ℕ) → ℕ → Type 0
Sent rounds i response n =
    (n ≤ rounds)
    × ((j : ℕ) → i ≤ j → j + 1 < i + n → response j ≢ kbd_ack)
    × ((n ≡ rounds) ⊎ ((m : ℕ) × (n ≡ suc m) × (response (i + m) ≡ kbd_ack)))

send-Sent :
    (rounds i cmd arg : ℕ) (response : ℕ → ℕ)
    → (n : ℕ) × (send rounds i cmd arg response ≡ repeated n cmd arg) × Sent rounds i response n
unfolding send repeated Sent
send-Sent zero i cmd arg response =
    (0, refl, (omega arith, (λ j ge lt. absurd (omega arith)), inl refl))
send-Sent (suc rounds) i cmd arg response = elim (Bool-cases (response i == kbd_ack)) [
  | inl e ↦
      let at : i + 0 ≡ i = omega arith in
      (
        1,
        rw e refl,
        (
          omega arith,
          (λ j ge lt. absurd (omega arith)),
          inr (0, refl, ap response at ∙ ground arith),
        ),
      )
  | inr ne ↦
      let (n, bytes, sent) = send-Sent rounds (i + 1) cmd arg response in
      let (le, before, end) = sent in
      (
        suc n,
        rw ne (ap (λ xs. cmd ∷ arg ∷ xs) bytes),
        (omega arith, earlier i n response ne before, ending rounds i n response end),
      )
]
  where
    earlier :
        (i n : ℕ) (response : ℕ → ℕ)
        → (response i == kbd_ack) ≡ false
        → ((j : ℕ) → i + 1 ≤ j → j + 1 < i + 1 + n → response j ≢ kbd_ack)
        → (j : ℕ) → i ≤ j
        → j + 1 < i + suc n
        → response j ≢ kbd_ack
    earlier i n response ne before j ge lt = elim (Bool-cases (j == i)) [
      | inl e ↦ ground arith
      | inr e ↦ before j (ground arith) (omega arith)
    ]

    ending :
        (rounds i n : ℕ) (response : ℕ → ℕ)
        → (n ≡ rounds) ⊎ ((m : ℕ) × (n ≡ suc m) × (response (i + 1 + m) ≡ kbd_ack))
        → (suc n ≡ suc rounds) ⊎ ((m : ℕ) × (suc n ≡ suc m) × (response (i + m) ≡ kbd_ack))
    ending rounds i n response (inl e) = inl (ap suc e)
    ending rounds i n response (inr (m, e, a)) =
        let at : i + suc m ≡ i + 1 + m = omega arith in inr (suc m, ap suc e, ap response at ∙ a)

-- The command and its argument are sent until they are acknowledged, and at most three times.
pub kbd_cmd-Sent :
    (cmd arg : ℕ) (response : ℕ → ℕ)
    → (n : ℕ) × (kbd_cmd cmd arg response ≡ repeated n cmd arg) × Sent 3 0 response n
unfolding kbd_cmd
kbd_cmd-Sent cmd arg response = send-Sent 3 0 cmd arg response
