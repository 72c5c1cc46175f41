-- ===== src/Idt/Vectors.antt =====
-- Which handler each vector has once `init_interrupts` of src/kernel/interrupt.c is done.
use dar_os.Base.{
  ℕ, zero, suc, ◌+◌, ◌*◌, ◌<◌, ◌≤◌, ◌^◌, ◌≡◌, ◌≢◌, ap, ◌∙◌, sym, subst, ◌==◌, ltb, true,
  if◌then◌else◌, Option, none, some, List, [], ◌∷◌, arith, Bool-cases, inl, inr, ◌⊎◌, ◌/◌,
}
use dar_os.Idt.{
  set_handler, gate_offset, gate_flags, is_present, level, gate_type, type_int, offset-set,
  flags-set, frame-set,
}
use dar_os.Idt.Table.{
  Handler, default_pic_p, default_pic_s, default_interrupt, singles, set_range, set_all, init_table,
}
use dar_os.Idt.Last.{
  handler_of, last_of, singles-exception, singles-primary, singles-secondary, singles-default,
}

-- A vector has a gate for a handler: it is present, an interrupt gate with the handler's address, and for level 3 exactly if it is
-- that of the system calls.
pub record Gate (address : Handler → ℕ) (idt : ℕ → ℕ) (v : ℕ) (h : Handler) : Type 0 where
  pub offset : gate_offset idt v ≡ address h
  pub present : is_present (gate_flags idt v) ≡ true
  pub level_of : level (gate_flags idt v) ≡ (if v == 0x80 then 3 else 0)
  pub type_of : gate_type (gate_flags idt v) ≡ type_int

module _ (address : Handler → ℕ) (small : (h : Handler) → address h < 2 ^ 64) where
  set_handler-same :
      (v : ℕ) (h : Handler) (idt : ℕ → ℕ)
      → Gate address (set_handler v (address h) type_int idt) v h
  set_handler-same v h idt =
      let f = flags-set v (address h) idt in
      record {
        offset = offset-set v (address h) type_int idt (small h);
        present = ground arith;
        level_of = ground arith;
        type_of = ground arith;
      }

  set_handler-other :
      (u v : ℕ) (h g : Handler) (idt : ℕ → ℕ)
      → v ≢ u
      → Gate address idt v g
      → Gate address (set_handler u (address h) type_int idt) v g
  unfolding gate_offset gate_flags
  set_handler-other u v h g idt ne b =
      let idt' = set_handler u (address h) type_int idt in
      let same : (k : ℕ) → k / 8 ≡ v → idt' k ≡ idt k =
        λ k at. frame-set u (address h) type_int idt k (λ e. ne (sym at ∙ e)) in
      let e = 8 * v in
      let first = same e (omega arith) in
      let flags = same (e + 2) (omega arith) in
      let second = same (e + 3) (omega arith) in
      let third = same (e + 4) (omega arith) in
      let fourth = same (e + 5) (omega arith) in
      record {
        offset = omega (arith, first, second, third, fourth, b.offset);
        present = ap is_present flags ∙ b.present;
        level_of = ap level flags ∙ b.level_of;
        type_of = ap gate_type flags ∙ b.type_of;
      }

  unfoldable Gated : (ℕ → ℕ) → ℕ → Option Handler → Type 0
  Gated idt v none = Unit
  Gated idt v (some h) = Gate address idt v h

  other-Gated :
      (u v : ℕ) (h : Handler) (o : Option Handler) (idt : ℕ → ℕ)
      → v ≢ u
      → Gated idt v o
      → Gated (set_handler u (address h) type_int idt) v o
  unfolding Gated
  other-Gated u v h none idt ne b = tt
  other-Gated u v h (some g) idt ne b = set_handler-other u v h g idt ne b

  set_handler-Gated :
      (u v : ℕ) (h : Handler) (o : Option Handler) (idt : ℕ → ℕ)
      → Gated idt v o
      → Gated (set_handler u (address h) type_int idt) v (if v == u then some h else o)
  unfolding Gated
  set_handler-Gated u v h o idt b = elim (Bool-cases (v == u)) [
    | inl e ↦
        let at : v ≡ u = ground arith in
        rw e (
          subst (λ w. Gate address (set_handler u (address h) type_int idt) w h) (sym at)
            (set_handler-same u h idt))
    | inr ne ↦ rw ne (other-Gated u v h o idt (ground arith) b)
  ]

  set_all-Gated :
      (hs : List (ℕ × Handler)) (v : ℕ) (o : Option Handler) (idt : ℕ → ℕ)
      → Gated idt v o
      → Gated (set_all address hs idt) v (last_of hs v o)
  unfolding set_all last_of
  set_all-Gated [] v o idt b = b
  set_all-Gated ((u, h) ∷ hs) v o idt b =
      set_all-Gated hs v (if v == u then some h else o) (set_handler u (address h) type_int idt)
        (set_handler-Gated u v h o idt b)

  -- A loop keeps the gates behind and below its vectors,
  set_range-other :
      (n u v : ℕ) (h g : Handler) (idt : ℕ → ℕ)
      → (v < u) ⊎ (u + n ≤ v)
      → Gate address idt v g
      → Gate address (set_range address n u h idt) v g
  unfolding set_range
  set_range-other zero u v h g idt out b = b
  set_range-other (suc n) u v h g idt out b =
      let ne : v ≢ u = ground arith in
      let out' : (v < u + 1) ⊎ (u + 1 + n ≤ v) = ground arith in
      set_range-other n (u + 1) v h g (set_handler u (address h) type_int idt) out'
        (set_handler-other u v h g idt ne b)

  -- and sets those of its vectors.
  set_range-same :
      (n u v : ℕ) (h : Handler) (idt : ℕ → ℕ)
      → u ≤ v
      → v < u + n
      → Gate address (set_range address n u h idt) v h
  unfolding set_range
  set_range-same zero u v h idt ge lt = absurd (omega arith)
  set_range-same (suc n) u v h idt ge lt = elim (Bool-cases (v == u)) [
    | inl e ↦
        let at : v ≡ u = ground arith in
        let idt' = set_handler u (address h) type_int idt in
        set_range-other n (u + 1) v h h idt' (inl (omega arith))
          (subst (λ w. Gate address idt' w h) (sym at) (set_handler-same u h idt))
    | inr ne ↦
        set_range-same n (u + 1) v h (set_handler u (address h) type_int idt) (ground arith)
          (omega arith)
  ]

  set_singles :
      (v : ℕ) (o : Option Handler) (idt : ℕ → ℕ)
      → last_of singles v o ≡ some (handler_of v)
      → Gated idt v o
      → Gate address (set_all address singles idt) v (handler_of v)
  unfolding Gated
  set_singles v o idt e b =
      subst (Gated (set_all address singles idt) v) e (set_all-Gated singles v o idt b)

  -- Each of the 256 vectors has a present gate with its handler's address: an exception its own one, with an error code or
  -- without, the timer, the keyboard and the clock theirs, the system calls theirs, which alone may be called from level 3,
  -- and the others the default one of their kind. The handlers' addresses are of 64 bits.
  pub init_table-Gate :
      (idt : ℕ → ℕ) (v : ℕ) → v < 256 → Gate address (init_table address idt) v (handler_of v)
  unfolding init_table Gated
  init_table-Gate idt v lt =
      let primary = set_range address 8 32 default_pic_p idt in
      let secondary = set_range address 8 40 default_pic_s primary in
      let all = set_range address 208 48 default_interrupt secondary in
      elim (Bool-cases (ltb v 32)) [
        | inl e ↦ set_singles v none all (singles-exception v (ground arith)) tt
        | inr e32 ↦ elim (Bool-cases (ltb v 40)) [
          | inl e ↦
              set_singles v (some default_pic_p) all
                (singles-primary v (ground arith) (ground arith))
                (set_range-other 208 48 v default_interrupt default_pic_p secondary
                  (inl (ground arith))
                  (set_range-other 8 40 v default_pic_s default_pic_p primary (inl (ground arith))
                    (set_range-same 8 32 v default_pic_p idt (ground arith) (ground arith))))
          | inr e40 ↦ elim (Bool-cases (ltb v 48)) [
            | inl e ↦
                set_singles v (some default_pic_s) all
                  (singles-secondary v (ground arith) (ground arith))
                  (set_range-other 208 48 v default_interrupt default_pic_s secondary
                    (inl (ground arith))
                    (set_range-same 8 40 v default_pic_s primary (ground arith) (ground arith)))
            | inr e48 ↦
                set_singles v (some default_interrupt) all (singles-default v (ground arith))
                  (set_range-same 208 48 v default_interrupt secondary (ground arith) (omega arith))
          ]
        ]
      ]
