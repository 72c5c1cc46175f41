-- ===== src/Acpi/Search.antt =====
-- The search of src/kernel/acpi.c, and what must hold of the tables that it parses.
use dar_os.Base.{
  ℕ, zero, suc, ◌+◌, ◌*◌, ◌<◌, ◌≡◌, ◌≢◌, ◌⊎◌, inl, inr, refl, ap, ◌∙◌, sym, subst, ◌==◌, true,
  false, Option, none, some, [], ◌∷◌, arith, Bool-cases, Option-cases,
}
use dar_os.Proc.Memory.{read_word, read_quad}
use dar_os.Acpi.{
  packed, rsdp_sig, scan, find_rsdp, sum_bytes, Tables, parsed, no_rsdp, bad_rsdp, bad_signature,
  bad_rsdt, parse_rsdt, parse_rsdp, parse_acpi_tables,
}

-- None of `n` addresses, sixteen apart, has the signature.
unfoldable pub NoSig : (n p : ℕ) → (ℕ → ℕ) → Type 0
NoSig zero p ram = Unit
NoSig (suc n) p ram = (read_quad p ram ≢ rsdp_sig) × NoSig n (p + 16) ram

-- The first of them that has it, or none.
unfoldable pub FirstOf : (n p : ℕ) → (ℕ → ℕ) → Option ℕ → Type 0
FirstOf n p ram none = NoSig n p ram
FirstOf n p ram (some q) =
    (i : ℕ) × (i < n) × (q ≡ p + 16 * i) × (read_quad q ram ≡ rsdp_sig) × NoSig i p ram

scan-here :
    (n p : ℕ) (ram : ℕ → ℕ) → (read_quad p ram == rsdp_sig) ≡ true → scan (suc n) p ram ≡ some p
unfolding scan
scan-here n p ram e = rw e refl

scan-on :
    (n p : ℕ) (ram : ℕ → ℕ)
    → (read_quad p ram == rsdp_sig) ≡ false
    → scan (suc n) p ram ≡ scan n (p + 16) ram
unfolding scan
scan-on n p ram e = rw e refl

behind :
    (n p : ℕ) (ram : ℕ → ℕ) (o : Option ℕ)
    → read_quad p ram ≢ rsdp_sig
    → FirstOf n (p + 16) ram o
    → FirstOf (suc n) p ram o
unfolding FirstOf NoSig
behind n p ram none ne f = (ne, f)
behind n p ram (some q) ne (i, lt, at, sig, before) =
    (suc i, omega arith, omega arith, sig, (ne, before))

scan-FirstOf : (n p : ℕ) (ram : ℕ → ℕ) → FirstOf n p ram (scan n p ram)
unfolding scan FirstOf NoSig
scan-FirstOf zero p ram = tt
scan-FirstOf (suc n) p ram = elim (Bool-cases (read_quad p ram == rsdp_sig)) [
  | inl e ↦
      subst (FirstOf (suc n) p ram) (sym (scan-here n p ram e))
        (0, omega arith, omega arith, ground arith, tt)
  | inr e ↦
      subst (FirstOf (suc n) p ram) (sym (scan-on n p ram e))
        (behind n p ram (scan n (p + 16) ram) (ground arith) (scan-FirstOf n (p + 16) ram))
]

-- The address that is found is the first, in the two areas that are searched, at a multiple of 16 from their start, that has
-- the signature; if none is found no such address has it.
unfoldable pub RsdpAt : (ℕ → ℕ) → Option ℕ → Type 0
RsdpAt ram none = NoSig 0x2000 0x80000 ram × NoSig 0x2000 0xe0000 ram
RsdpAt ram (some p) =
    FirstOf 0x2000 0x80000 ram (some p)
    ⊎ (NoSig 0x2000 0x80000 ram × FirstOf 0x2000 0xe0000 ram (some p))

find_from :
    (ram : ℕ → ℕ) (first second : Option ℕ)
    → FirstOf 0x2000 0x80000 ram first
    → FirstOf 0x2000 0xe0000 ram second
    → RsdpAt ram (elim first [ none ↦ second | some p ↦ some p ])
unfolding RsdpAt FirstOf
find_from ram (some p) second a b = inl a
find_from ram none none a b = (a, b)
find_from ram none (some p) a b = inr (a, b)

pub find_rsdp-RsdpAt : (ram : ℕ → ℕ) → RsdpAt ram (find_rsdp ram)
unfolding find_rsdp
find_rsdp-RsdpAt ram =
    find_from ram (scan 0x2000 0x80000 ram) (scan 0x2000 0xe0000 ram)
      (scan-FirstOf 0x2000 0x80000 ram) (scan-FirstOf 0x2000 0xe0000 ram)

-- What must hold of the memory for tables to be taken from it.
pub record Sound (ram : ℕ → ℕ) (p : ℕ) : Type 0 where
  pub found : find_rsdp ram ≡ some p
  pub rsdp_sum : sum_bytes 20 p ram ≡ 0
  pub signature :
      read_word 4 (read_word 4 (p + 16) ram) ram ≡ packed (b'R' ∷ b'S' ∷ b'D' ∷ b'T' ∷ [])
  pub rsdt_sum :
      let rsdt = read_word 4 (p + 16) ram in sum_bytes (read_word 4 (rsdt + 4) ram) rsdt ram ≡ 0

-- The cases of the table of tables.
rsdt-bad_sig :
    (rsdt : ℕ) (ram : ℕ → ℕ)
    → (read_word 4 rsdt ram == packed (b'R' ∷ b'S' ∷ b'D' ∷ b'T' ∷ [])) ≡ false
    → parse_rsdt rsdt ram ≡ bad_signature
unfolding parse_rsdt
rsdt-bad_sig rsdt ram e = rw e refl

rsdt-bad_sum :
    (rsdt : ℕ) (ram : ℕ → ℕ)
    → (read_word 4 rsdt ram == packed (b'R' ∷ b'S' ∷ b'D' ∷ b'T' ∷ [])) ≡ true
    → (sum_bytes (read_word 4 (rsdt + 4) ram) rsdt ram == 0) ≡ false
    → parse_rsdt rsdt ram ≡ bad_rsdt
unfolding parse_rsdt
rsdt-bad_sum rsdt ram e z = rw (e, z) refl

parse-none : (ram : ℕ → ℕ) → find_rsdp ram ≡ none → parse_acpi_tables ram ≡ no_rsdp
unfolding parse_acpi_tables parse_rsdp
parse-none ram e = ap (parse_rsdp ram) e

parse-bad :
    (ram : ℕ → ℕ) (p : ℕ)
    → find_rsdp ram ≡ some p
    → (sum_bytes 20 p ram == 0) ≡ false
    → parse_acpi_tables ram ≡ bad_rsdp
unfolding parse_acpi_tables parse_rsdp
parse-bad ram p e z = ap (parse_rsdp ram) e ∙ rw z refl

parse-good :
    (ram : ℕ → ℕ) (p : ℕ)
    → find_rsdp ram ≡ some p
    → (sum_bytes 20 p ram == 0) ≡ true
    → parse_acpi_tables ram ≡ parse_rsdt (read_word 4 (p + 16) ram) ram
unfolding parse_acpi_tables parse_rsdp
parse-good ram p e z = ap (parse_rsdp ram) e ∙ rw z refl

rsdt-parsed :
    (rsdt : ℕ) (ram : ℕ → ℕ) (t : Tables) (b : Option ℕ)
    → parse_rsdt rsdt ram ≡ parsed t b
    → (read_word 4 rsdt ram ≡ packed (b'R' ∷ b'S' ∷ b'D' ∷ b'T' ∷ []))
      × (sum_bytes (read_word 4 (rsdt + 4) ram) rsdt ram ≡ 0)
rsdt-parsed rsdt ram t b e =
    let sig = read_word 4 rsdt ram in
    let sum = sum_bytes (read_word 4 (rsdt + 4) ram) rsdt ram in
    elim (Bool-cases (sig == packed (b'R' ∷ b'S' ∷ b'D' ∷ b'T' ∷ []))) [
      | inl s ↦ elim (Bool-cases (sum == 0)) [
        | inl z ↦ (ground arith, ground arith)
        | inr nz ↦ let bad = rsdt-bad_sum rsdt ram s nz in absurd cc
      ]
      | inr ns ↦ let bad = rsdt-bad_sig rsdt ram ns in absurd cc
    ]

-- Tables are taken only from memory in which the signatures are there and both sums are zero.
pub parse_acpi_tables-Sound :
    (ram : ℕ → ℕ) (t : Tables) (b : Option ℕ)
    → parse_acpi_tables ram ≡ parsed t b
    → (p : ℕ) × Sound ram p
parse_acpi_tables-Sound ram t b e = elim (Option-cases (find_rsdp ram)) [
  | inl n ↦ let bad = parse-none ram n in absurd cc
  | inr (p, at) ↦ elim (Bool-cases (sum_bytes 20 p ram == 0)) [
    | inl z ↦
        let same = parse-good ram p at z in
        let (sig, sum) = rsdt-parsed (read_word 4 (p + 16) ram) ram t b (sym same ∙ e) in
        (p, record { found = at; rsdp_sum = ground arith; signature = sig; rsdt_sum = sum })
    | inr nz ↦ let bad = parse-bad ram p at nz in absurd cc
  ]
]
