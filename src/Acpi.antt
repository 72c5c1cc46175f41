-- ===== src/Acpi.antt =====
-- Finding the firmware's tables, src/kernel/acpi.c. What it logs is left out.
pub mod Search
use dar_os.Base.{
  ℕ, zero, suc, ◌+◌, ◌-◌, ◌*◌, ◌/◌, ◌%◌, ◌^◌, ◌==◌, ltb, Bool, true, false, if◌then◌else◌, Option,
  none, some, sub64, List, [], ◌∷◌,
}
use dar_os.Proc.Memory.{read_word, read_quad, write_word}

-- Characters as a number, the first in the lowest byte.
unfoldable pub packed : List ℕ → ℕ
packed [] = 0
packed (c ∷ s) = c + 256 * packed s

abbrev pub rsdp_sig : ℕ
rsdp_sig = packed (b'R' ∷ b'S' ∷ b'D' ∷ b' ' ∷ b'P' ∷ b'T' ∷ b'R' ∷ b' ' ∷ [])

-- Every sixteenth address from `p` on, `n` of them: the first with the signature.
unfoldable pub scan : (n p : ℕ) → (ℕ → ℕ) → Option ℕ
scan zero p ram = none
scan (suc n) p ram =
    let rest = scan n (p + 16) ram in if read_quad p ram == rsdp_sig then some p else rest

-- The bounds 0xa0000 and 0xfffff leave 0x2000 addresses each.
unfoldable pub find_rsdp : (ℕ → ℕ) → Option ℕ
find_rsdp ram = elim (scan 0x2000 0x80000 ram) [ none ↦ scan 0x2000 0xe0000 ram | some p ↦ some p ]

-- `n` bytes added up in a byte.
unfoldable pub sum_bytes : (n p : ℕ) → (ℕ → ℕ) → ℕ
sum_bytes zero p ram = 0
sum_bytes (suc n) p ram = (ram p + sum_bytes n (p + 1) ram) % 256

-- The tables of which the kernel keeps the address, 0 if there is none.
pub record Tables : Type 0 where
  pub hpet : ℕ
  pub apic : ℕ
  pub facp : ℕ

-- A table, told by its signature.
unfoldable pub note_table : (table : ℕ) → (ℕ → ℕ) → Tables → Tables
note_table table ram t =
    let sig = read_word 4 table ram in
    record {
      hpet = if sig == packed (b'H' ∷ b'P' ∷ b'E' ∷ b'T' ∷ []) then table else t.hpet;
      apic = if sig == packed (b'A' ∷ b'P' ∷ b'I' ∷ b'C' ∷ []) then table else t.apic;
      facp = if sig == packed (b'F' ∷ b'A' ∷ b'C' ∷ b'P' ∷ []) then table else t.facp;
    }

-- The addresses, of four bytes each, from `p` on.
unfoldable pub note_tables : (n p : ℕ) → (ℕ → ℕ) → Tables → Tables
note_tables zero p ram t = t
note_tables (suc n) p ram t = note_tables n (p + 4) ram (note_table (read_word 4 p ram) ram t)

-- How `parse_acpi_tables` ends: `block` is where the table HPET says that the timer's registers are, none without one.
pub data Parsed : Type 0 where
  no_rsdp : Parsed
  bad_rsdp : Parsed
  bad_signature : Parsed
  bad_rsdt : Parsed
  parsed : (tables : Tables) → (block : Option ℕ) → Parsed

abbrev pub no_tables : Tables
no_tables = record { hpet = 0; apic = 0; facp = 0 }

-- The table of tables at an address.
unfoldable pub parse_rsdt : (rsdt : ℕ) → (ℕ → ℕ) → Parsed
parse_rsdt rsdt ram =
    let len = read_word 4 (rsdt + 4) ram in
    let t = note_tables ((len + 2 ^ 32 - 36) % 2 ^ 32 / 4) (rsdt + 36) ram no_tables in
    if read_word 4 rsdt ram == packed (b'R' ∷ b'S' ∷ b'D' ∷ b'T' ∷ [])
    then if sum_bytes len rsdt ram == 0
      then parsed t (if t.hpet == 0 then none else some (read_quad (t.hpet + 44) ram))
      else bad_rsdt
    else bad_signature

-- From the address found.
unfoldable pub parse_rsdp : (ℕ → ℕ) → Option ℕ → Parsed
parse_rsdp ram none = no_rsdp
parse_rsdp ram (some p) =
    if sum_bytes 20 p ram == 0 then parse_rsdt (read_word 4 (p + 16) ram) ram else bad_rsdp

unfoldable pub parse_acpi_tables : (ℕ → ℕ) → Parsed
parse_acpi_tables ram = parse_rsdp ram (find_rsdp ram)
