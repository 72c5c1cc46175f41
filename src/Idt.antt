-- ===== src/Idt.antt =====
-- The entries of the interrupt descriptor table that `set_handler` of src/kernel/interrupt.c writes.
pub mod Table
pub mod Last
pub mod Vectors
mod Tests
use Prim.Native.Nat.{bit_or}
use dar_os.Base.{
  ℕ, ◌+◌, ◌*◌, ◌/◌, ◌%◌, ◌^◌, ◌<◌, ◌≡◌, ◌≢◌, refl, Bool, true, false, ◌==◌, if◌then◌else◌, write,
  arith, Bool-cases, inl, inr,
}

abbrev code_seg : ℕ
code_seg = 8

abbrev pub type_int : ℕ
type_int = 14

-- The table in words of 16 bits, eight for a vector; the 32-bit stores are two words each.
unfoldable pub set_handler : (vec handler type : ℕ) → (ℕ → ℕ) → ℕ → ℕ
set_handler vec handler type idt =
    let e = 8 * vec in
    let ring = if vec == 0x80 then 3 * 2 ^ 13 else 0 in
    let idt0 = write idt e (handler % 2 ^ 16) in
    let idt1 = write idt0 (e + 3) (handler / 2 ^ 16 % 2 ^ 16) in
    let idt2 = write idt1 (e + 4) (handler / 2 ^ 32 % 2 ^ 16) in
    let idt3 = write idt2 (e + 5) (handler / 2 ^ 48 % 2 ^ 16) in
    let idt4 = write idt3 (e + 2) (bit_or (bit_or (2 ^ 15) (type * 2 ^ 8)) ring % 2 ^ 16) in
    let idt5 = write idt4 (e + 1) code_seg in
    let idt6 = write idt5 (e + 6) 0 in write idt6 (e + 7) 0

-- How the processor reads a gate: the handler's address, whether it is present, the privilege level
-- that may call it, and its type.
unfoldable pub gate_offset : (ℕ → ℕ) → ℕ → ℕ
gate_offset idt vec =
    let e = 8 * vec in idt e + idt (e + 3) * 2 ^ 16 + idt (e + 4) * 2 ^ 32 + idt (e + 5) * 2 ^ 48

unfoldable pub gate_flags : (ℕ → ℕ) → ℕ → ℕ
gate_flags idt vec = idt (8 * vec + 2)

abbrev pub is_present : ℕ → Bool
is_present flags = flags / 2 ^ 15 == 1

abbrev pub level : ℕ → ℕ
level flags = flags / 2 ^ 13 % 4

abbrev pub gate_type : ℕ → ℕ
gate_type flags = flags / 2 ^ 8 % 16

pub offset-set :
    (vec handler type : ℕ) (idt : ℕ → ℕ)
    → handler < 2 ^ 64
    → gate_offset (set_handler vec handler type idt) vec ≡ handler
unfolding gate_offset set_handler
offset-set vec handler type idt lt = ground arith

-- The flags of an interrupt gate: 0x8e00, and 0xee00 for the system calls.
pub flags-set :
    (vec handler : ℕ) (idt : ℕ → ℕ)
    → gate_flags (set_handler vec handler type_int idt) vec
      ≡ (if vec == 0x80 then 0xee00 else 0x8e00)
unfolding gate_flags set_handler
flags-set vec handler idt = elim (Bool-cases (vec == 0x80)) [
  | inl e ↦ ground arith
  | inr e ↦ ground arith
]

pub frame-set :
    (vec handler type : ℕ) (idt : ℕ → ℕ) (k : ℕ)
    → k / 8 ≢ vec
    → set_handler vec handler type idt k ≡ idt k
unfolding set_handler
frame-set vec handler type idt k ne = ground arith

-- After `set_handler` with an interrupt gate the vector's gate is present, has that type and the handler's
-- address of 64 bits, and may be called from level 3 exactly if it is 0x80, that of the system calls; a
-- word of another vector's gate is as it was.
pub set_handler-gate :
    (vec handler : ℕ) (idt : ℕ → ℕ) (k : ℕ)
    → handler < 2 ^ 64
    → k / 8 ≢ vec
    → let idt' = set_handler vec handler type_int idt in
      let flags = gate_flags idt' vec in
      (gate_offset idt' vec ≡ handler)
      × (is_present flags ≡ true)
      × (level flags ≡ (if vec == 0x80 then 3 else 0))
      × (gate_type flags ≡ type_int)
      × (idt' k ≡ idt k)
set_handler-gate vec handler idt k lt ne =
    let f = flags-set vec handler idt in
    (
      offset-set vec handler type_int idt lt,
      ground arith,
      ground arith,
      ground arith,
      frame-set vec handler type_int idt k ne,
    )
