-- ===== src/HostCall/Window.antt =====
-- A call writes the guest's memory inside the window of its response and nowhere else.
use pulse_esp32_host.Base.{
  ℕ, ◌+◌, ◌≤◌, ◌≡◌, List, Option, none, some, Result, ok, err, wdc_ok, length, get_or, arith,
}
use pulse_esp32_host.HostCall.Opcode.{Opcode}
use pulse_esp32_host.HostCall.Memory.{GuestMemory, memory_of, validate_range}

-- The pointer and the length lie in the memory.
pub validate_range-In :
    (m : Option GuestMemory) (ptr len : ℕ)
    → validate_range m ptr len ≡ wdc_ok
    → ptr + len ≤ length (memory_of m)
unfolding validate_range
validate_range-In none ptr len h = absurd (ground arith)
validate_range-In (some m) ptr len h = in_base m.base h
  where
    in_base :
        (b : Option (List ℕ))
        → validate_range (some (record m { base = b })) ptr len ≡ wdc_ok
        → ptr + len ≤ length (memory_of (some (record m { base = b })))
    in_base none h = absurd (ground arith)
    in_base (some mem) h = ground arith

-- The memory has its length and the byte at the index as before.
abbrev pub Untouched : List ℕ → ℕ → List ℕ → Type 0
Untouched mem index after =
    (length after ≡ length mem) × (get_or after index 0 ≡ get_or mem index 0)

-- What a call may answer, with what it does to the memory. Nothing is said of the memory where a
-- handler failed, but a call that answers a response always gives a memory.
abbrev pub InWindow : List ℕ → ℕ → ℕ → Result ℕ → Option (List ℕ) → Type 0
InWindow mem rsp_cap index (ok n) (some after) = (n ≤ rsp_cap) × Untouched mem index after
InWindow mem rsp_cap index (ok n) none = ⊥
InWindow mem rsp_cap index (err e) (some after) = Untouched mem index after
InWindow mem rsp_cap index (err e) none = Unit
