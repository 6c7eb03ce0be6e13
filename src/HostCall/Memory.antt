-- ===== src/HostCall/Memory.antt =====
-- wdc_guest_memory_validate_range and wdc_host_call_from_guest_memory: a call whose request and
-- response lie in the memory of the guest. Every handler reads its request before it writes the
-- response, so the two may overlap. A handler that fails may have written a part of a response, so
-- the memory after it is not described.
use pulse_esp32_host.Base.{
  ℕ, ◌+◌, ◌-◌, Bool, true, false, not, ◌||◌, ◌&&◌, List, [], ◌++◌, Option, none, some, Result,
  Status, ok, err, wdc_ok, bad_length, bad_pointer, ltb, leb, ◌==◌, if◌then◌else◌, length, take,
  drop,
}
use pulse_esp32_host.HostCall.Opcode.{Opcode}
use pulse_esp32_host.HostCall.Handlers.{Hooks, State, Reply}
use pulse_esp32_host.HostCall.Dispatch.{given, dispatch}

-- `base` is the memory with its length; `none` is a NULL base.
pub record GuestMemory : Type 0 where
  pub base : Option (List ℕ)
  pub max_request_bytes : ℕ
  pub max_response_bytes : ℕ

-- On WDC_OK the native pointer is the guest's, counted from the base.
abbrev pub range_in : List ℕ → ℕ → ℕ → Status
range_in mem ptr len =
    if len == 0
    then (if ltb (length mem) ptr then err bad_pointer else wdc_ok)
    else if leb (length mem) ptr || ltb (length mem - ptr) len
    then err bad_pointer
    else wdc_ok

abbrev base_range : Option (List ℕ) → ℕ → ℕ → Status
base_range none ptr len = err bad_pointer
base_range (some mem) ptr len = range_in mem ptr len

unfoldable pub validate_range : Option GuestMemory → ℕ → ℕ → Status
validate_range none ptr len = err bad_pointer
validate_range (some m) ptr len = base_range m.base ptr len

abbrev pub memory_of : Option GuestMemory → List ℕ
memory_of none = []
memory_of (some m) = elem m.base
  where
    elem : Option (List ℕ) → List ℕ
    elem none = []
    elem (some mem) = mem

-- The memory after `xs` was written from `ptr` on.
abbrev pub splice : List ℕ → ℕ → List ℕ → List ℕ
splice mem ptr xs = take ptr mem ++ (xs ++ drop (ptr + length xs) mem)

abbrev over : ℕ → ℕ → Bool
over limit n = not (limit == 0) && ltb limit n

abbrev over_request : Option GuestMemory → ℕ → Bool
over_request none n = false
over_request (some m) n = over m.max_request_bytes n

abbrev over_response : Option GuestMemory → ℕ → Bool
over_response none n = false
over_response (some m) n = over m.max_response_bytes n

module _ {W : Type 0} (hooks : Hooks W) where
  -- The length of the response, the memory, or `none` where a handler failed on it, and the state
  -- after the call.
  abbrev pub GuestReply : Type 0
  GuestReply = Result ℕ × Option (List ℕ) × State hooks

  abbrev pub write_response : List ℕ → ℕ → Reply hooks → GuestReply
  write_response mem rsp_ptr (ok rsp, s) = (ok (length rsp), some (splice mem rsp_ptr rsp), s)
  write_response mem rsp_ptr (err e, s) = (err e, none, s)

  unfoldable pub from_guest_memory :
      Option GuestMemory → Opcode → ℕ → ℕ → ℕ → ℕ → State hooks → GuestReply
  unfolding validate_range dispatch
  from_guest_memory memory opcode req_ptr req_len rsp_ptr rsp_cap s =
      let mem = memory_of memory in
      if ltb s.host.limits.max_request_bytes req_len || ltb s.host.limits.max_response_bytes rsp_cap
      then (err bad_length, some mem, s)
      else if over_request memory req_len
      then (err bad_length, some mem, s)
      else if over_response memory rsp_cap
      then (err bad_length, some mem, s)
      else elim (validate_range memory req_ptr req_len) [
        | err e ↦ (err e, some mem, s)
        | ok u ↦ elim (validate_range memory rsp_ptr rsp_cap) [
          | err e ↦ (err e, some mem, s)
          | ok u' ↦
              write_response mem rsp_ptr
                (dispatch hooks opcode (given (take req_len (drop req_ptr mem))) true rsp_cap s)
        ]
      ]
