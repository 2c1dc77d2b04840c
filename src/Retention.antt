-- ===== src/Retention.antt =====
-- The flags of an association response that the adapter gives from its stored copy: answerRetention
-- of pfcp/util.go. The flags are a byte.
pub mod Flags
mod Tests
use Prim.Native.Nat.{bit_and, bit_or}
use upfadapter.Prelude.{ℕ, ◌-◌, ◌==◌, Bool, Option, none, some, if◌then◌else◌}
use upfadapter.Elements.{Elements}

abbrev pub psrei : ℕ
psrei = 0x01

-- The stored flags, where there are any to keep.
abbrev pub stored_flags : Option (Option ℕ) → ℕ
stored_flags none = 0
stored_flags (some none) = 0
stored_flags (some (some f)) = f

-- `&^=` and `|=` on the byte.
pub cleared_and_set : ℕ → Bool → ℕ
cleared_and_set flags asked =
    let cleared = bit_and flags (0xFF - psrei) in if asked then bit_or cleared psrei else cleared

-- The flags of the answer, or none.
pub retained_flags : Option (Option ℕ) → Bool → Option ℕ
retained_flags stored asked =
    let flags = cleared_and_set (stored_flags stored) asked in
    if flags == 0 then none else some flags

-- answerRetention
pub answer_retention : {M : Type 0} ⦃elements : Elements M⦄ → M → M → M
answer_retention ⦃elements⦄ rsp req =
    elements.set_asrsp_flags
      (retained_flags (elements.asrsp_flags rsp) (elements.asks_retention req)) rsp
