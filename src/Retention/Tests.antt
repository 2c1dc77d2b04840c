-- ===== src/Retention/Tests.antt =====
-- The flags of answers from the stored copy, and the theorem about them, at concrete bytes.
use upfadapter.Prelude.{◌/◌, ◌%◌, ◌≡◌, ◌≢◌, refl, true, false, none, some, arith}
use upfadapter.Retention.{stored_flags, cleared_and_set, retained_flags}
use upfadapter.Retention.Flags.{byte_of, retained_flags_bits}

program : Unit {0}
unfolding retained_flags cleared_and_set
program = tt

not_asked : retained_flags (some (some 0x05)) false ≡ some 0x04
unfolding program
not_asked = refl

unreadable : retained_flags (some none) true ≡ some 0x01
unfolding program
unreadable = refl

left_out : retained_flags (some (some 0x01)) false ≡ none
unfolding program
left_out = refl

retained_flags_bits_example :
    (byte_of (retained_flags (some (some 0x04)) true) % 2 ≡ 1)
    × (byte_of (retained_flags (some (some 0x04)) true) / 2 ≡ stored_flags (some (some 0x04)) / 2)
    × (retained_flags (some (some 0x04)) true ≢ some 0)
retained_flags_bits_example = retained_flags_bits (some (some 0x04)) true (omega arith)
