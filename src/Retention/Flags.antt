-- ===== src/Retention/Flags.antt =====
-- The bits that answerRetention of pfcp/util.go leaves, checked at each byte.
use upfadapter.Prelude.{
  if◌then◌else◌, Bool-cases, ℕ_discrete, subst, inl, inr, ℕ, zero, suc, ◌+◌, ◌*◌, ◌/◌, ◌%◌, ◌<◌,
  ◌≡◌, ◌≢◌, refl, Bool, true, false, Option, none, some, ◌==◌, ==_iff, arith,
}
use upfadapter.Retention.{stored_flags, cleared_and_set, retained_flags}

abbrev one_if : Bool → ℕ
one_if asked = if asked then 1 else 0

-- The flags with their lowest bit as asked, by arithmetic.
abbrev by_division : Bool → ℕ → ℕ
by_division asked flags = 2 * (flags / 2) + one_if asked

-- That the two agree on the flags up to here.
agree_to : Bool → ℕ → Bool
agree_to asked zero = true
agree_to asked (suc flags) =
    let lower = agree_to asked flags in
    if cleared_and_set flags asked == by_division asked flags then lower else false

bytes_agree : (asked : Bool) → agree_to asked 256 ≡ true
unfolding agree_to cleared_and_set
bytes_agree false = refl
bytes_agree true = refl

agree_to-at :
    (asked : Bool) (bound flags : ℕ)
    → flags < bound
    → agree_to asked bound ≡ true
    → cleared_and_set flags asked ≡ by_division asked flags
unfolding agree_to
agree_to-at asked zero flags small agree = absurd (omega (arith, small))
agree_to-at asked (suc last) flags small agree =
    elim (Bool-cases (cleared_and_set last asked == by_division asked last)) [
      | inr differ ↦ absurd (ground (arith, agree, differ))
      | inl same ↦ elim (ℕ_discrete last flags) [
        | yes e ↦ subst (λ f. cleared_and_set f asked ≡ by_division asked f) e ((==_iff _ _).0 same)
        | no other ↦
            agree_to-at asked last flags (ground (arith, small, other))
              (ground (arith, agree, same))
      ]
    ]

-- The byte that an answer's flags stand for.
abbrev pub byte_of : Option ℕ → ℕ
byte_of none = 0
byte_of (some f) = f

-- Of stored flags that are a byte, the answer's flags have PSREI, the lowest bit, exactly if the
-- request asked for its sessions to be retained, and every other bit as stored; flags that are all
-- zero are left out.
pub retained_flags_bits :
    (stored : Option (Option ℕ)) (asked : Bool)
    → stored_flags stored < 256
    → (byte_of (retained_flags stored asked) % 2 ≡ one_if asked)
      × (byte_of (retained_flags stored asked) / 2 ≡ stored_flags stored / 2)
      × (retained_flags stored asked ≢ some 0)
unfolding retained_flags
retained_flags_bits stored asked h =
    let e = agree_to-at asked 256 (stored_flags stored) h (bytes_agree asked) in
    (ground (arith, e), ground (arith, e), ground (arith, e))
