-- ===== src/Target/Runs.antt =====
-- Targets at concrete compact values.
use fastrie.Base.{◌*◌, ◌/◌, ◌%◌, ◌^◌, ◌≡◌, refl, test_bit, ◌==◌, if◌then◌else◌, arith}
use fastrie.Target.Compact.{target_from_compact, shift_bytes, shift_byte, shift_word}
use fastrie.Target.Value.{IsTarget, value, compact_value, target_from_compact_lem}

-- Bitcoin's first difficulty.
first_target : value (target_from_compact 0x1d00ffff) ≡ 0xffff * 2 ^ 208
unfolding value target_from_compact test_bit shift_bytes shift_byte shift_word
first_target = refl

target_from_compact_lem_example :
    IsTarget (target_from_compact 0x1d00ffff)
    × (value (target_from_compact 0x1d00ffff) ≡ (
        if test_bit 0x1d00ffff 23 == 1
        then 0
        else compact_value (0x1d00ffff / 2 ^ 24) (0x1d00ffff % 2 ^ 23) % 2 ^ 256))
target_from_compact_lem_example = target_from_compact_lem 0x1d00ffff (omega arith)
