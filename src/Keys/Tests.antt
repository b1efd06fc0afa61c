-- ===== src/Keys/Tests.antt =====
-- The hash on the standard check input of CRC-32, and the witness.
use sindri.Prelude.{◌≡◌, refl}
use sindri.Keys.{slot_for_key}

-- CRC-32("123456789") is 0xcbf43926.
check_value : slot_for_key "123456789" ≡ 14630
unfolding slot_for_key
check_value = refl
