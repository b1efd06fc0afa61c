-- ===== src/Keys.antt =====
-- pkg/sequence/router.go, `SlotForKey`: a key's routing slot, by the CRC-32 of its UTF-8 bytes.
use Prim.Native.Nat.{bit_xor}
use Prim.Native.Char.{code}
use Prim.Native.String
use sindri.Prelude.{
  ℕ, zero, suc, ◌+◌, ◌-◌, ◌*◌, ◌/◌, ◌%◌, ◌≡◌, refl, ◌<◌, String, List, [], ◌∷◌, ◌++◌, ltb, ◌==◌,
  if◌then◌else◌, arith,
}
pub mod Tests

-- The UTF-8 bytes of a code point.
utf8 : ℕ → List ℕ
utf8 c =
    if ltb c 0x80
    then c ∷ []
    else if ltb c 0x800
    then (0xc0 + c / 64) ∷ (0x80 + c % 64) ∷ []
    else if ltb c 0x10000
    then (0xe0 + c / 4096) ∷ (0x80 + c / 64 % 64) ∷ (0x80 + c % 64) ∷ []
    else (0xf0 + c / 262144) ∷ (0x80 + c / 4096 % 64) ∷ (0x80 + c / 64 % 64) ∷ (0x80 + c % 64) ∷ []

unfoldable pub bytes : String → List ℕ
unfolding utf8
bytes String.[] = []
bytes (String.◌∷◌ c s) = utf8 (code c) ++ bytes s

-- An entry of crc32.MakeTable(crc32.IEEE): eight rounds of the reflected polynomial.
crc_round : ℕ → ℕ
crc_round crc = if crc % 2 == 1 then bit_xor (crc / 2) 0xedb88320 else crc / 2

crc_entry : ℕ → ℕ → ℕ
unfolding crc_round
crc_entry zero crc = crc
crc_entry (suc rounds) crc = crc_entry rounds (crc_round crc)

-- The loop over the bytes.
crc_loop : ℕ → List ℕ → ℕ
unfolding crc_entry
crc_loop crc [] = crc
crc_loop crc (b ∷ bs) = crc_loop (bit_xor (crc_entry 8 (bit_xor (crc % 256) b)) (crc / 256)) bs

abbrev pub slot_count : ℕ
slot_count = 16384

unfoldable pub slot_for_key : String → ℕ
unfolding bytes crc_loop
slot_for_key key = bit_xor (crc_loop 0xffffffff (bytes key)) 0xffffffff % slot_count
