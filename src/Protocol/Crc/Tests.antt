-- ===== src/Protocol/Crc/Tests.antt =====
-- The checksum on concrete bytes.
use sharak.Prelude.{ℕ, ◌≡◌, refl, arith, List, [], ◌∷◌, some}
use sharak.Protocol.Crc.{crc16_ccitt_false, crc_loop}
use sharak.Protocol.Crc.Fold.{crc_from, crc16-crc_of}

-- "123456789"
abbrev digits : List ℕ
digits = 0x31 ∷ 0x32 ∷ 0x33 ∷ 0x34 ∷ 0x35 ∷ 0x36 ∷ 0x37 ∷ 0x38 ∷ 0x39 ∷ []

-- The catalogue's check value.
check_value : crc16_ccitt_false (some digits) 9 ≡ some 0x29b1
unfolding crc16_ccitt_false crc_loop
check_value = refl

crc16-crc_of_example : crc16_ccitt_false (some digits) 9 ≡ some 0x29b1
unfolding crc_from
crc16-crc_of_example = crc16-crc_of digits 9 (omega arith)
