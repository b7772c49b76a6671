-- ===== src/Crc16/Tests.antt =====
-- The checksum of concrete buffers.
use libext2fs.Prelude.{◌<◌, ◌^◌, [], ◌∷◌, ◌≡◌, ◌≢◌, refl, arith}
use libext2fs.Crc16.{crc16, crc16_table}
use libext2fs.Crc16.Polynomial.{crc16_def, crc16-eq-def}
use libext2fs.Crc16.Detect.{crc16_detects}

-- The check value of CRC-16/ARC: the ASCII digits 1 to 9, from 0.
check_value : crc16 0 (0x31 ∷ 0x32 ∷ 0x33 ∷ 0x34 ∷ 0x35 ∷ 0x36 ∷ 0x37 ∷ 0x38 ∷ 0x39 ∷ []) ≡ 0xBB3D
unfolding crc16 crc16_table
check_value = refl

crc16-eq-def_example :
    (crc16 0xffff (1 ∷ 2 ∷ 255 ∷ []) ≡ crc16_def 0xffff (1 ∷ 2 ∷ 255 ∷ []))
    × (crc16 0xffff (1 ∷ 2 ∷ 255 ∷ []) < 2 ^ 16)
crc16-eq-def_example = crc16-eq-def 0xffff (1 ∷ 2 ∷ 255 ∷ []) (omega arith) (omega arith)

crc16_detects_example : crc16 0xffff (1 ∷ 2 ∷ 3 ∷ []) ≢ crc16 0xffff (1 ∷ 7 ∷ 3 ∷ [])
crc16_detects_example =
    crc16_detects 0xffff (1 ∷ []) 2 7 (3 ∷ []) (omega arith) (omega arith) (omega arith)
      (omega arith)
