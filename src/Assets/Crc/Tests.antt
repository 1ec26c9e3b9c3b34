-- ===== src/Assets/Crc/Tests.antt =====
-- The check value of the polynomial.
use fissionplane.Prelude.{ℕ, arith, ◌≡◌, refl, ◌<◌, All, List, codes}
use fissionplane.Assets.Crc.{crc32, updates, update, crc_table, table_from, shifts, shift}
use fissionplane.Assets.Crc.Serial.{checksum, crc32-checksum}

abbrev digits : List ℕ
digits = codes "123456789"

check_value : crc32 digits ≡ 0xcbf43926
unfolding crc32 updates update crc_table table_from shifts shift
check_value = refl

digits_bytes : All (λ byte. byte < 256) digits
digits_bytes = ground arith

crc32-checksum_example : crc32 digits ≡ checksum digits
crc32-checksum_example = crc32-checksum digits digits_bytes
