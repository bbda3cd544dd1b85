-- ===== src/LogWal/Crc.antt =====
-- `crc32c` of lib/pyroduct/src/format/log_wal.rs, on 32-bit words.
use Prim.Native.Nat.{bit_and, bit_xor}
use pyroduct.Base.{ℕ, zero, suc, ◌-◌, ◌/◌, ◌^◌, List, [], ◌∷◌, ◌==◌, if◌then◌else◌, arith}
use pyroduct.Base.Bytes.{IsU32}

-- One of the eight rounds for a byte.
crc_round : ℕ → ℕ
crc_round crc = if bit_and crc 1 == 0 then crc / 2 else bit_xor (crc / 2) 0x82F63B78

crc_rounds : ℕ → ℕ → ℕ
crc_rounds zero crc = crc
crc_rounds (suc n) crc = crc_rounds n (crc_round crc)

crc_bytes : ℕ → List ℕ → ℕ
crc_bytes crc [] = crc
crc_bytes crc (byte ∷ data_left) = crc_bytes (crc_rounds 8 (bit_xor crc byte)) data_left

-- `!crc` turns every bit of the word.
unfoldable pub crc32c : List ℕ → ℕ
unfolding crc_bytes crc_rounds crc_round
crc32c bytes = 2 ^ 32 - 1 - crc_bytes 0xFFFFFFFF bytes

pub crc32c-IsU32 : (bytes : List ℕ) → IsU32 (crc32c bytes)
unfolding crc32c
crc32c-IsU32 bytes = omega arith
