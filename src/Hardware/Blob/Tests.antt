-- ===== src/Hardware/Blob/Tests.antt =====
-- The checksum of the standard test text, and a small configuration written and read back.
use iot_saas.Prelude.{ℕ, String, ◌≡◌, refl, ◌⊎◌, ◌<◌, ◌+◌, some, none, List, [], ◌∷◌, length, arith}
use iot_saas.Hardware.Blob.{
  crc32, encode_config_blob, read_config_blob, read_config_blob-encode_config_blob,
}

crc32_check : crc32 (b'1' ∷ b'2' ∷ b'3' ∷ b'4' ∷ b'5' ∷ b'6' ∷ b'7' ∷ b'8' ∷ b'9' ∷ []) ≡ 0xcbf43926
unfolding crc32
crc32_check = refl

abbrev braces : String → List ℕ
braces text = b'{' ∷ b'}' ∷ []

read_config_blob-encode_config_blob_example :
    ((32 < 16 + length (braces "{}")) × (encode_config_blob braces "{}" 32 ≡ none))
    ⊎ ((blob : List ℕ) × (encode_config_blob braces "{}" 32 ≡ some blob)
        × (length blob ≡ 32)
        × (read_config_blob blob ≡ some (braces "{}")))
read_config_blob-encode_config_blob_example =
    read_config_blob-encode_config_blob braces "{}" 32 (omega arith) (omega arith)
