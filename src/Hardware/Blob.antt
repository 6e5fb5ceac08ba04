-- ===== src/Hardware/Blob.antt =====
-- The configuration that the flasher writes to a board (frontend/src/lib/hardware/config-blob.ts), as
-- bytes. `utf8` is TextEncoder, and the configuration stands here as its JSON text.
mod Tests
use Prim.Native.Nat.{bit_and, bit_xor}
use iot_saas.Prelude.{
  ◌⊎◌, ℕ, zero, suc, ◌+◌, ◌-◌, ◌*◌, ◌/◌, ◌%◌, ◌^◌, ◌≤◌, ◌<◌, String, Bool, true, false, not, ◌&&◌,
  ◌||◌, ◌≡◌, refl, sym, ap, ◌∙◌, Option, none, some, List, [], ◌∷◌, ◌++◌, length, length-append,
  take, take-append, take_all, ltb, leb, ◌==◌, if◌then◌else◌, if_both, arith, Bool-cases, inl, inr,
}

-- `c & 1 ? 0xedb88320 ^ (c >>> 1) : c >>> 1`
abbrev crc_step : ℕ → ℕ
crc_step c = if bit_and c 1 == 1 then bit_xor 0xedb88320 (c / 2) else c / 2

abbrev crc_steps : ℕ → ℕ → ℕ
crc_steps zero c = c
crc_steps (suc k) c = crc_steps k (crc_step c)

-- `CRC_TABLE[n]`, with `>>> 0`
unfoldable pub crc_table : ℕ → ℕ
crc_table n = crc_steps 8 n % 2 ^ 32

-- The loop over the bytes.
unfoldable pub crc_bytes : ℕ → List ℕ → ℕ
unfolding crc_table
crc_bytes crc [] = crc
crc_bytes crc (b ∷ bs) =
    crc_bytes (bit_xor (crc_table (bit_and (bit_xor crc b) 0xff)) (crc / 2 ^ 8)) bs

unfoldable pub crc32 : List ℕ → ℕ
unfolding crc_bytes
crc32 bytes = bit_xor (crc_bytes 0xffffffff bytes) 0xffffffff % 2 ^ 32

-- `fill`
unfoldable pub filled : ℕ → ℕ → List ℕ
filled zero b = []
filled (suc n) b = b ∷ filled n b

-- `blob.set(bytes, at)` where the bytes fit
unfoldable pub write_at : ℕ → List ℕ → List ℕ → List ℕ
write_at zero [] ys = ys
write_at zero (x ∷ xs) [] = []
write_at zero (x ∷ xs) (y ∷ ys) = x ∷ write_at zero xs ys
write_at (suc k) xs [] = []
write_at (suc k) xs (y ∷ ys) = y ∷ write_at k xs ys

-- the bytes of setUint16 and setUint32, the low one first
abbrev pub u16_bytes : ℕ → List ℕ
u16_bytes n = n % 256 ∷ n / 256 % 256 ∷ []

abbrev pub u32_bytes : ℕ → List ℕ
u32_bytes n = n % 256 ∷ n / 256 % 256 ∷ n / 65536 % 256 ∷ n / 16777216 % 256 ∷ []

unfoldable pub config_magic : List ℕ
config_magic = b'I' ∷ b'O' ∷ b'C' ∷ b'F' ∷ []

unfoldable pub config_blob_version : ℕ
config_blob_version = 1

unfoldable pub config_header_size : ℕ
config_header_size = 16

abbrev pub with_header : List ℕ → List ℕ → List ℕ
with_header json blob = write_at 16 json (
    write_at 12 (u32_bytes (crc32 json)) (
      write_at 8 (u32_bytes (length json))
        (write_at 6 (u16_bytes 0) (write_at 4 (u16_bytes 1) (write_at 0 config_magic blob)))))

-- `encodeConfigBlob`, whose error is none
unfoldable pub encode_config_blob : (String → List ℕ) → String → ℕ → Option (List ℕ)
unfolding crc32 filled write_at config_magic config_header_size
encode_config_blob utf8 text size =
    let json = utf8 text in
    if ltb size (config_header_size + length json)
    then none
    else some (with_header json (filled size 0xff))

-- The same header read back, as the firmware reads it: the magic bytes, the version, a length that is
-- not zero and in the partition, and the checksum of so many bytes behind the header.
abbrev read_u32 : ℕ → ℕ → ℕ → ℕ → ℕ
read_u32 a b c d = a + b * 256 + c * 65536 + d * 16777216

abbrev body_if : Bool → List ℕ → Option (List ℕ)
body_if b json = if b then some json else none

unfoldable pub read_config_blob : List ℕ → Option (List ℕ)
unfolding crc32
read_config_blob
      (m0 ∷ m1 ∷ m2 ∷ m3 ∷ v0 ∷ v1 ∷ r0 ∷ r1 ∷ l0 ∷ l1 ∷ l2 ∷ l3 ∷ c0 ∷ c1 ∷ c2 ∷ c3 ∷ rest) =
    let size = read_u32 l0 l1 l2 l3 in
    let json = take size rest in
    body_if
      ((m0 == b'I' && m1 == b'O' && m2 == b'C' && m3 == b'F')
        && (v0 + v1 * 256 == 1)
        && not (size == 0)
        && leb size (length rest)
        && (crc32 json == read_u32 c0 c1 c2 c3))
      json
read_config_blob _ = none

pub length-filled : (n b : ℕ) → length (filled n b) ≡ n
unfolding filled
length-filled zero b = refl
length-filled (suc n) b = ap suc (length-filled n b)

length-write_at : (k : ℕ) (xs ys : List ℕ) → length (write_at k xs ys) ≡ length ys
unfolding write_at
length-write_at zero [] ys = refl
length-write_at zero (x ∷ xs) [] = refl
length-write_at zero (x ∷ xs) (y ∷ ys) = ap suc (length-write_at zero xs ys)
length-write_at (suc k) xs [] = refl
length-write_at (suc k) xs (y ∷ ys) = ap suc (length-write_at k xs ys)

length-with_header :
    (json : List ℕ) (size : ℕ) → length (with_header json (filled size 0xff)) ≡ size
length-with_header json size =
    let b0 = filled size 0xff in
    let b1 = write_at 0 config_magic b0 in
    let b2 = write_at 4 (u16_bytes 1) b1 in
    let b3 = write_at 6 (u16_bytes 0) b2 in
    let b4 = write_at 8 (u32_bytes (length json)) b3 in
    let b5 = write_at 12 (u32_bytes (crc32 json)) b4 in
    length-write_at 16 json b5
    ∙ (length-write_at 12 (u32_bytes (crc32 json)) b4
        ∙ (length-write_at 8 (u32_bytes (length json)) b3
            ∙ (length-write_at 6 (u16_bytes 0) b2
                ∙ (length-write_at 4 (u16_bytes 1) b1
                    ∙ (length-write_at 0 config_magic b0 ∙ length-filled size 0xff)))))

-- Written at the front, the bytes come first.
take-write_at :
    (xs ys : List ℕ) → length xs ≤ length ys → take (length xs) (write_at zero xs ys) ≡ xs
unfolding write_at
take-write_at [] ys h = refl
take-write_at (x ∷ xs) [] h = absurd (omega arith)
take-write_at (x ∷ xs) (y ∷ ys) h = ap (λ zs. x ∷ zs) (take-write_at xs ys (omega arith))

u32_same :
    (n : ℕ)
    → n < 2 ^ 32
    → read_u32 (n % 256) (n / 256 % 256) (n / 65536 % 256) (n / 16777216 % 256) ≡ n
u32_same n h = omega arith

crc32-bound : (bytes : List ℕ) → crc32 bytes < 2 ^ 32
unfolding crc32
crc32-bound bytes = omega arith

-- The header and the bytes behind it, in a partition with room for so many more.
read-with_header :
    (json : List ℕ) (m : ℕ)
    → 1 ≤ length json
    → length json ≤ m
    → length json < 2 ^ 32
    → read_config_blob (
        with_header json (
          filled
            (suc (
              suc (
                suc
                  (suc (suc (suc (suc (suc (suc (suc (suc (suc (suc (suc (suc (suc m))))))))))))))))
            0xff))
      ≡ some json
unfolding read_config_blob filled write_at config_magic
read-with_header json m h k l =
    let rest = write_at zero json (filled m 0xff) in
    let fits : length json ≤ length (filled m 0xff) = omega (arith, length-filled m 0xff) in
    let room : leb (length json) (length rest) ≡ true =
      ground (arith, length-write_at zero json (filled m 0xff), length-filled m 0xff) in
    let some_bytes : (length json == 0) ≡ false = ground arith in
    let same : (crc32 json == crc32 json) ≡ true = ground arith in
    rw
      (
        u32_same (length json) l,
        u32_same (crc32 json) (crc32-bound json),
        take-write_at json (filled m 0xff) fits,
        some_bytes,
        room,
        same,
      )
      refl

size_over_header :
    (size : ℕ)
    → 16 ≤ size
    → size
      ≡ suc (
          suc (
            suc (
              suc (
                suc
                  (suc (suc (suc (suc (suc (suc (suc (suc (suc (suc (suc (size - 16))))))))))))))))
size_over_header size h = omega arith

-- encodeConfigBlob fails exactly where the header and the bytes of the configuration exceed the
-- partition. Else it fills the partition, and a configuration of at least one byte in a partition below
-- 4 GiB is read back from it, its length and its checksum as they were written.
pub read_config_blob-encode_config_blob :
    (utf8 : String → List ℕ) (text : String) (size : ℕ)
    → 1 ≤ length (utf8 text)
    → size < 2 ^ 32
    → ((size < 16 + length (utf8 text)) × (encode_config_blob utf8 text size ≡ none))
      ⊎ ((blob : List ℕ) × (encode_config_blob utf8 text size ≡ some blob)
          × (length blob ≡ size)
          × (read_config_blob blob ≡ some (utf8 text)))
unfolding encode_config_blob config_header_size
read_config_blob-encode_config_blob utf8 text size h k =
    let json = utf8 text in
    elim (Bool-cases (ltb size (16 + length json))) [
      | inl e ↦ inl (ground arith, rw e refl)
      | inr e ↦
          let room : 16 + length json ≤ size = ground arith in
          let q = size_over_header size (omega arith) in
          let blob = with_header json (filled size 0xff) in
          inr (
            blob,
            rw e refl,
            length-with_header json size,
            ap (λ n. read_config_blob (with_header json (filled n 0xff))) q
                ∙ read-with_header json (size - 16) h (omega arith) (omega arith),
          )
    ]
