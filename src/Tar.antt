-- ===== src/Tar.antt =====
-- src/modules/ramdisk/TarParser.c: the headers of a tar archive that lies in memory.
pub mod Laws
use mathlib.Core.Option
use fantom_os.Base.{
  ℕ, zero, suc, ◌+◌, ◌-◌, ◌*◌, ◌/◌, ◌%◌, ◌^◌, Bool, true, false, ◌&&◌, ◌||◌, Option, none, some,
  ltb, leb, ◌==◌, if◌then◌else◌, u8, u32,
}
use fantom_os.Memory.{Mem, load32}

-- `TAR_BLOCKSIZE`
abbrev pub tar_blocksize : ℕ
tar_blocksize = 512

-- where `filename`, `size` and `checksum` stand in `Tar_header_t`
abbrev pub size_at : ℕ → ℕ
size_at header = u32 (header + 124)

abbrev pub checksum_at : ℕ → ℕ
checksum_at header = u32 (header + 148)

-- `*ip` is a digit of the format: `'0'` to `'9'`, and `'a'` to `'f'` if the format has letters
abbrev pub is_digit : ℕ → ℕ → Bool
is_digit format c = (leb b'0' c && leb c b'9') || (ltb 10 format && (leb b'a' c && leb c b'f'))

abbrev pub digit_value : ℕ → ℕ
digit_value c = if ltb b'9' c then c - b'a' + 10 else c - b'0'

-- `len` is the number of characters left; every call in the source starts above zero.
unfoldable pub get_int_from : Mem → ℕ → ℕ → ℕ → ℕ → ℕ
get_int_from m format ip zero num = num
get_int_from m format ip (suc len) num =
    let num' = u32 (num * format + digit_value (m ip)) in
    let rest = get_int_from m format (u32 (ip + 1)) len num' in
    if is_digit format (m ip) then (if len == 0 then num' else rest) else num

unfoldable pub get_int : Mem → ℕ → ℕ → ℕ → ℕ
unfolding get_int_from
get_int m str len format = get_int_from m format str len 0

-- `for (i = 0; i < 512; i++) checksum -= …`. The header is read through a `uint32_t *`, so round `i`
-- takes the word at `4 * i`, of which the `uint8_t` keeps the low byte.
unfoldable pub sum_rounds : Mem → ℕ → ℕ → ℕ → ℕ → ℕ
sum_rounds m header zero i checksum = checksum
sum_rounds m header (suc n) i checksum =
    let word = if leb 148 i && ltb i 156 then 32 else load32 m (u32 (header + 4 * i)) in
    sum_rounds m header n (i + 1) ((checksum + 256 - word % 256) % 256)

unfoldable pub valid_header : Mem → ℕ → Bool
unfolding sum_rounds
valid_header m header =
    sum_rounds m header tar_blocksize 0 (u8 (get_int m (checksum_at header) 8 8)) == 0

unfoldable pub next_header : Mem → ℕ → ℕ
next_header m header =
    let length = get_int m (size_at header) 12 8 in
    let address = u32 (header + u32 ((length / tar_blocksize + 1) * tar_blocksize)) in
    if length % tar_blocksize == 0 then address else u32 (address + tar_blocksize)

-- The loop ends at an empty name or when the address has come round to NULL; `none` means that the
-- fuel ran out.
unfoldable pub count_from : ℕ → Mem → ℕ → ℕ → Option ℕ
count_from zero m header count = none
count_from (suc f) m header count =
    let next = next_header m header in
    let rest = count_from f m next (u32 (count + 1)) in
    if m header == 0 then some count else if next == 0 then some (u32 (count + 1)) else rest

unfoldable pub count_headers : ℕ → Mem → ℕ → Option ℕ
unfolding count_from
count_headers fuel m header = count_from fuel m header 0

unfoldable pub skip_headers : ℕ → Mem → ℕ → ℕ
skip_headers zero m first = first
skip_headers (suc i) m first = skip_headers i m (next_header m first)

-- `KASSERT` panics unless the index is below the count: the inner `none`.
unfoldable pub get_header_at_index : ℕ → Mem → ℕ → ℕ → Option (Option ℕ)
unfolding skip_headers
get_header_at_index fuel m first index =
    Option.map (λ count. if ltb index count then some (skip_headers index m first) else none)
      (count_headers fuel m first)
