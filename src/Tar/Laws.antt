-- ===== src/Tar/Laws.antt =====
-- Numbers in a header, the step from one header to the next, and the walk over an archive.
use fantom_os.Base.{
  ℕ, zero, suc, ◌+◌, ◌*◌, ◌/◌, ◌^◌, ◌≤◌, ◌<◌, ◌≡◌, ◌≢◌, ◌⊎◌, refl, ◌∙◌, ap, none, some, List, [],
  ◌∷◌, arith, ltb, length, Bool-cases, inl, inr, if◌then◌else◌, u32,
}
use fantom_os.Memory.{Mem}
use fantom_os.Tar.{
  size_at, get_int_from, get_int, next_header, count_from, count_headers, skip_headers,
  get_header_at_index,
}

-- the number that octal digits stand for, most significant first
abbrev pub octal_from : ℕ → List ℕ → ℕ
octal_from acc [] = acc
octal_from acc (d ∷ ds) = octal_from (acc * 8 + d) ds

-- From `ip` on the memory holds the digits as characters, and no digit behind them.
abbrev pub Written : Mem → ℕ → List ℕ → Type 0
Written m ip [] = (m ip < 48) ⊎ (57 < m ip)
Written m ip (d ∷ ds) = (m ip ≡ 48 + d) × (d < 8) × Written m (u32 (ip + 1)) ds

octal_from_mono : (acc : ℕ) (ds : List ℕ) → acc ≤ octal_from acc ds
octal_from_mono acc [] = omega arith
octal_from_mono acc (d ∷ ds) = omega (arith, octal_from_mono (acc * 8 + d) ds)

get_int_from_lem :
    (m : Mem) (ip : ℕ) (ds : List ℕ) (len acc : ℕ)
    → Written m ip ds
    → length ds < len
    → octal_from acc ds < 2 ^ 32
    → get_int_from m 8 ip len acc ≡ octal_from acc ds
unfolding get_int_from
get_int_from_lem m ip ds zero acc w h small = absurd (omega arith)
get_int_from_lem m ip [] (suc len) acc w h small = ground arith
get_int_from_lem m ip (d ∷ ds) (suc len) acc w h small = ground (
  arith,
  octal_from_mono (acc * 8 + d) ds,
  get_int_from_lem m (u32 (ip + 1)) ds len (acc * 8 + d) w.2,
)

-- Reading an octal number that was written in fewer characters than the field has and fits in 32
-- bits gives that number.
pub get_int-octal :
    (m : Mem) (str len : ℕ) (ds : List ℕ)
    → Written m str ds
    → length ds < len
    → octal_from 0 ds < 2 ^ 32
    → get_int m str len 8 ≡ octal_from 0 ds
unfolding get_int
get_int-octal m str len ds w h small = get_int_from_lem m str ds len 0 w h small

-- the blocks that a file of some size takes
abbrev pub blocks : ℕ → ℕ
blocks size = (size + 511) / 512

-- If the sum stays below 4 GB, the next header lies one block for the header and the file's size
-- rounded up to blocks behind the current one.
pub next_header-blocks :
    (m : Mem) (header size : ℕ)
    → get_int m (size_at header) 12 8 ≡ size
    → header + 512 * (1 + blocks size) < 2 ^ 32
    → next_header m header ≡ header + 512 * (1 + blocks size)
unfolding next_header
next_header-blocks m header size e h = ground arith

-- An archive: headers with names, each where the one before ends, and an empty name behind them.
abbrev pub Archive : Mem → ℕ → List ℕ → Type 0
Archive m header [] = m header ≡ 0
Archive m header (size ∷ sizes) =
    (m header ≢ 0)
    × (get_int m (size_at header) 12 8 ≡ size)
    × (header + 512 * (1 + blocks size) < 2 ^ 32)
    × Archive m (header + 512 * (1 + blocks size)) sizes

-- where the header with a number stands
abbrev pub header_of : ℕ → List ℕ → ℕ → ℕ
header_of header sizes zero = header
header_of header [] (suc i) = header
header_of header (size ∷ sizes) (suc i) = header_of (header + 512 * (1 + blocks size)) sizes i

count_from_lem :
    (m : Mem) (header : ℕ) (sizes : List ℕ) (f count : ℕ)
    → Archive m header sizes
    → length sizes < f
    → count + length sizes < 2 ^ 32
    → count_from f m header count ≡ some (count + length sizes)
unfolding count_from
count_from_lem m header sizes zero count a h small = absurd (omega arith)
count_from_lem m header [] (suc f) count a h small = ground arith
count_from_lem m header (size ∷ sizes) (suc f) count a h small = ground (
  arith,
  next_header-blocks m header size a.1 a.2,
  count_from_lem m (header + 512 * (1 + blocks size)) sizes f (count + 1) a.3,
)

-- On an archive of fewer than 2^32 files, with fuel above its length, counting the headers ends
-- with the number of its files.
pub count_headers-length :
    (m : Mem) (header : ℕ) (sizes : List ℕ) (fuel : ℕ)
    → Archive m header sizes
    → length sizes < fuel
    → length sizes < 2 ^ 32
    → count_headers fuel m header ≡ some (length sizes)
unfolding count_headers
count_headers-length m header sizes fuel a h small =
    count_from_lem m header sizes fuel 0 a h (omega arith) ∙ ap some (omega arith)

skip_headers_lem :
    (m : Mem) (header : ℕ) (sizes : List ℕ) (i : ℕ)
    → Archive m header sizes
    → i ≤ length sizes
    → skip_headers i m header ≡ header_of header sizes i
unfolding skip_headers
skip_headers_lem m header sizes zero a h = refl
skip_headers_lem m header [] (suc i) a h = absurd (omega arith)
skip_headers_lem m header (size ∷ sizes) (suc i) a h =
    rw (next_header-blocks m header size a.1 a.2)
      (skip_headers_lem m (header + 512 * (1 + blocks size)) sizes i a.3 (omega arith))

-- On an archive of fewer than 2^32 files, with fuel above its length, the lookup of a header
-- returns where the file with that number begins, and panics past the last.
pub get_header_at_index_lem :
    (m : Mem) (first : ℕ) (sizes : List ℕ) (fuel i : ℕ)
    → Archive m first sizes
    → length sizes < fuel
    → length sizes < 2 ^ 32
    → get_header_at_index fuel m first i
      ≡ some (if ltb i (length sizes) then some (header_of first sizes i) else none)
unfolding get_header_at_index
get_header_at_index_lem m first sizes fuel i a h small =
    rw (count_headers-length m first sizes fuel a h small)
      (elim (Bool-cases (ltb i (length sizes))) [
        | inl e ↦ rw (e, skip_headers_lem m first sizes i a (ground arith))
        | inr e ↦ rw e
      ])
