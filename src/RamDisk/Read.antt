-- ===== src/RamDisk/Read.antt =====
-- What a read copies.
use fantom_os.Base.{
  ℕ, ◌+◌, ◌-◌, ◌^◌, ◌≤◌, ◌<◌, ◌≡◌, ◌⊎◌, ap, Option, some, List, arith, ltb, length, u32, true,
}
use fantom_os.Memory.{Mem, IsBytes, store8, memcpy}
use fantom_os.Memory.Laws.{memcpy_lem}
use fantom_os.Tar.Laws.{Archive, header_of, get_header_at_index_lem}
use fantom_os.Vfs.{Device, Node}
use fantom_os.RamDisk.{read_file}

-- A read that returned: the bytes asked for, a NUL behind them, and nothing else written.
pub record Copied (m : Mem) (from dest size : ℕ) (r : Option (Option (Mem × ℕ))) : Type 0 where
  pub after : Mem
  pub returns : r ≡ some (some (after, size))
  pub bytes : (j : ℕ) → j < size → after (dest + j) ≡ m (from + j)
  pub nul : after (dest + size) ≡ 0
  pub outside : (p : ℕ) → (p < dest) ⊎ (dest + size < p) → after p ≡ m p

-- With an archive in memory, a file's number in range and a destination that does not wrap and
-- lies apart, reading a positive number of bytes copies exactly those bytes of the archive,
-- writes a NUL in the byte behind them and nothing else.
pub read_file-Copied :
    (fuel : ℕ) (m : Mem) (device : Device) (node : Node) (dest size off : ℕ) (sizes : List ℕ)
    → IsBytes m
    → Archive m device.ram_addr sizes
    → length sizes < fuel
    → length sizes < 2 ^ 32
    → node.idx < length sizes
    → header_of device.ram_addr sizes node.idx + off + 512 + size ≤ 2 ^ 32
    → 0 < size
    → dest + size < 2 ^ 32
    → (dest ≤ header_of device.ram_addr sizes node.idx + off + 512)
      ⊎ (header_of device.ram_addr sizes node.idx + off + 512 + size ≤ dest)
    → Copied m
        (header_of device.ram_addr sizes node.idx + off + 512)
        dest
        size
        (read_file fuel m device node dest size off)
unfolding read_file store8
read_file-Copied fuel m device node dest size off sizes b a h small i fits some_bytes room apart =
    let header = header_of device.ram_addr sizes node.idx in
    let known : ltb node.idx (length sizes) ≡ true = ground arith in
    let source : u32 (header + off + 512) ≡ header + off + 512 = omega arith in
    let copy =
      λ (p : ℕ). memcpy_lem m dest (header + off + 512) size p b (omega arith) fits apart in
    record {
      after = store8 (memcpy m dest (header + off + 512) size) (u32 (dest + size)) 0;
      returns =
          rw (
            get_header_at_index_lem m device.ram_addr sizes fuel node.idx a h small,
            known,
            source,
          );
      bytes = λ j hj.
          let shift : m (header + off + 512 + (dest + j - dest)) ≡ m (header + off + 512 + j) =
            ap m (omega arith) in
          ground (arith, copy (dest + j), shift);
      nul = ground arith;
      outside = λ p o. ground (arith, copy p);
    }
