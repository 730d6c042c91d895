-- ===== src/RamDisk.antt =====
-- src/modules/ramdisk/RamDisk.c: a tar archive in memory as a device of the VFS.
mod Examples
pub mod Read
pub mod Scan
pub mod Named
pub mod Mounted
use fantom_os.Base.{
  ℕ, zero, suc, ◌+◌, ◌-◌, ◌^◌, Bool, true, false, Option, none, some, List, [], ◌∷◌, ◌==◌,
  if◌then◌else◌, u32, kbase_vaddress, null,
}
use mathlib.Core.Option
use fantom_os.Memory.{Mem, store8, memcpy}
use fantom_os.Tar.{size_at, get_int, next_header, count_headers, get_header_at_index, tar_blocksize}
use fantom_os.Vfs
use fantom_os.Vfs.{Node, Device, Mounts}

-- `for(d = 0 ; path[d] ; path[d] == '/' ? d++ : path++)` over the path's bytes: the index `d` stays
-- or grows and the string shrinks, so the byte tested is the next one either way.
unfoldable pub get_depth : List ℕ → ℕ
get_depth [] = 0
get_depth (c ∷ path) = let rest = get_depth path in if c == b'/' then rest + 1 else rest

-- `while((*d++ = *s++))`: the bytes up to the NUL; `none` means that the fuel ran out.
unfoldable pub only_file_name : ℕ → Mem → ℕ → Option (List ℕ)
only_file_name zero m src = none
only_file_name (suc f) m src =
    let rest = only_file_name f m (u32 (src + 1)) in
    if m src == 0 then some [] else Option.map (λ cs. m src ∷ cs) rest

-- `node->filename`, `node->file_size` and `node->idx` of the file at a header
abbrev pub node_at : Mem → ℕ → ℕ → List ℕ → Node
node_at m header scans name = record {
  file_size = get_int m (size_at header) 12 8;
  filename = name;
  idx = scans;
}

-- The loop of `RamDisk_scanTar`: the nodes that it adds, in order.
unfoldable pub scan_from : ℕ → Mem → ℕ → ℕ → Option (List Node)
scan_from zero m header scans = none
scan_from (suc f) m header scans =
    let rest =
      if next_header m header == null
      then some []
      else scan_from f m (next_header m header) (u32 (scans + 1)) in
    let nodes =
      Option.bind (only_file_name (suc f) m header)
        (λ name. Option.map (λ ns. node_at m header scans name ∷ ns) rest) in
    if m header == 0 then some [] else nodes

-- The root's node stands first.
unfoldable pub scan_tar : ℕ → Mem → ℕ → Node → Option (List Node)
unfolding scan_from
scan_tar fuel m header root = Option.map (λ ns. root ∷ ns) (scan_from fuel m header 0)

-- `RamDisk_readFile`: `size` bytes from `off` on, and a NUL behind them. The inner `none` is the panic
-- of `Tar_getHeaderAtIndex`.
unfoldable pub read_file : ℕ → Mem → Device → Node → ℕ → ℕ → ℕ → Option (Option (Mem × ℕ))
read_file fuel m device node dest size off =
    Option.map
      (Option.map λ header. (
        store8 (memcpy m dest (u32 (header + off + tar_blocksize)) size) (u32 (dest + size)) 0,
        size,
      ))
      (get_header_at_index fuel m device.ram_addr node.idx)

-- the name of the root: the letter of the drive, NUL after a mount that failed, and a slash
abbrev pub root_node_of : ℕ → Node
root_node_of mount_id = record {
  file_size = 0;
  filename = if mount_id == 0 then [] else mount_id ∷ b'/' ∷ [];
  idx = 0;
}

-- `RamDisk_init`, for the archive that the first boot module holds. `root` is the address of the root
-- node. The device is mounted before the scan, and the scan fills the list that both share.
unfoldable pub init : ℕ → Mem → ℕ → ℕ → Mounts → Option Mounts
init fuel m mod_start root mounts =
    let address = u32 (mod_start + kbase_vaddress) in
    let device : Device = record {
      mount_id = 0;
      root_node = root;
      files = [];
      ram_addr = address;
    } in
    let (done, named, mounts') = Vfs.mount device mounts in
    Option.bind (count_headers fuel m address) λ count.
      Option.map (λ files. (Vfs.mount (record device { files = files }) mounts).2)
        (scan_tar fuel m address (root_node_of named.mount_id))
