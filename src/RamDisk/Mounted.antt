-- ===== src/RamDisk/Mounted.antt =====
-- The RAM disk from the boot to a read: `RamDisk_init` mounts the archive, the VFS opens a file of it
-- by name, and the device reads that file.
use fantom_os.Base.{
  ℕ, ◌+◌, ◌^◌, ◌≤◌, ◌<◌, ◌≡◌, ◌≢◌, ◌⊎◌, inl, inr, refl, ◌∙◌, ap, some, List, [], ◌∷◌, ◌++◌, arith,
  ◌==◌, Bool-cases, false, length, u32, kbase_vaddress,
}
use fantom_os.Memory.{Mem, IsBytes}
use fantom_os.Tar.Laws.{header_of, count_headers-length}
use fantom_os.Vfs.{Node, Device, Mounts, name_cmp, find_in, open_file, has_root}
use fantom_os.Vfs.Laws.{IsName, name_cmp_iff, AllNamed, NoneNamed, all_files}
use fantom_os.Vfs.Mounts.{Consecutive, mount-Mounted}
use fantom_os.RamDisk.{init, read_file, root_node_of}
use fantom_os.RamDisk.Scan.{Files, Archive, nodes_from, scan_tar-nodes}
use fantom_os.RamDisk.Read.{Copied, read_file-Copied}
use fantom_os.RamDisk.Named.{
  sizes_of, Place, length-sizes_of, Place-bound, headers_of, node_of, find_in-nodes, open_file_last,
}

-- What the boot serves: the mounts behind `RamDisk_init`, the file that a name opens there, and a read of it.
pub record Served (fuel : ℕ) (m : Mem) (mod_start root : ℕ) (mounts : Mounts) (files : Files)
    (i : ℕ) (name : List ℕ) (size dest n off : ℕ) : Type 0 where
  pub device : Device
  pub node : Node
  pub mounted : init fuel m mod_start root mounts ≡ some (mounts ++ device ∷ [])
  pub letter : device.mount_id ≡ b'C' + length mounts
  pub opens : open_file (mounts ++ device ∷ []) name ≡ some node
  pub known : node.file_size ≡ size
  pub reads :
      Copied m
        (header_of (u32 (mod_start + kbase_vaddress)) (sizes_of files) i + off + 512)
        dest
        n
        (read_file fuel m device node dest n off)

module _ (fuel : ℕ) (m : Mem) (mod_start root : ℕ) (mounts : Mounts) (files : Files)
    (few : length mounts < 24) (free : has_root root mounts ≡ false) (s : Consecutive b'C' mounts)
    (a : Archive m (u32 (mod_start + kbase_vaddress)) files) (h : length files + 100 < fuel)
    (small : length files < 2 ^ 32) where
  abbrev disk : Device
  disk = record {
    mount_id = b'C' + length mounts;
    root_node = root;
    files = root_node_of (b'C' + length mounts) ∷ nodes_from 0 files;
    ram_addr = u32 (mod_start + kbase_vaddress);
  }

  init-mounts : init fuel m mod_start root mounts ≡ some (mounts ++ disk ∷ [])
  unfolding init mathlib.Core.Option.bind
  init-mounts =
      let address = u32 (mod_start + kbase_vaddress) in
      let empty : Device = record {
        mount_id = 0;
        root_node = root;
        files = [];
        ram_addr = address;
      } in
      let first = mount-Mounted empty mounts s few free in
      let second = mount-Mounted (record disk { mount_id = 0 }) mounts s few free in
      let sizes = headers_of m address files a in
      let count =
        count_headers-length m address (sizes_of files) fuel sizes
          (omega (arith, length-sizes_of files)) (omega (arith, length-sizes_of files)) in
      rw
        (
          count,
          first.named,
          scan_tar-nodes fuel m address (root_node_of (b'C' + length mounts)) files a h small,
          second.mounts_after,
          second.named,
        )
        refl

  find_in-disk :
      (i : ℕ) (name : List ℕ) (size : ℕ)
      → IsBytes m
      → IsName name
      → name ≢ ((b'C' + length mounts) ∷ b'/' ∷ [])
      → Place files i name size
      → find_in disk.files name ≡ some (node_of name size i)
  unfolding find_in
  find_in-disk i name size b named not_root p =
      let letter : (b'C' + length mounts == 0) ≡ false = ground arith in
      let root_name : List ℕ = (b'C' + length mounts) ∷ b'/' ∷ [] in
      let root_named : IsName root_name =
        (omega arith, omega arith, (omega arith, omega arith, tt)) in
      let differ : (name_cmp name root_name == 0) ≡ false =
        elim (Bool-cases (name_cmp name root_name == 0)) [
          | inl e ↦
              absurd (not_root ((name_cmp_iff name root_name named root_named).0 (ground arith)))
          | inr e ↦ e
        ] in
      let later =
        find_in-nodes m (u32 (mod_start + kbase_vaddress)) files 0 i name size b a named p in
      let number : 0 + i ≡ i = omega arith in
      rw letter (rw differ (later ∙ ap (λ (j : ℕ). some (node_of name size j)) number))

  -- With an archive in memory whose names have at most 100 bytes, at most 23 devices mounted
  -- under letters that run on from 'C' and none of them with a file of the name or with the
  -- root, the start of the RAM disk mounts one more device under the next letter; opening the
  -- name of a file, not that of the root, then finds the first file of that name with its size,
  -- and a read of it copies the bytes of that file's part of the archive, for a destination that
  -- lies apart and within 32 bits.
  pub init-Served :
      (i : ℕ) (name : List ℕ) (size dest n off : ℕ)
      → IsBytes m
      → AllNamed mounts
      → NoneNamed name (all_files mounts)
      → IsName name
      → name ≢ ((b'C' + length mounts) ∷ b'/' ∷ [])
      → Place files i name size
      → let from = header_of (u32 (mod_start + kbase_vaddress)) (sizes_of files) i + off + 512 in
        from + n ≤ 2 ^ 32
        → 0 < n
        → dest + n < 2 ^ 32
        → (dest ≤ from) ⊎ (from + n ≤ dest)
        → Served fuel m mod_start root mounts files i name size dest n off
  init-Served i name size dest n off b all absent named not_root p fits pos room apart =
      let length_same = length-sizes_of files in
      let bound = Place-bound files i name size p in
      record {
        device = disk;
        node = node_of name size i;
        mounted = init-mounts;
        letter = refl;
        opens =
            open_file_last mounts disk name (node_of name size i) named all absent
              (find_in-disk i name size b named not_root p);
        known = refl;
        reads =
            read_file-Copied fuel m disk (node_of name size i) dest n off (sizes_of files) b
              (headers_of m (u32 (mod_start + kbase_vaddress)) files a) (omega (arith, length_same))
              (omega (arith, length_same)) (omega (arith, length_same, bound)) fits pos room apart;
      }
