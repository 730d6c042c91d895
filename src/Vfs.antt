-- ===== src/Vfs.antt =====
-- src/modules/vfs/VFS.c: mounted devices and the lookup of files by name. `FS_mounts` and a device's
-- `files` are LinkedLists, which the functions here only read by number, extend at the end and cut by
-- number; they stand as the lists of their data, as the module LinkedList shows them to be.
mod Examples
pub mod Indices
pub mod Laws
pub mod Mounts
use fantom_os.Base.{
  ℕ, zero, suc, ◌+◌, ◌-◌, ◌^◌, Bool, true, false, ◌&&◌, not, Option, none, some, List, [], ◌∷◌,
  ◌++◌, ltb, ◌==◌, if◌then◌else◌, null, u32,
}

-- `VFS_node_t`. A file name is the list of its bytes before the NUL.
pub record Node : Type 0 where
  pub file_size : ℕ
  pub filename : List ℕ
  pub idx : ℕ

-- `VFS_device_t`; `root_node` is the address of the root's node
pub record Device : Type 0 where
  pub mount_id : ℕ
  pub root_node : ℕ
  pub files : List Node
  pub ram_addr : ℕ

abbrev pub Mounts : Type 0
Mounts = List Device

-- The loop of `VFS_nextMountId`, with the letter reached so far. It tests `curr > 'Z'` only after a
-- letter that is in use.
unfoldable pub next_id_from : ℕ → Mounts → ℕ
next_id_from curr [] = curr
next_id_from curr (d ∷ ds) =
    let rest = next_id_from (curr + 1) ds in
    if d.mount_id == curr then (if ltb b'Z' (curr + 1) then null else rest) else curr

unfoldable pub next_mount_id : Mounts → ℕ
unfolding next_id_from
next_mount_id mounts = next_id_from b'C' mounts

unfoldable pub has_root : ℕ → Mounts → Bool
has_root root [] = false
has_root root (d ∷ ds) = if root == d.root_node then true else has_root root ds

-- The result, the device as it is left (its letter is set even if the mount then fails), the mounts.
unfoldable pub mount : Device → Mounts → Bool × Device × Mounts
unfolding has_root
mount device mounts =
    let id = next_mount_id mounts in
    let named = record device { mount_id = id } in
    if id == null
    then (false, device, mounts)
    else if has_root device.root_node mounts
    then (false, named, mounts)
    else (true, named, mounts ++ named ∷ [])

-- The first device with the letter is taken out.
unfoldable pub unmount : ℕ → Mounts → Bool × Mounts
unmount id [] = (false, [])
unmount id (d ∷ ds) =
    let (done, rest) = unmount id ds in if d.mount_id == id then (true, ds) else (done, d ∷ rest)

-- `*a - *b` at the first place where the strings differ or end, as a `uint32_t`; the end reads as 0.
unfoldable pub name_cmp : List ℕ → List ℕ → ℕ
name_cmp [] [] = 0
name_cmp [] (y ∷ ys) = u32 (2 ^ 32 - y)
name_cmp (x ∷ xs) [] = x
name_cmp (x ∷ xs) (y ∷ ys) = if x == y then name_cmp xs ys else u32 (x + 2 ^ 32 - y)

unfoldable pub find_in : List Node → List ℕ → Option Node
find_in [] filename = none
find_in (n ∷ ns) filename =
    if name_cmp filename n.filename == 0 then some n else find_in ns filename

unfoldable pub find_node : Device → List ℕ → Option Node
unfolding find_in
find_node device filename = find_in device.files filename

abbrev pub first_of : Option Node → Option Node → Option Node
first_of (some n) rest = some n
first_of none rest = rest

-- The mode is not read.
unfoldable pub open_file : Mounts → List ℕ → Option Node
open_file [] filename = none
open_file (d ∷ ds) filename = first_of (find_node d filename) (open_file ds filename)

abbrev pub size_of : Option Node → ℕ → ℕ
size_of (some n) rest = u32 (n.file_size + 1)
size_of none rest = rest

unfoldable pub get_file_size : Mounts → List ℕ → ℕ
get_file_size [] filename = 0
get_file_size (d ∷ ds) filename = size_of (find_node d filename) (get_file_size ds filename)

-- The inner loop of `VFS_getFileAtIndex` over one list of files: `i` only grows just before a return.
unfoldable pub file_in : ℕ → ℕ → List Node → Option Node
file_in i index [] = none
file_in i index (f ∷ fs) = if i == index then some f else file_in i index fs

-- `VFS_getFileAtIndex` takes each node of the list `FS_mounts` for a device, since its `->data` is
-- missing, and so the node's `prevNode` for the device's `files`. What stands in memory there is the
-- argument: one list for each node, taken to be readable.
unfoldable pub file_from : ℕ → ℕ → List (List Node) → Option Node
unfolding file_in
file_from i index [] = none
file_from i index (files ∷ more) = first_of (file_in i index files) (file_from i index more)

-- the name of the file, NULL for none
unfoldable pub get_file_at_index : ℕ → List (List Node) → Option (List ℕ)
unfolding file_from
get_file_at_index index lists = name_of (file_from 0 index lists)
  where
    name_of : Option Node → Option (List ℕ)
    name_of none = none
    name_of (some n) = some n.filename
