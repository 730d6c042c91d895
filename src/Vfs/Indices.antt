-- ===== src/Vfs/Indices.antt =====
-- What `VFS_getFileAtIndex` finds.
use fantom_os.Base.{ℕ, ◌≡◌, ◌≢◌, refl, none, List, [], ◌∷◌, arith}
use fantom_os.Vfs.{Node, file_in, file_from, get_file_at_index}

file_in-none : (i index : ℕ) (fs : List Node) → i ≢ index → file_in i index fs ≡ none
unfolding file_in
file_in-none i index [] other = refl
file_in-none i index (f ∷ fs) other = ground (arith, other, file_in-none i index fs other)

file_from-none :
    (i index : ℕ) (lists : List (List Node)) → i ≢ index → file_from i index lists ≡ none
unfolding file_from
file_from-none i index [] other = refl
file_from-none i index (files ∷ more) other =
    rw (file_in-none i index files other) (file_from-none i index more other)

-- Whatever lists of files stand in memory, no index but 0 gives a name.
pub get_file_at_index-none :
    (index : ℕ) (lists : List (List Node)) → index ≢ 0 → get_file_at_index index lists ≡ none
unfolding get_file_at_index
get_file_at_index-none index lists other =
    rw (file_from-none 0 index lists (ground (arith, other))) refl
