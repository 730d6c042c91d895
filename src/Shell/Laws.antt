-- ===== src/Shell/Laws.antt =====
-- What `ls` shows over the virtual file system.
use fantom_os.Base.{ℕ, ◌≡◌, List}
use fantom_os.Shell.{System}
use fantom_os.Vfs.{Node, get_file_at_index}

-- The system call for a file's name is answered by `VFS_getFileAtIndex`, over whatever it takes for
-- the devices' lists in a state of the machine.
abbrev pub AnsweredByVfs : {S : Type 0} → System S → (S → List (List Node)) → Type 0
AnsweredByVfs {S} sys lists =
    (index : ℕ) (s : S) → sys.file_at index s ≡ get_file_at_index index (lists s)
