-- ===== src/Shell/Examples.antt =====
-- A machine whose state is what it wrote; a list with two files stands where a device is looked for.
use fantom_os.Base.{none, List, [], ◌∷◌, ◌++◌}
use fantom_os.Shell.{Text, System, Messages}
use fantom_os.Vfs.{Node, get_file_at_index}

abbrev named : Text → Node
named name = record { file_size = 3; filename = name; idx = 0 }

abbrev two_files : List (List Node)
two_files = (named (b'a' ∷ []) ∷ named (b'b' ∷ b'c' ∷ []) ∷ []) ∷ []

abbrev listing : System Text
listing = record {
  put_str = λ t s. s ++ t;
  open_file = λ _ _. none;
  create_child = λ _ s. s;
  file_at = λ i _. get_file_at_index i two_files;
  file_size = λ _ _. 0;
  read_file = λ _ _ _. [];
  suicide = λ s. s;
}

abbrev quiet : Messages
quiet = record {
  no_program = [];
  no_file = [];
  help_ls = [];
  help_exec = [];
  help_view = [];
  help_killme = [];
}
