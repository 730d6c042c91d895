-- ===== src/Shell.antt =====
-- src/ramdisk/apps/shell.c: the shell, over the system calls and the library functions that it uses.
-- Strings stand as the lists of their bytes; the tokens of an input line are what `strtok` returns.
mod Examples
pub mod Laws
use fantom_os.Base.{
  ℕ, zero, suc, ◌+◌, ◌-◌, Bool, true, false, ◌&&◌, Option, none, some, List, [], ◌∷◌, ltb, ◌==◌,
  if◌then◌else◌, arith,
}

abbrev pub Text : Type 0
Text = List ℕ

-- `strcmp(a, b) == 0` of two strings
unfoldable pub same_text : Text → Text → Bool
same_text [] [] = true
same_text [] (y ∷ ys) = false
same_text (x ∷ xs) [] = false
same_text (x ∷ xs) (y ∷ ys) = (x == y) && same_text xs ys

-- What the shell reaches outside itself; `S` is the rest of the machine. A file is the number that
-- `open` returns, and `none` is NULL.
pub record System (S : Type 0) : Type 0 where
  pub put_str : Text → S → S
  pub open_file : Text → S → Option ℕ
  pub create_child : ℕ → S → S
  pub file_at : ℕ → S → Option Text
  pub file_size : ℕ → S → ℕ
  pub read_file : ℕ → ℕ → S → Text
  pub suicide : S → S

-- the commands' names, and what the shell writes
abbrev pub ls_name : Text
ls_name = b'l' ∷ b's' ∷ []

abbrev pub exec_name : Text
exec_name = b'e' ∷ b'x' ∷ b'e' ∷ b'c' ∷ []

abbrev pub view_name : Text
view_name = b'v' ∷ b'i' ∷ b'e' ∷ b'w' ∷ []

abbrev pub help_name : Text
help_name = b'h' ∷ b'e' ∷ b'l' ∷ b'p' ∷ []

abbrev pub killme_name : Text
killme_name = b'k' ∷ b'i' ∷ b'l' ∷ b'l' ∷ b'm' ∷ b'e' ∷ []

abbrev pub comma : Text
comma = b',' ∷ b' ' ∷ []

-- the messages of a missing program or file, and the lines of the help
pub record Messages : Type 0 where
  pub no_program : Text
  pub no_file : Text
  pub help_ls : Text
  pub help_exec : Text
  pub help_view : Text
  pub help_killme : Text

-- a result that may be NULL
abbrev pub or_else : {A B : Type 0} → Option A → B → (A → B) → B
or_else none b f = b
or_else (some a) b f = f a

module _ {S : Type 0} (sys : System S) (msg : Messages) where
  -- the loop of `ls`, from an index on; `none` is fuel that runs out
  unfoldable pub ls_from : ℕ → ℕ → S → Option S
  ls_from zero index s = none
  ls_from (suc n) index s = or_else (sys.file_at index s) (some s) λ filename.
      ls_from n (index + 1)
        (sys.put_str filename (if ltb 2 (index + 1) then sys.put_str comma s else s))

  abbrev pub ls : ℕ → S → Option S
  ls fuel s = ls_from fuel 1 s

  -- `read` fills `file_size + 1` bytes; the text ends at the NUL
  unfoldable pub view_file : Text → S → S
  view_file filename s = or_else (sys.open_file filename s) (sys.put_str msg.no_file s) λ node.
      sys.put_str (b'\n' ∷ []) (sys.put_str (sys.read_file node (sys.file_size node s + 1) s) s)

  unfoldable pub exec : Text → S → S
  exec filename s =
      or_else (sys.open_file filename s) (sys.put_str msg.no_program s)
        λ program. sys.create_child program s

  abbrev pub help : S → S
  help s =
      sys.put_str msg.help_killme
        (sys.put_str msg.help_view (sys.put_str msg.help_exec (sys.put_str msg.help_ls s)))

  -- the command and its parameter, the two tokens of the line
  unfoldable pub run_command : ℕ → Option Text → Text → S → Option S
  run_command fuel none p1 s = some s
  run_command fuel (some cmd) p1 s =
      if same_text cmd ls_name
      then ls fuel s
      else if same_text cmd exec_name
      then some (exec p1 s)
      else if same_text cmd view_name
      then some (view_file p1 s)
      else if same_text cmd help_name
      then some (help s)
      else if same_text cmd killme_name
      then some (sys.suicide s)
      else some s
