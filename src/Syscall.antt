-- ===== src/Syscall.antt =====
-- src/modules/userspace/Syscall.c and the functions of src/ramdisk/libs/syscall.c that call it: the
-- system calls, from the wrapper in a user program to the function of the kernel.
mod Examples
pub mod Laws
use fantom_os.Base.{
  ℕ, ◌^◌, Bool, true, false, List, [], ◌∷◌, ltb, leb, if◌then◌else◌, get_or, u8, ◌+◌, ◌-◌,
}

-- the functions of `Syscall_map`, by their names in the kernel
pub data KernelFunction : Type 0 where
  process_create_child : KernelFunction
  scheduler_get_current : KernelFunction
  heap_mem_sbrk : KernelFunction
  vfs_open : KernelFunction
  vfs_read : KernelFunction
  vfs_file_info : KernelFunction
  vfs_get_file_at_index : KernelFunction
  vga_put_char : KernelFunction
  vga_put_str : KernelFunction
  vga_cls : KernelFunction
  vga_colour_error : KernelFunction
  vga_standard_colour : KernelFunction
  keyboard_get_input : KernelFunction
  rtc_print_time : KernelFunction
  process_make_foreground : KernelFunction
  process_kill : KernelFunction

abbrev pub syscall_count : ℕ
syscall_count = 16

abbrev pub syscall_map : List KernelFunction
syscall_map =
    process_create_child ∷ scheduler_get_current ∷ heap_mem_sbrk ∷ vfs_open ∷ vfs_read
    ∷ vfs_file_info ∷ vfs_get_file_at_index ∷ vga_put_char ∷ vga_put_str ∷ vga_cls
    ∷ vga_colour_error ∷ vga_standard_colour ∷ keyboard_get_input ∷ rtc_print_time
    ∷ process_make_foreground ∷ process_kill ∷ []

-- A `char` as an `int`: the compiler's `char` is signed, so the byte's top bit fills the word.
unfoldable pub char_to_int : ℕ → ℕ
char_to_int c = if ltb (u8 c) 128 then u8 c else u8 c + (2 ^ 32 - 2 ^ 8)

-- the registers that a system call uses
pub record Registers : Type 0 where
  pub eax : ℕ
  pub ebx : ℕ
  pub ecx : ℕ
  pub edx : ℕ
  pub esi : ℕ
  pub edi : ℕ

-- The system calls over a kernel whose functions take their arguments in C's order: the first is the
-- last word pushed.
module _ {S : Type 0} (call : KernelFunction → List ℕ → S → ℕ × S) where
  unfoldable pub handle : Registers → S → Registers × S
  handle regs s =
      let pushed = regs.ebx ∷ regs.ecx ∷ regs.edx ∷ regs.esi ∷ regs.edi ∷ [] in
      let (ret, s') = call (get_or syscall_map regs.eax process_kill) pushed s in
      if leb syscall_count regs.eax then (regs, s) else (record regs { eax = ret }, s')

  -- `int $0x80`, and the result in `eax`
  unfoldable pub syscall : ℕ → ℕ → ℕ → ℕ → ℕ → ℕ → S → ℕ × S
  syscall type p1 p2 p3 p4 p5 s =
      let (regs, s') =
        handle (record { eax = type; ebx = p1; ecx = p2; edx = p3; esi = p4; edi = p5 }) s in
      (regs.eax, s')

  abbrev pub get_current_process_info : S → ℕ × S
  get_current_process_info = syscall 1 0 0 0 0 0

  -- the address of the file's name, `file->filename`
  unfoldable pub create_child_process : ℕ → S → ℕ × S
  create_child_process filename s =
      let (current, s') = get_current_process_info s in syscall 0 filename current 0 0 0 s'

  unfoldable pub sbrk : ℕ → S → ℕ × S
  sbrk pages = syscall 2 pages 0 0 0 0

  -- `mode` is a `char`
  unfoldable pub open_file : ℕ → ℕ → S → ℕ × S
  open_file file_name mode = syscall 3 file_name (char_to_int mode) 0 0 0

  -- From here on, a function that is `void` leaves the state only.
  unfoldable pub read_file : ℕ → ℕ → ℕ → ℕ → S → S
  read_file node dest size offset s = (syscall 4 node dest size offset 0 s).1

  unfoldable pub get_file_info : ℕ → ℕ → S → S
  get_file_info node dest s = (syscall 5 node dest 0 0 0 s).1

  unfoldable pub get_file_at_index : ℕ → S → ℕ × S
  get_file_at_index idx = syscall 6 idx 0 0 0 0

  -- `c` is a `char`
  unfoldable pub put_char : ℕ → S → S
  put_char c s = (syscall 7 (char_to_int c) 0 0 0 0 s).1

  unfoldable pub put_str : ℕ → S → S
  put_str str s = (syscall 8 str 0 0 0 0 s).1

  unfoldable pub cls : S → S
  cls s = (syscall 9 0 0 0 0 0 s).1

  unfoldable pub vga_error : S → S
  vga_error s = (syscall 10 0 0 0 0 0 s).1

  unfoldable pub vga_std : S → S
  vga_std s = (syscall 11 0 0 0 0 0 s).1

  -- The result is a `char`: the low byte of `eax`.
  unfoldable pub get_input : S → ℕ × S
  get_input s = let (ret, s') = syscall 12 0 0 0 0 0 s in (u8 ret, s')

  unfoldable pub print_time : S → S
  print_time s = (syscall 13 0 0 0 0 0 s).1

  unfoldable pub make_foreground_process : S → S
  make_foreground_process s = (syscall 14 0 0 0 0 0 s).1

  unfoldable pub kill_process : ℕ → S → S
  kill_process proc s = (syscall 15 proc 0 0 0 0 s).1

  unfoldable pub suicide : S → S
  suicide s = let (current, s') = get_current_process_info s in (syscall 15 current 0 0 0 0 s').1
