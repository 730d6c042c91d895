-- ===== src/Syscall/Laws.antt =====
-- Each wrapper of the user library reaches the function of the kernel that it stands for.
use fantom_os.Base.{
  ℕ, ◌+◌, ◌-◌, ◌*◌, ◌/◌, ◌%◌, ◌^◌, ◌≤◌, ◌≡◌, refl, arith, Option, none, some, List, [], ◌∷◌,
}
use fantom_os.Syscall.{
  KernelFunction, process_create_child, scheduler_get_current, heap_mem_sbrk, vfs_open, vfs_read,
  vfs_file_info, vfs_get_file_at_index, vga_put_char, vga_put_str, vga_cls, vga_colour_error,
  vga_standard_colour, keyboard_get_input, rtc_print_time, process_make_foreground, process_kill,
  Registers, handle, syscall, char_to_int, get_current_process_info, create_child_process, sbrk,
  open_file, read_file, get_file_info, get_file_at_index, put_char, put_str, cls, vga_error,
  vga_std, get_input, print_time, make_foreground_process, kill_process, suicide,
}

-- what a user program asks for
pub data Request : Type 0 where
  create_child : ℕ → Request
  current : Request
  grow : ℕ → Request
  open_named : ℕ → ℕ → Request
  read_from : ℕ → ℕ → ℕ → ℕ → Request
  info : ℕ → ℕ → Request
  file_at : ℕ → Request
  show_char : ℕ → Request
  show_str : ℕ → Request
  clear : Request
  error_colour : Request
  normal_colour : Request
  key : Request
  time : Request
  foreground : Request
  kill : ℕ → Request
  kill_self : Request

-- A byte as a word of 32 bits with the byte's sign, in two's complement.
abbrev pub char_word : ℕ → ℕ
char_word c = (c % 2 ^ 8 + 2 ^ 32 - 2 ^ 8 * (c % 2 ^ 8 / 2 ^ 7)) % 2 ^ 32

char_to_int_lem : (c : ℕ) → char_to_int c ≡ char_word c
unfolding char_to_int
char_to_int_lem c = ground arith

module _ {S : Type 0} (call : KernelFunction → List ℕ → S → ℕ × S) where
  -- a wrapper with a result, and one that is `void`
  abbrev pub giving : ℕ × S → Option ℕ × S
  giving (x, s) = (some x, s)

  abbrev pub void : S → Option ℕ × S
  void s = (none, s)

  -- the wrapper for a request
  abbrev pub by_wrapper : Request → S → Option ℕ × S
  by_wrapper (create_child filename) s = giving (create_child_process call filename s)
  by_wrapper current s = giving (get_current_process_info call s)
  by_wrapper (grow pages) s = giving (sbrk call pages s)
  by_wrapper (open_named name mode) s = giving (open_file call name mode s)
  by_wrapper (read_from node dest size offset) s = void (read_file call node dest size offset s)
  by_wrapper (info node dest) s = void (get_file_info call node dest s)
  by_wrapper (file_at idx) s = giving (get_file_at_index call idx s)
  by_wrapper (show_char c) s = void (put_char call c s)
  by_wrapper (show_str str) s = void (put_str call str s)
  by_wrapper clear s = void (cls call s)
  by_wrapper error_colour s = void (vga_error call s)
  by_wrapper normal_colour s = void (vga_std call s)
  by_wrapper key s = giving (get_input call s)
  by_wrapper time s = void (print_time call s)
  by_wrapper foreground s = void (make_foreground_process call s)
  by_wrapper (kill proc) s = void (kill_process call proc s)
  by_wrapper kill_self s = void (suicide call s)

  -- a kernel function called with its arguments, of which the system call always passes five
  abbrev pub direct : KernelFunction → ℕ → ℕ → ℕ → ℕ → S → ℕ × S
  direct f a b c d = call f (a ∷ b ∷ c ∷ d ∷ 0 ∷ [])

  -- The same request made in the kernel, as seen by the program: a `char` goes in as a word and comes
  -- out as a byte, and a `void` call gives no result.
  abbrev pub in_kernel : Request → S → Option ℕ × S
  in_kernel (create_child filename) s =
      let (parent, s') = direct scheduler_get_current 0 0 0 0 s in
      giving (direct process_create_child filename parent 0 0 s')
  in_kernel current s = giving (direct scheduler_get_current 0 0 0 0 s)
  in_kernel (grow pages) s = giving (direct heap_mem_sbrk pages 0 0 0 s)
  in_kernel (open_named name mode) s = giving (direct vfs_open name (char_word mode) 0 0 s)
  in_kernel (read_from node dest size offset) s = void (direct vfs_read node dest size offset s).1
  in_kernel (info node dest) s = void (direct vfs_file_info node dest 0 0 s).1
  in_kernel (file_at idx) s = giving (direct vfs_get_file_at_index idx 0 0 0 s)
  in_kernel (show_char c) s = void (direct vga_put_char (char_word c) 0 0 0 s).1
  in_kernel (show_str str) s = void (direct vga_put_str str 0 0 0 s).1
  in_kernel clear s = void (direct vga_cls 0 0 0 0 s).1
  in_kernel error_colour s = void (direct vga_colour_error 0 0 0 0 s).1
  in_kernel normal_colour s = void (direct vga_standard_colour 0 0 0 0 s).1
  in_kernel time s = void (direct rtc_print_time 0 0 0 0 s).1
  in_kernel foreground s = void (direct process_make_foreground 0 0 0 0 s).1
  in_kernel (kill proc) s = void (direct process_kill proc 0 0 0 s).1
  in_kernel key s =
      let (word, s') = direct keyboard_get_input 0 0 0 0 s in (some (word % 2 ^ 8), s')
  in_kernel kill_self s =
      let (self, s') = direct scheduler_get_current 0 0 0 0 s in
      void (direct process_kill self 0 0 0 s').1

  -- Whatever the kernel's functions do, each wrapper of the user library reaches the function of
  -- the kernel that it stands for, with its arguments in their places, a character as the word
  -- with its sign, and 0 for the others; it returns the function's result, of which a character
  -- is the low byte, or nothing if it is void; creating a child and ending oneself ask for the
  -- current process first.
  pub by_wrapper-in_kernel : (r : Request) (s : S) → by_wrapper r s ≡ in_kernel r s
  unfolding syscall handle create_child_process sbrk open_file read_file get_file_info
      get_file_at_index put_char put_str cls vga_error vga_std get_input print_time
      make_foreground_process kill_process suicide
  by_wrapper-in_kernel (open_named name mode) s = rw (char_to_int_lem mode) refl
  by_wrapper-in_kernel (show_char c) s = rw (char_to_int_lem c) refl
  by_wrapper-in_kernel (create_child filename) s = refl
  by_wrapper-in_kernel current s = refl
  by_wrapper-in_kernel (grow pages) s = refl
  by_wrapper-in_kernel (read_from node dest size offset) s = refl
  by_wrapper-in_kernel (info node dest) s = refl
  by_wrapper-in_kernel (file_at idx) s = refl
  by_wrapper-in_kernel (show_str str) s = refl
  by_wrapper-in_kernel clear s = refl
  by_wrapper-in_kernel error_colour s = refl
  by_wrapper-in_kernel normal_colour s = refl
  by_wrapper-in_kernel key s = refl
  by_wrapper-in_kernel time s = refl
  by_wrapper-in_kernel foreground s = refl
  by_wrapper-in_kernel (kill proc) s = refl
  by_wrapper-in_kernel kill_self s = refl

  pub handle-out_of_range :
      (regs : Registers) (s : S) → 16 ≤ regs.eax → handle call regs s ≡ (regs, s)
  unfolding handle
  handle-out_of_range regs s h = ground arith
