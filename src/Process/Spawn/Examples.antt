-- ===== src/Process/Spawn/Examples.antt =====
-- Two user processes, the first and a later one, of a program of two pages.
use fantom_os.Base.{◌≡◌, refl, false, some, [], ◌∷◌, arith}
use fantom_os.NodeHeap.FirstFree.{first_free, first_free-IsCalloc}
use fantom_os.Base.{◌^◌, ◌-◌}
use fantom_os.NodeHeap.FirstFree.{search-finds}
use fantom_os.VirtMem.{init_entry}
use fantom_os.VirtMem.Machine.{Vm, put, zeros}
use fantom_os.VirtMem.Window.{Windowed}
use fantom_os.Vfs.{Node, Mounts, open_file}
use fantom_os.Process.Spawn.{System, Space, create_user_process}
use fantom_os.Process.Spawn.First.{CanBeFirst, create_user_process-first}
use fantom_os.Process.Spawn.Finish.{CanJoin}
use fantom_os.Process.Spawn.Begun.{CanCreate}
use fantom_os.Process.Spawn.Created.{Created, create_user_process-Created}
use fantom_os.Process.Examples.{queue_nodes, three, three-Queue}

-- A directory in force in the frame 1, with the window's table in the frame 2, and pages to come.
abbrev spawn_vm : Vm
spawn_vm = record {
  frames = put (put (λ _ _. zeros) 1 1023 (init_entry 0x1000 1 0)) 1 768 (init_entry 0x2000 1 0);
  cr3 = 1;
  pse_enabled = false;
  supply = 0xA000 ∷ 0xB000 ∷ 0xC000 ∷ 0xD000 ∷ 0xE000 ∷ 0xF000 ∷ [];
  returned = [];
}

spawn_vm-Windowed : Windowed spawn_vm 2
unfolding init_entry put
spawn_vm-Windowed = record {
  small_pages = refl;
  self_there = refl;
  self_frame = refl;
  window_there = refl;
  window_frame = refl;
  apart = omega arith;
}

-- a program of two pages
abbrev program : Node
program = record { file_size = 5000; filename = b'a' ∷ []; idx = 0 }

abbrev one_program : Mounts
one_program =
    record { mount_id = b'C'; root_node = 0x7000; files = program ∷ []; ram_addr = 0x8000 } ∷ []

abbrev before_spawn : System
before_spawn = record { kernel = three; vm = spawn_vm; curr_pid = 3; writes = []; esp = 0 }

abbrev space : Space
space = record { pcb = 400; kernel_stack = 0xC0500000; keybuffer = 0 }

spawn_vm-CanCreate : CanCreate spawn_vm 2 0x1000 0xA000 0xC000 0xE000 0xF000 0xB000 (0xD000 ∷ []) []
spawn_vm-CanCreate = record {
  windowed = spawn_vm-Windowed;
  kernel_small = omega arith;
  kernel_apart = omega arith;
  directory = record { small = omega arith; not_window = omega arith; not_in_force = omega arith };
  not_kernel = omega arith;
  code_table = record {
    small = omega arith;
    not_window = omega arith;
    not_in_force = omega arith;
    not_dir = omega arith;
  };
  stack_table = record {
    small = omega arith;
    not_window = omega arith;
    not_in_force = omega arith;
    not_dir = omega arith;
  };
  tables = omega arith;
  pages = (omega arith, omega arith, (omega arith, omega arith, tt));
  stack_page = (omega arith, omega arith, tt);
  supply = refl;
}

three-CanJoin : CanJoin first_free three (300 ∷ 200 ∷ 100 ∷ []) 400
three-CanJoin = record {
  not_null = omega arith;
  queue = three-Queue;
  cell = search-finds (2 ^ 32 - 1) queue_nodes 17 (omega arith) (omega arith) refl;
  room = omega arith;
}

program_found : open_file one_program (b'a' ∷ []) ≡ some program
unfolding open_file fantom_os.Vfs.find_node fantom_os.Vfs.find_in fantom_os.Vfs.name_cmp
program_found = refl

create_user_process-Created_example :
    (y' : System) × (create_user_process first_free one_program 0x1000 space
        (b'a' ∷ [])
        before_spawn
      ≡ some (400, y'))
    × Created before_spawn y' space 2 0xA000 0xE000
        (0xB000 ∷ 0xD000 ∷ [])
        []
        program
        (300 ∷ 200 ∷ 100 ∷ [])
create_user_process-Created_example =
    create_user_process-Created first_free one_program before_spawn space (b'a' ∷ []) program 2
      0x1000 0xA000 0xC000 0xE000 0xF000 0xB000 (0xD000 ∷ []) [] (300 ∷ 200 ∷ 100 ∷ [])
      first_free-IsCalloc spawn_vm-CanCreate three-CanJoin program_found refl (omega arith)
      (omega arith)

-- The same for the first process, with one more page for the kernel's table of the stack.
abbrev first_vm : Vm
first_vm = record spawn_vm {
  supply = 0xA000 ∷ 0xB000 ∷ 0xC000 ∷ 0xD000 ∷ 0xE000 ∷ 0xF000 ∷ 0x11000 ∷ [];
}

abbrev before_first : System
before_first = record { kernel = three; vm = first_vm; curr_pid = 1; writes = []; esp = 0 }

first_vm-CanCreate :
    CanCreate first_vm 2 0x1000 0xA000 0xC000 0xE000 0xF000 0xB000 (0xD000 ∷ []) (0x11000 ∷ [])
first_vm-CanCreate =
    let c = spawn_vm-CanCreate in
    record {
      windowed = record {
        small_pages = spawn_vm-Windowed.small_pages;
        self_there = spawn_vm-Windowed.self_there;
        self_frame = spawn_vm-Windowed.self_frame;
        window_there = spawn_vm-Windowed.window_there;
        window_frame = spawn_vm-Windowed.window_frame;
        apart = spawn_vm-Windowed.apart;
      };
      kernel_small = c.kernel_small;
      kernel_apart = c.kernel_apart;
      directory = record {
        small = omega arith;
        not_window = omega arith;
        not_in_force = omega arith;
      };
      not_kernel = c.not_kernel;
      code_table = record {
        small = omega arith;
        not_window = omega arith;
        not_in_force = omega arith;
        not_dir = omega arith;
      };
      stack_table = record {
        small = omega arith;
        not_window = omega arith;
        not_in_force = omega arith;
        not_dir = omega arith;
      };
      tables = c.tables;
      pages = c.pages;
      stack_page = c.stack_page;
      supply = refl;
    }

first_vm-CanBeFirst : CanBeFirst first_vm 2 0x1000 0xA000 0xC000 0xF000 0x11000
unfolding init_entry put
first_vm-CanBeFirst = record {
  in_force = refl;
  no_stack = refl;
  table = record {
    small = omega arith;
    not_window = omega arith;
    not_in_force = omega arith;
    not_dir = omega arith;
  };
  not_code = omega arith;
  not_stack = omega arith;
}

create_user_process-first_example :
    (y' : System) × (create_user_process first_free one_program 0x1000 space
        (b'a' ∷ [])
        before_first
      ≡ some (400, y'))
    × Created before_first y' space 2 0xA000 0xE000
        (0xB000 ∷ 0xD000 ∷ [])
        []
        program
        (300 ∷ 200 ∷ 100 ∷ [])
create_user_process-first_example =
    create_user_process-first first_free one_program before_first space (b'a' ∷ []) program 2 0x1000
      0xA000 0xC000 0xE000 0xF000 0x11000 0xB000 (0xD000 ∷ []) [] (300 ∷ 200 ∷ 100 ∷ [])
      first_free-IsCalloc first_vm-CanCreate first_vm-CanBeFirst three-CanJoin program_found refl
      (omega arith) refl
