-- ===== src/PhysMemHybrid/Examples.antt =====
-- The hybrid allocator at a map of eight pages, of which page 1 is on the stack.
use fantom_os.Base.{◌*◌, ◌≡◌, ◌↔◌, ◌<◌, ℕ, refl, true, false, if◌then◌else◌, ◌==◌, arith}
use fantom_os.Memory.{Mem}
use fantom_os.PhysMemBitmap.{panic}
use fantom_os.PhysMemHybrid.{Hybrid, free, allocate}
use fantom_os.Base.{[], ◌∷◌, List, ◌/◌, page_size}
use fantom_os.PhysMemHybrid.{max_phys_stack}
use fantom_os.PhysMemHybrid.History.{Use, got, gave, Reach, start, later, IsSound, Kept, Reach-Kept}
use fantom_os.Multiboot.{MultibootInfo}
use fantom_os.PhysMemHybrid.{init}
use fantom_os.PhysMemHybrid.Start.{IsStarted, init-IsStarted}
use fantom_os.PhysMemHybrid.Laws.{
  IsValid, is_free, Released, Taken, allocate-Taken, allocate_panic, free-Released,
}

-- Every page is in use but page 1, whose address is the only word on the stack.
abbrev page_one : Mem
page_one a = if a == 0x100 then 255 else if a == 0x201 then 16 else 0

abbrev one_stacked : Hybrid
one_stacked = record {
  bitmap = record { base = 0x100; bytes = 1 };
  stack = record { base = 0x200; elements = 1; max_elements = 4 };
  mem = page_one;
}

valid : IsValid one_stacked
unfolding fantom_os.Memory.load32 fantom_os.Bitmap.check_bit fantom_os.Base.Bits.test_bit
valid = record {
  fits = omega arith;
  pages = omega arith;
  apart = omega arith;
  bytes = λ a. ground arith;
  stack = record { room = omega arith; count = omega arith; small = omega arith };
  stacked = (refl, omega arith, omega arith, refl, refl, tt);
}

allocate-Taken_example : Taken one_stacked (allocate one_stacked).1 0x1000
unfolding allocate fantom_os.Stack.pop fantom_os.Memory.load32
allocate-Taken_example = allocate-Taken {h = one_stacked} 0x1000 valid refl

allocate_panic_example :
    ((allocate one_stacked).0 ≡ panic) ↔ ((j : ℕ) → j < 8 → is_free one_stacked j ≡ false)
allocate_panic_example = allocate_panic valid

free-Released_example : Released one_stacked (free one_stacked 0x3000) 3
unfolding fantom_os.Memory.load32 fantom_os.Bitmap.check_bit fantom_os.Base.Bits.test_bit
free-Released_example = free-Released 3 valid (omega arith) (λ low. omega arith) refl

-- The same with a stack of full size, the page 3 in use.
abbrev full_size : Use
full_size = record {
  hybrid = record {
    bitmap = record { base = 0x100; bytes = 1 };
    stack = record { base = 0x200; elements = 1; max_elements = max_phys_stack };
    mem = page_one;
  };
  held = 3 ∷ [];
}

full_size-IsSound : IsSound full_size
unfolding fantom_os.Memory.load32 fantom_os.Bitmap.check_bit fantom_os.Base.Bits.test_bit
full_size-IsSound = record {
  valid = record {
    fits = omega arith;
    pages = omega arith;
    apart = omega arith;
    bytes = λ a. ground arith;
    stack = record { room = omega arith; count = omega arith; small = omega arith };
    stacked = (refl, omega arith, omega arith, refl, refl, tt);
  };
  full = refl;
  held = (omega arith, refl, refl, tt);
}

-- the page 1 is handed out, and the page 3 given back
abbrev one_got : Use
one_got = record { hybrid = (allocate full_size.hybrid).1; held = 1 ∷ 3 ∷ [] }

abbrev three_back : Use
three_back = record { hybrid = free one_got.hybrid 0x3000; held = 1 ∷ [] }

two_calls : Reach full_size three_back
unfolding allocate fantom_os.Stack.pop fantom_os.Memory.load32
two_calls = later (later start (got 0x1000 refl)) (gave 3 refl)

Reach-Kept_example : Kept full_size three_back
Reach-Kept_example = Reach-Kept full_size-IsSound two_calls

-- 80 pages of memory, of which the kernel, the map and the stack take the first 65
abbrev small_memory : MultibootInfo
small_memory = record { mods = []; mmap = record { addr = 0; len = 0x50000; type = 1 } ∷ [] }

init-IsStarted_example : IsStarted small_memory 0xC0000100 (init small_memory 0xC0000100 page_one)
unfolding fantom_os.PhysMemInit.phys_kend_of fantom_os.PhysMemInit.phys_total_of
init-IsStarted_example =
    init-IsStarted small_memory 0xC0000100 page_one
      (record { fits = omega arith; pages = omega arith }) (omega arith)
      (omega arith, omega arith, omega arith, tt) (λ a. ground arith) (omega arith) (omega arith)
