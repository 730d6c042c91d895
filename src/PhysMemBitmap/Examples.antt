-- ===== src/PhysMemBitmap/Examples.antt =====
-- The bitmap allocator at a map of eight pages, and its start with one available entry.
use fantom_os.Base.{ℕ, ◌*◌, ◌≡◌, ◌≢◌, refl, some, List, [], ◌∷◌, arith}
use fantom_os.Memory.{Mem}
use fantom_os.Bitmap.{Bitmap, check_bit}
use fantom_os.Multiboot.{MultibootInfo}
use fantom_os.PhysMemBitmap.{page, free, allocate, init, map_of}
use fantom_os.PhysMemBitmap.Init.{IsReady, init-IsReady}
use fantom_os.PhysMemBitmap.Laws.{IsValid, FirstFit, allocate-FirstFit, free-allocate}

abbrev eight_pages : Bitmap
eight_pages = record { base = 0x100; bytes = 1 }

-- page 0 is in use
abbrev first_used : Mem
first_used a = 1

valid : IsValid eight_pages first_used
valid = record { fits = omega arith; pages = omega arith; bytes = λ a. omega arith }

allocate-FirstFit_example : FirstFit eight_pages first_used (allocate eight_pages first_used)
allocate-FirstFit_example = allocate-FirstFit valid

free-allocate_example :
    check_bit eight_pages (free eight_pages (allocate eight_pages first_used).1 0x1000) 1
    ≡ check_bit eight_pages first_used 1
unfolding allocate fantom_os.PhysMemBitmap.search_from fantom_os.Bitmap.check_bit
    fantom_os.Base.Bits.test_bit
free-allocate_example =
    free-allocate {map = eight_pages} {m = first_used} 0x1000 1 valid refl (omega arith)

-- 16 MB of memory from address 0 on
abbrev one_entry : MultibootInfo
one_entry = record { mods = []; mmap = record { addr = 0; len = 0x1000000; type = 1 } ∷ [] }

init-IsReady_example : IsReady one_entry 0xC0200000 (init one_entry 0xC0200000 first_used)
unfolding fantom_os.PhysMemInit.phys_kend_of fantom_os.PhysMemInit.phys_total_of
init-IsReady_example =
    init-IsReady one_entry 0xC0200000 first_used
      (record { fits = omega arith; pages = omega arith })
      (omega arith, omega arith, omega arith, tt) (λ a. omega arith)
