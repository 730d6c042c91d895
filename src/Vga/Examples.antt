-- ===== src/Vga/Examples.antt =====
-- The theorems on the screen with the cursor in its last cell.
use fantom_os.Base.{[], arith}
use fantom_os.Vga.{Screen, put_char}
use fantom_os.Vga.Laws.{IsCells}
use fantom_os.Vga.Print.{Printed, put_char-Printed}

abbrev last_cell : Screen
last_cell = record { x = 79; y = 24; colour = 15; frame = λ q. 7; ports = [] }

sevens : IsCells (λ q. 7)
sevens q = omega arith

put_char-Printed_example : Printed b'x' last_cell (put_char b'x' last_cell)
put_char-Printed_example =
    put_char-Printed b'x' last_cell (omega arith, omega arith, omega arith, omega arith)
      (record { column = omega arith; row = omega arith }) sevens
