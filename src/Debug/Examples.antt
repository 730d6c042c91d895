-- ===== src/Debug/Examples.antt =====
-- A number, and a message with each kind of piece.
use fantom_os.Base.{true, false, List, [], ◌∷◌, arith}
use fantom_os.Debug.{Console, kprintf, iota}
use fantom_os.Debug.Laws.{Printed, iota-Numeral}
use fantom_os.Debug.Format.{
  Piece, literal, decimal, hexadecimal, string, message, arguments, Shown, kprintf-Shown,
}

abbrev serial_only : Console
serial_only = record {
  serial_enabled = true;
  video_enabled = false;
  serial = [];
  screen = record { x = 0; y = 0; colour = 15; frame = λ _. 0; ports = [] };
}

abbrev fault_line : List Piece
fault_line =
    literal b'i'
    ∷ decimal 14
    ∷ literal b' '
    ∷ hexadecimal 0xC0400000
    ∷ string (b'o' ∷ b'k' ∷ [])
    ∷ []

iota-Numeral_example : Printed 305 10 (iota (λ _. 0) 305 10)
iota-Numeral_example = iota-Numeral (λ _. 0) 305 10 (omega arith) (omega arith) (omega arith)

kprintf-Shown_example :
    Shown fault_line serial_only (kprintf (message fault_line) (arguments fault_line) serial_only)
kprintf-Shown_example =
    kprintf-Shown fault_line serial_only
      (omega arith, (omega arith, (omega arith, (omega arith, tt))))
