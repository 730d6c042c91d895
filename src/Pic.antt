-- ===== src/Pic.antt =====
-- src/core/drivers/PIC.c: what is written to the ports of the interrupt controllers, in order.
use fantom_os.Base.{ℕ, ◌+◌, List, [], ◌∷◌, ◌++◌, ltb, if◌then◌else◌}

-- a port and the byte written to it
abbrev pub Writes : Type 0
Writes = List (ℕ × ℕ)

abbrev pub pic_master : ℕ
pic_master = 0x20

abbrev pub pic_slave : ℕ
pic_slave = 0xA0

abbrev pub pic_eoi : ℕ
pic_eoi = 0x20

-- The data port stands behind the command port.
abbrev pub init : Writes
init =
    (pic_master, 0x11)
    ∷ (pic_slave, 0x11)
    ∷ (pic_master + 1, 0x20)
    ∷ (pic_slave + 1, 0x28)
    ∷ (pic_master + 1, 0x04)
    ∷ (pic_slave + 1, 0x02)
    ∷ (pic_master + 1, 0x01)
    ∷ (pic_slave + 1, 0x01)
    ∷ (pic_master + 1, 0x00)
    ∷ (pic_slave + 1, 0x00)
    ∷ []

unfoldable pub eoi : ℕ → Writes
eoi int_num =
    (if ltb 39 int_num then (pic_slave, pic_eoi) ∷ [] else []) ++ (pic_master, pic_eoi) ∷ []
