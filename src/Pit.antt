-- ===== src/Pit.antt =====
-- src/core/drivers/PIT.c: what is written to the ports of the timer.
use fantom_os.Base.{ℕ, ◌/◌, [], ◌∷◌, u8, u16}
use fantom_os.Pic.{Writes}

abbrev pub in_hz : ℕ
in_hz = 1193180

abbrev pub out_hz : ℕ
out_hz = 100

abbrev pub pit_port_0 : ℕ
pit_port_0 = 0x40

abbrev pub pit_port_ctrl : ℕ
pit_port_ctrl = 0x43

abbrev pub init : Writes
init =
    let div = u16 (in_hz / out_hz) in
    (pit_port_ctrl, 0x36) ∷ (pit_port_0, u8 div) ∷ (pit_port_0, u8 (div / 256)) ∷ []
