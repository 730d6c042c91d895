-- ===== src/Serial.antt =====
-- src/core/drivers/Serial.c: the serial port. The device is the list of the status bytes that it will
-- show, one for each poll.
pub mod Laws
use fantom_os.Base.{
  ℕ, ◌+◌, ◌-◌, ◌≤◌, Bool, true, false, not, ◌&&◌, List, [], ◌∷◌, ◌++◌, ◌==◌, ltb, leb,
  if◌then◌else◌, bit_and, u8, get_or,
}
use fantom_os.Pic.{Writes}

abbrev pub port_count : ℕ
port_count = 4

abbrev pub com_ports : List ℕ
com_ports = 0x03F8 ∷ 0x02F8 ∷ 0x03E8 ∷ 0x02E8 ∷ []

-- the base of the lines that a port number stands for when it is written to, `com[port - 1]`
abbrev pub com_of : ℕ → ℕ
com_of port = get_or com_ports (port - 1) 0

-- `Serial_init` with its port 1, less the flag `sysInfo.serial_enabled`; it takes `com[port]`.
abbrev pub init : Writes
init =
    let base = get_or com_ports 1 0 in
    (base + 1, 0x00)
    ∷ (base + 3, 0x80)
    ∷ (base + 0, 0x03)
    ∷ (base + 1, 0x00)
    ∷ (base + 3, 0x03)
    ∷ (base + 2, 0xC7)
    ∷ (base + 4, 0x0B)
    ∷ []

-- A transmission ends, with what it wrote and the status bytes left; or the port is still busy when
-- the list ends; or the assertion on the port's number fails.
pub data Sent : Type 0 where
  sent : Writes → List ℕ → Sent
  busy : Sent
  panic : Sent

unfoldable pub transmit_free : ℕ → Bool
transmit_free status = not (bit_and status 0x20 == 0)

-- `while(!Serial_transmitFree(port));` and the write behind it
unfoldable pub send : ℕ → ℕ → List ℕ → Sent
send base c [] = busy
send base c (status ∷ later) =
    if transmit_free status then sent ((base, u8 c) ∷ []) later else send base c later

unfoldable pub put_char : ℕ → ℕ → List ℕ → Sent
put_char c port statuses =
    if ltb 0 port && leb port port_count then send (com_of port) c statuses else panic

abbrev pub and_then : Sent → (List ℕ → Sent) → Sent
and_then (sent w statuses) k = behind w (k statuses)
  where
    behind : Writes → Sent → Sent
    behind w (sent v statuses) = sent (w ++ v) statuses
    behind w busy = busy
    behind w panic = panic
and_then busy k = busy
and_then panic k = panic

unfoldable pub put_str : List ℕ → ℕ → List ℕ → Sent
put_str [] port statuses = sent [] statuses
put_str (c ∷ cs) port statuses = and_then (put_char c port statuses) (put_str cs port)
