-- ===== src/Ps2.antt =====
-- src/core/drivers/PS2.c: polling, sending and receiving. `status` is the byte that the status port
-- shows at each read, and a time is the number of reads so far.
pub mod Laws
use fantom_os.Base.{ℕ, zero, suc, ◌+◌, Bool, not, [], ◌∷◌, ◌==◌, if◌then◌else◌, bit_and, bit_or, u8}
use fantom_os.Pic.{Writes}

abbrev pub ps2_state : ℕ
ps2_state = 0x64

abbrev pub ps2_data : ℕ
ps2_data = 0x60

abbrev pub ps2_config_read : ℕ
ps2_config_read = 0x20

abbrev pub ps2_config_write : ℕ
ps2_config_write = 0x60

-- `c` in both polls
abbrev pub poll_limit : ℕ
poll_limit = 100000

-- `while(<busy> && c) c--;` from a time on, and the time behind it
unfoldable pub poll : ℕ → (ℕ → Bool) → ℕ → ℕ
poll zero busy t = t + 1
poll (suc c) busy t = let rest = poll c busy (t + 1) in if busy t then rest else t + 1

abbrev pub in_busy : (ℕ → ℕ) → ℕ → Bool
in_busy status t = not (bit_and (status t) 0x2 == 0)

abbrev pub out_busy : (ℕ → ℕ) → ℕ → Bool
out_busy status t = bit_and (status t) 0x1 == 0

unfoldable pub in_poll : (ℕ → ℕ) → ℕ → ℕ
in_poll status t = poll poll_limit (in_busy status) t

unfoldable pub out_poll : (ℕ → ℕ) → ℕ → ℕ
out_poll status t = poll poll_limit (out_busy status) t

-- the time after the poll, and the write that follows whatever the poll saw
unfoldable pub send : (ℕ → ℕ) → ℕ → ℕ → ℕ → ℕ × Writes
send status port cmd t = (in_poll status t, (port, u8 cmd) ∷ [])

-- the time after the poll, and the byte read; the C function has no `return`, and its callers get what
-- `inb` leaves in the register for results
unfoldable pub rec : (ℕ → ℕ) → ℕ → ℕ → ℕ × ℕ
rec status byte t = (out_poll status t, u8 byte)

-- what `PS2_enableInt` writes, for the configuration byte that it reads
unfoldable pub enable_int : ℕ → Writes
enable_int c =
    (ps2_state, ps2_config_read) ∷ (ps2_state, ps2_config_write) ∷ (ps2_data, bit_or (u8 c) 3) ∷ []
