-- ===== src/Keyboard.antt =====
-- src/modules/drivers/Keyboard.c: the buffer of keys and the handler of the keyboard's interrupt.
mod Examples
pub mod Laws
use fantom_os.Base.{
  ℕ, ◌+◌, ◌-◌, ◌^◌, Bool, true, false, not, List, [], ◌∷◌, ◌==◌, if◌then◌else◌, get_or, null, u8,
  u16, u32,
}
use fantom_os.Base.Bits.{test_bit}
use fantom_os.Memory.{Mem, store8}
use fantom_os.NodeHeap.{Ptr}
use fantom_os.Task.{Call, pure, ◌>>=◌, ◌>>◌, wait, load_pcb, store_pcb}
use fantom_os.Scheduler.{get_current}

-- `KEYBUFFER_MAX`
abbrev pub keybuffer_max : ℕ
keybuffer_max = 128

-- `keybuffer_t`
pub record KeyBuffer : Type 0 where
  pub s : ℕ
  pub e : ℕ
  pub r : ℕ
  pub w : ℕ
  pub curr_elements : ℕ

-- the buffer that `Keyboard_getNewBuffer` fills, for the address of its keys
abbrev pub new_buffer : ℕ → KeyBuffer
new_buffer s = record { s = s; e = s; r = s; w = s; curr_elements = 0 }

-- the key, and the buffer afterwards
unfoldable pub buffer_read : Mem → KeyBuffer → ℕ × KeyBuffer
buffer_read m b =
    let next = u32 (b.r + 1) in
    if b.curr_elements == 0 then (null, b) else (
      m b.r,
      record b {
        r = if next == b.e then b.s else next;
        curr_elements = u16 (b.curr_elements + 2 ^ 16 - 1);
      },
    )

-- There is no test for a full buffer.
unfoldable pub buffer_write : ℕ → Mem → KeyBuffer → Mem × KeyBuffer
buffer_write key m b =
    let next = u32 (b.w + 1) in
    (
      store8 m b.w key,
      record b { w = if next == b.e then b.s else next; curr_elements = u16 (b.curr_elements + 1) },
    )

-- `layout_us`; the entries that are not listed are 0.
abbrev pub layout_us : List ℕ
layout_us =
    0 ∷ 27 ∷ b'1' ∷ b'2' ∷ b'3' ∷ b'4' ∷ b'5' ∷ b'6' ∷ b'7' ∷ b'8' ∷ b'9' ∷ b'0' ∷ b'-' ∷ b'=' ∷ 8
    ∷ 9 ∷ b'q' ∷ b'w' ∷ b'e' ∷ b'r' ∷ b't' ∷ b'y' ∷ b'u' ∷ b'i' ∷ b'o' ∷ b'p' ∷ b'[' ∷ b']' ∷ 10 ∷ 0
    ∷ b'a' ∷ b's' ∷ b'd' ∷ b'f' ∷ b'g' ∷ b'h' ∷ b'j' ∷ b'k' ∷ b'l' ∷ b';' ∷ 39 ∷ b'`' ∷ 0 ∷ b'\\'
    ∷ b'z' ∷ b'x' ∷ b'c' ∷ b'v' ∷ b'b' ∷ b'n' ∷ b'm' ∷ b',' ∷ b'.' ∷ b'/' ∷ 0 ∷ b'*' ∷ 0 ∷ b' ' ∷ 0
    ∷ 0 ∷ 0 ∷ 0 ∷ 0 ∷ 0 ∷ 0 ∷ 0 ∷ 0 ∷ 0 ∷ 0 ∷ 0 ∷ 0 ∷ 0 ∷ 0 ∷ 0 ∷ b'-' ∷ 0 ∷ 0 ∷ 0 ∷ b'+' ∷ []

unfoldable pub key_of : ℕ → ℕ
key_of code = get_or layout_us code 0

-- `kbBuffer`, the memory that it lies in, and `blocking`
pub record Keys : Type 0 where
  pub buffer : KeyBuffer
  pub mem : Mem
  pub blocking : Ptr

-- what is typed, from the byte that the controller gives
unfoldable pub type_code : ℕ → Keys → Keys
type_code scan keys =
    let code = u8 (scan + 256 - 128) in
    let (m, b) = buffer_write (key_of code) keys.mem keys.buffer in
    if test_bit code 7 then keys else record keys { mem = m; buffer = b }

-- `kb_handler`, with the byte that `PS2_rec` returned
unfoldable pub handler : ℕ → Keys → Call Keys
handler scan keys = do
  let code : ℕ = u8 (scan + 256 - 128)
  let typed : Keys = type_code scan keys
  p ← get_current
  let woken : Call Keys = (do
    c ← load_pcb p
    store_pcb p (record c { state = wait })
    pure (record typed { blocking = null }))
  if test_bit code 7
      then pure keys
      else if keys.blocking == null
      then pure typed
      else if p == keys.blocking
      then woken
      else pure typed
