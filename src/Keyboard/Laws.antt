-- ===== src/Keyboard/Laws.antt =====
-- The buffer of keys as a list, and where it is written.
use fantom_os.Base.{
  ℕ, zero, suc, ◌+◌, ◌-◌, ◌^◌, ◌%◌, ◌≤◌, ◌<◌, ◌≡◌, refl, ap, ap₂, sym, map, append-nil,
  append_assoc, ◌⊎◌, inl, inr, Bool-cases, ◌∙◌, true, false, List, [], ◌∷◌, ◌++◌, arith, length,
  ltb, ◌==◌, if◌then◌else◌, null, u8,
}
use fantom_os.Base.Bits.{every, every_at, test_bit, eqb, eqb→eq}
use fantom_os.Memory.{Mem, store8}
use fantom_os.Memory.Laws.{store8_ne}
use fantom_os.Keyboard.{KeyBuffer, new_buffer, buffer_read, buffer_write, Keys, type_code, key_of}

-- The buffer as `Keyboard_getNewBuffer` sets it up and the operations keep it: its end is its start,
-- which no pointer comes back to.
pub record IsLinear (b : KeyBuffer) : Type 0 where
  pub no_end : b.e ≡ b.s
  pub below : b.s ≤ b.r
  pub span : b.w ≡ b.r + b.curr_elements
  pub small : b.curr_elements < 2 ^ 16
  pub room : b.w < 2 ^ 32

-- `n` bytes from `a` on
abbrev pub bytes : Mem → ℕ → ℕ → List ℕ
bytes m a zero = []
bytes m a (suc n) = m a ∷ bytes m (a + 1) n

-- the keys that wait, the oldest first
abbrev pub contents : Mem → KeyBuffer → List ℕ
contents m b = bytes m b.r b.curr_elements

abbrev pub top : List ℕ → ℕ
top [] = null
top (x ∷ xs) = x

abbrev pub rest : List ℕ → List ℕ
rest [] = []
rest (x ∷ xs) = xs

bytes_frame :
    (m : Mem) (a n p k : ℕ) → (p < a) ⊎ (a + n ≤ p) → bytes (store8 m p k) a n ≡ bytes m a n
bytes_frame m a zero p k o = refl
bytes_frame m a (suc n) p k o =
    ap₂ ◌∷◌ (store8_ne m p k a (omega arith)) (bytes_frame m (a + 1) n p k (omega arith))

bytes_snoc :
    (m : Mem) (a n p k : ℕ) → p ≡ a + n → bytes (store8 m p k) a (suc n) ≡ bytes m a n ++ u8 k ∷ []
unfolding store8
bytes_snoc m a zero p k e = ground arith
bytes_snoc m a (suc n) p k e =
    ap₂ ◌∷◌ (store8_ne m p k a (omega arith)) (bytes_snoc m (a + 1) n p k (omega arith))

bytes_at : (m : Mem) (a n k : ℕ) → n ≡ suc k → bytes m a n ≡ m a ∷ bytes m (a + 1) k
bytes_at m a n k e = rw e

-- After a write the new key stands behind the others.
pub buffer_write-contents :
    {b : KeyBuffer} (m : Mem) (key : ℕ)
    → IsLinear b
    → b.w + 1 < 2 ^ 32
    → b.curr_elements + 1 < 2 ^ 16
    → let (m', b') = buffer_write key m b in
      IsLinear b' × (contents m' b' ≡ contents m b ++ u8 key ∷ [])
unfolding buffer_write
buffer_write-contents {b} m key v room small =
    let next : (b.w + 1) % 2 ^ 32 ≡ b.w + 1 = omega arith in
    let count : (b.curr_elements + 1) % 2 ^ 16 ≡ suc b.curr_elements = omega arith in
    let on : (b.w + 1 == b.e) ≡ false = ground (arith, v.no_end, v.below, v.span) in
    rw (next, count, on)
      (
        record {
          no_end = v.no_end;
          below = v.below;
          span = omega (arith, v.span);
          small = omega arith;
          room = omega arith;
        },
        bytes_snoc m b.r b.curr_elements b.w key v.span,
      )

pub buffer_read-contents :
    {b : KeyBuffer} (m : Mem)
    → IsLinear b
    → let (key, b') = buffer_read m b in
      IsLinear b' × (key ≡ top (contents m b)) × (contents m b' ≡ rest (contents m b))
unfolding buffer_read
buffer_read-contents {b} m v = elim (Bool-cases (b.curr_elements == 0)) [
  | inl none_left ↦ let z : b.curr_elements ≡ 0 = ground arith in rw none_left (v, rw z, rw z)
  | inr some_left ↦
      let held = bytes_at m b.r b.curr_elements (b.curr_elements - 1) (ground arith) in
      let next : (b.r + 1) % 2 ^ 32 ≡ b.r + 1 = ground (arith, v.span, v.room) in
      let count : (b.curr_elements + 2 ^ 16 - 1) % 2 ^ 16 ≡ b.curr_elements - 1 =
        ground (arith, v.small) in
      let on : (b.r + 1 == b.e) ≡ false = ground (arith, v.no_end, v.below) in
      rw (some_left, next, count, on)
        (
          record {
            no_end = v.no_end;
            below = omega (arith, v.below);
            span = ground (arith, v.span);
            small = omega (arith, v.small);
            room = v.room;
          },
          rw held,
          rw held,
        )
]

write_moves :
    (m : Mem) (b : KeyBuffer) (key : ℕ)
    → IsLinear b
    → b.w + 1 < 2 ^ 32
    → b.curr_elements + 1 < 2 ^ 16
    → let b' = (buffer_write key m b).1 in
      (b'.r ≡ b.r) × (b'.w ≡ b.w + 1) × (b'.curr_elements ≡ b.curr_elements + 1)
unfolding buffer_write
write_moves m b key v room small = ground (arith, v.no_end, v.below, v.span)

-- all keys in turn
abbrev pub write_all : List ℕ → Mem → KeyBuffer → Mem × KeyBuffer
write_all [] m b = (m, b)
write_all (key ∷ keys) m b = let (m', b') = buffer_write key m b in write_all keys m' b'

abbrev pub stored : List ℕ → List ℕ
stored keys = map (λ k. u8 k) keys

write_all_lem :
    (keys : List ℕ) (m : Mem) (b : KeyBuffer)
    → IsLinear b
    → b.w + length keys < 2 ^ 32
    → b.curr_elements + length keys < 2 ^ 16
    → let (m', b') = write_all keys m b in
      (b'.r ≡ b.r)
      × (b'.curr_elements ≡ b.curr_elements + length keys)
      × (contents m' b' ≡ contents m b ++ stored keys)
write_all_lem [] m b v room small = (refl, omega arith, sym (append-nil _))
write_all_lem (key ∷ keys) m b v room small =
    let one = buffer_write-contents m key v (omega arith) (omega arith) in
    let moved = write_moves m b key v (omega arith) (omega arith) in
    let go =
      write_all_lem keys (buffer_write key m b).0 (buffer_write key m b).1 one.0
        (omega (arith, moved.1)) (omega (arith, moved.2)) in
    (
      go.0 ∙ moved.0,
      omega (arith, go.1, moved.2),
      go.2
          ∙ ap (λ l. l ++ stored keys) one.1
          ∙ append_assoc (contents m b) (u8 key ∷ []) (stored keys),
    )

-- If the addresses do not wrap and fewer than 2^16 keys are written, keys written to a new
-- buffer with no read between lie one behind the other in memory from the buffer's start on,
-- also past its 128 bytes.
pub write_all-new :
    (keys : List ℕ) (m : Mem) (s : ℕ)
    → s + length keys < 2 ^ 32
    → length keys < 2 ^ 16
    → bytes (write_all keys m (new_buffer s)).0 s (length keys) ≡ stored keys
write_all-new keys m s room small =
    let v : IsLinear (new_buffer s) = record {
      no_end = refl;
      below = omega arith;
      span = omega arith;
      small = omega arith;
      room = omega arith;
    } in
    let all = write_all_lem keys m (new_buffer s) v room (omega arith) in
    let count : length keys ≡ (write_all keys m (new_buffer s)).1.curr_elements =
      omega (arith, all.1) in
    ap₂ (λ a n. bytes (write_all keys m (new_buffer s)).0 a n) (sym all.0) count ∙ all.2

scan_bits : every (λ c. eqb (test_bit (u8 (c + 256 - 128)) 7) (ltb c 128)) 256 ≡ true
unfolding every test_bit eqb
scan_bits = refl

pressed : (scan : ℕ) → scan < 256 → test_bit (u8 (scan + 256 - 128)) 7 ≡ ltb scan 128
pressed scan h =
    eqb→eq _ _
      (every_at (λ c. eqb (test_bit (u8 (c + 256 - 128)) 7) (ltb c 128)) 256 scan h scan_bits)

-- A key's press leaves the buffer; its release puts the key behind those that wait.
pub type_code-contents :
    (scan : ℕ) (keys : Keys)
    → scan < 256
    → IsLinear keys.buffer
    → keys.buffer.w + 1 < 2 ^ 32
    → keys.buffer.curr_elements + 1 < 2 ^ 16
    → let keys' = type_code scan keys in
      contents keys'.mem keys'.buffer ≡ (
        if ltb scan 128
        then contents keys.mem keys.buffer
        else contents keys.mem keys.buffer ++ u8 (key_of (scan - 128)) ∷ [])
unfolding type_code
type_code-contents scan keys h v room small = elim (Bool-cases (ltb scan 128)) [
  | inl press ↦ rw (pressed scan h, press)
  | inr release ↦
      let code : (scan + 256 - 128) % 256 ≡ scan - 128 = ground arith in
      rw (pressed scan h, release)
        ((buffer_write-contents keys.mem (key_of ((scan + 256 - 128) % 256)) v room small).1
          ∙ ap (λ c. contents keys.mem keys.buffer ++ u8 (key_of c) ∷ []) code)
]
