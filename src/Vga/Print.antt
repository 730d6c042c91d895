-- ===== src/Vga/Print.antt =====
-- Where the cursor goes, and what a character leaves on the screen.
use fantom_os.Base.{
  ℕ, ◌+◌, ◌*◌, ◌/◌, ◌%◌, ◌^◌, ◌≤◌, ◌<◌, ◌≡◌, ◌≢◌, false, ◌∷◌, ◌==◌, leb, ltb, if◌then◌else◌, arith,
  u16, u32,
}
use fantom_os.Vga.{Screen, Frame, put, glyph, update, shift, scroll, type_char, wrap, put_char}
use fantom_os.Vga.Laws.{IsCells, put-IsCells, blank_lem, shift_lem}

-- The cursor is on the screen.
pub record OnScreen (s : Screen) : Type 0 where
  pub column : s.x < 80
  pub row : s.y < 25

-- A scroll from below the last row moves every row up by one and blanks the last; else it does nothing.
scrolled :
    (s : Screen) (q : ℕ)
    → 25 ≤ s.y
    → IsCells s.frame
    → (scroll s).frame q ≡ (
        if ltb q 1920
        then s.frame (q + 80)
        else if ltb q 2000
        then u16 (glyph b' ' s.colour)
        else s.frame q)
unfolding scroll
scrolled s q h c =
    ground
      (arith, blank_lem 80 1920 s.colour (shift 1920 0 s.frame) q, shift_lem 1920 0 s.frame q c)

scroll_frame : (s : Screen) (q : ℕ) → s.y < 25 → (scroll s).frame q ≡ s.frame q
unfolding scroll
scroll_frame s q h = ground arith

scroll_past : (s : Screen) (q : ℕ) → 2000 ≤ q → IsCells s.frame → (scroll s).frame q ≡ s.frame q
scroll_past s q h c = ground (arith, scroll_frame s q, λ (y : 25 ≤ s.y). scrolled s q y c)

put_past : (frame : Frame) (p v q : ℕ) → p < q → put frame p v q ≡ frame q
unfolding put
put_past frame p v q h = ground arith

scroll_x : (s : Screen) → (scroll s).x ≡ s.x
unfolding scroll
scroll_x s = ground arith

scroll_y : (s : Screen) → (scroll s).y ≡ (if leb 25 s.y then 24 else s.y)
unfolding scroll
scroll_y s = ground arith

scroll-ports : (s : Screen) → (scroll s).ports ≡ s.ports
unfolding scroll
scroll-ports s = ground arith

typed-row : (c : ℕ) (s : Screen) → s.y < 25 → (type_char c s).y < 25
unfolding type_char
typed-row c s h = ground (arith, scroll_y (record s { y = u32 (s.y + 1); x = 0 }))

wrap-OnScreen : (s : Screen) → s.y < 25 → OnScreen (wrap s)
unfolding wrap
wrap-OnScreen s h =
    let below = record s { x = 0; y = u32 (s.y + 1) } in
    record { column = ground (arith, scroll_x below); row = ground (arith, scroll_y below) }

-- Whatever the character, if the cursor's row is on the screen before, then its row and column
-- are after.
pub put_char-OnScreen : (c : ℕ) (s : Screen) → s.y < 25 → OnScreen (put_char c s)
unfolding put_char update
put_char-OnScreen c s h =
    let on = wrap-OnScreen (type_char c s) (typed-row c s h) in
    record { column = on.column; row = on.row }

typed-ports : (c : ℕ) (s : Screen) → (type_char c s).ports ≡ s.ports
unfolding type_char
typed-ports c s = ground (arith, scroll-ports (record s { y = u32 (s.y + 1); x = 0 }))

wrap-ports : (s : Screen) → (wrap s).ports ≡ s.ports
unfolding wrap
wrap-ports s = ground (arith, scroll-ports (record s { x = 0; y = u32 (s.y + 1) }))

-- If the cursor's row is on the screen, printing a character writes, last of all to the ports,
-- the cursor's new place to the two location registers of the display.
pub put_char-cursor :
    (c : ℕ) (s : Screen)
    → s.y < 25
    → let after = put_char c s in
      let place = 80 * after.y + after.x in
      after.ports
      ≡ (0x3D5, place % 256) ∷ (0x3D4, 15) ∷ (0x3D5, place / 256) ∷ (0x3D4, 14) ∷ s.ports
unfolding put_char update
put_char-cursor c s h =
    let t = type_char c s in
    let w = wrap t in
    let on = wrap-OnScreen t (typed-row c s h) in
    let lo : (w.y * 80 + w.x) % 2 ^ 32 % 256 ≡ (80 * w.y + w.x) % 256 =
      omega (arith, on.row, on.column) in
    let hi : (w.y * 80 + w.x) % 2 ^ 32 / 256 % 256 ≡ (80 * w.y + w.x) / 256 =
      omega (arith, on.row, on.column) in
    rw (lo, hi, wrap-ports t, typed-ports c s)

-- a character that is written to a cell
abbrev pub Printable : ℕ → Type 0
Printable c = (c ≢ 8) × (c ≢ 9) × (c ≢ 10) × (c ≢ 13)

-- the cells after `c` is written at the cursor
abbrev pub typed : ℕ → Screen → Frame
typed c s = put s.frame (80 * s.y + s.x) (glyph c s.colour)

-- A printable character before the last cell goes to the cursor's cell and the cursor moves on by one
-- cell, to the next row behind the last column. In the last cell it also scrolls: all rows move up by
-- one, the last becomes blank, and the cursor stands at its start.
pub record Printed (c : ℕ) (s after : Screen) : Type 0 where
  pub on :
      80 * s.y + s.x < 1999
      → (80 * after.y + after.x ≡ 80 * s.y + s.x + 1) × ((q : ℕ) → after.frame q ≡ typed c s q)
  pub scrolls :
      80 * s.y + s.x ≡ 1999
      → (80 * after.y + after.x ≡ 1920)
        × ((q : ℕ) → q < 1920 → after.frame q ≡ typed c s (q + 80))
        × ((q : ℕ) → 1920 ≤ q → q < 2000 → after.frame q ≡ u16 (glyph b' ' s.colour))
  pub outside : (q : ℕ) → 2000 ≤ q → after.frame q ≡ s.frame q

type_char-Printable :
    (c : ℕ) (s : Screen)
    → Printable c
    → OnScreen s
    → type_char c s ≡ record s { frame = typed c s; x = s.x + 1 }
unfolding type_char
type_char-Printable c s p h =
    let cr : (c == 13) ≡ false = ground arith in
    let bs : (c == 8) ≡ false = ground arith in
    let tab : (c == 9) ≡ false = ground arith in
    let nl : (c == 10) ≡ false = ground arith in
    let place : (s.y * 80 + s.x) % 2 ^ 32 ≡ 80 * s.y + s.x = omega (arith, h.row, h.column) in
    let next : (s.x + 1) % 2 ^ 32 ≡ s.x + 1 = omega (arith, h.column) in
    rw (cr, bs, tab, nl, place, next)

-- the end of `VGA_putChar` on the cells behind a printable character
wrap-Printed :
    (c : ℕ) (s : Screen)
    → OnScreen s
    → IsCells s.frame
    → Printed c s (wrap (record s { frame = typed c s; x = s.x + 1 }))
unfolding wrap
wrap-Printed c s h cells =
    let below = record s { frame = typed c s; x = 0; y = u32 (s.y + 1) } in
    let cells' = put-IsCells s.frame (80 * s.y + s.x) (glyph c s.colour) cells in
    record {
      on = λ i. (
        ground (arith, scroll_x below, scroll_y below),
        λ q. ground (arith, scroll_frame below q),
      );
      scrolls = λ i. (
        ground (arith, scroll_x below, scroll_y below),
        λ q hq. ground (arith, scrolled below q (omega arith) cells'),
        λ q lo hi. ground (arith, scrolled below q (omega arith) cells'),
      );
      outside = λ q i. ground (
        arith,
        scroll_frame below q,
        scroll_past below q i cells',
        put_past s.frame (80 * s.y + s.x) (glyph c s.colour) q,
      );
    }

-- With the cursor on the screen, a printable character goes to the cursor's cell and the cursor
-- moves on by one cell; in the last cell of the screen all rows also move up by one, the last
-- becomes blank, and the cursor stands at its start; no cell behind the screen changes.
pub put_char-Printed :
    (c : ℕ) (s : Screen) → Printable c → OnScreen s → IsCells s.frame → Printed c s (put_char c s)
unfolding put_char update
put_char-Printed c s p h cells =
    let printed = wrap-Printed c s h cells in
    rw (type_char-Printable c s p h)
      (record { on = printed.on; scrolls = printed.scrolls; outside = printed.outside })
