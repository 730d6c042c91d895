-- ===== src/Vga/Laws.antt =====
-- The cursor stays on the screen, and what clearing and scrolling leave in the cells.
use fantom_os.Base.{
  ℕ, zero, suc, ◌+◌, ◌*◌, ◌^◌, ◌<◌, ◌≡◌, refl, leb, ltb, if◌then◌else◌, ◌&&◌, arith, u16,
}
use fantom_os.Vga.{Screen, Frame, put, glyph, blank, shift, blank_rows, cls}

pub blank_lem :
    (n p colour : ℕ) (frame : Frame) (q : ℕ)
    → blank n p colour frame q
      ≡ (if leb p q && ltb q (p + n) then u16 (glyph b' ' colour) else frame q)
unfolding blank put
blank_lem zero p colour frame q = ground arith
blank_lem (suc n) p colour frame q =
    ground (arith, blank_lem n (p + 1) colour (put frame p (glyph b' ' colour)) q)

abbrev pub IsCells : Frame → Type 0
IsCells frame = (q : ℕ) → frame q < 2 ^ 16

pub put-IsCells : (frame : Frame) (p v : ℕ) → IsCells frame → IsCells (put frame p v)
unfolding put
put-IsCells frame p v h q = ground (arith, h q)

pub shift_lem :
    (n p : ℕ) (frame : Frame) (q : ℕ)
    → IsCells frame
    → shift n p frame q ≡ (if leb p q && ltb q (p + n) then frame (q + 80) else frame q)
unfolding shift put
shift_lem zero p frame q h = ground arith
shift_lem (suc n) p frame q h = ground (
  arith,
  h (p + 80),
  shift_lem n (p + 1) (put frame p (frame (p + 80))) q (put-IsCells frame p (frame (p + 80)) h),
)

blank_rows_lem :
    (n y colour : ℕ) (frame : Frame) (q : ℕ)
    → blank_rows n y colour frame q
      ≡ (if leb (80 * y) q && ltb q (80 * (y + n)) then u16 (glyph b' ' colour) else frame q)
unfolding blank_rows
blank_rows_lem zero y colour frame q = ground arith
blank_rows_lem (suc n) y colour frame q = ground (
  arith,
  blank_rows_lem n (y + 1) colour (blank 80 (y * 80) colour frame) q,
  blank_lem 80 (y * 80) colour frame q,
)

-- Clearing the screen takes the cursor home and leaves 2000 white-on-black blanks, and no other
-- cell changes.
pub cls_lem :
    (s : Screen) (q : ℕ)
    → ((cls s).x ≡ 0)
      × ((cls s).y ≡ 0)
      × ((cls s).frame q ≡ (if ltb q 2000 then 0x0F20 else s.frame q))
unfolding cls glyph
cls_lem s q = (refl, refl, ground (arith, blank_rows_lem 25 0 15 s.frame q))
