-- ===== src/Vga.antt =====
-- src/modules/drivers/VGA.c: the text screen. The frame buffer is a function from the index of a cell
-- to its 16 bits, and the ports are the bytes written to them, the newest first.
mod Examples
pub mod Laws
pub mod Print
use fantom_os.Base.{
  ℕ, zero, suc, ◌+◌, ◌*◌, ◌/◌, ◌^◌, Bool, true, false, List, [], ◌∷◌, ◌==◌, leb, if◌then◌else◌,
  bit_or, u8, u16, u32, sub_u32,
}

abbrev pub vga_width : ℕ
vga_width = 80

abbrev pub vga_height : ℕ
vga_height = 25

abbrev pub Frame : Type 0
Frame = ℕ → ℕ

-- `VGA_x`, `VGA_y`, `VGA_colour` and `VGA_FRAMEBUFFER`
pub record Screen : Type 0 where
  pub x : ℕ
  pub y : ℕ
  pub colour : ℕ
  pub frame : Frame
  pub ports : List (ℕ × ℕ)

-- `VGA_FRAMEBUFFER[part] = v`
unfoldable pub put : Frame → ℕ → ℕ → Frame
put frame part v p = if part == p then u16 v else frame p

abbrev pub outb : ℕ → ℕ → Screen → Screen
outb port v s = record s { ports = (port, u8 v) ∷ s.ports }

-- `c | VGA_colour << 8` for a `char`, which is signed, in the 16 bits of a cell
unfoldable pub glyph : ℕ → ℕ → ℕ
glyph c colour = bit_or (if leb 128 c then 0xFF00 + c else c) (colour * 2 ^ 8)

unfoldable pub update : Screen → Screen
update s =
    let location = u32 (s.y * vga_width + s.x) in
    outb 0x3D5 location (outb 0x3D4 15 (outb 0x3D5 (location / 2 ^ 8) (outb 0x3D4 14 s)))

abbrev pub colour_error : Screen → Screen
colour_error s = record s { colour = bit_or 15 (4 * 2 ^ 4) }

abbrev pub standard_colour : Screen → Screen
standard_colour s = record s { colour = bit_or 15 (0 * 2 ^ 4) }

-- `for(p = ..) VGA_FRAMEBUFFER[p] = ' ' | VGA_colour << 8`, for `n` cells from `p` on
unfoldable pub blank : ℕ → ℕ → ℕ → Frame → Frame
blank zero p colour frame = frame
blank (suc n) p colour frame = blank n (p + 1) colour (put frame p (glyph b' ' colour))

-- `for(p = ..) VGA_FRAMEBUFFER[p] = VGA_FRAMEBUFFER[p+VGA_WIDTH]`, for `n` cells from `p` on
unfoldable pub shift : ℕ → ℕ → Frame → Frame
shift zero p frame = frame
shift (suc n) p frame = shift n (p + 1) (put frame p (frame (p + vga_width)))

-- the outer loop of `VGA_cls`: `n` rows from `y` on
unfoldable pub blank_rows : ℕ → ℕ → ℕ → Frame → Frame
blank_rows zero y colour frame = frame
blank_rows (suc n) y colour frame =
    blank_rows n (y + 1) colour (blank vga_width (y * vga_width) colour frame)

unfoldable pub cls : Screen → Screen
cls s =
    let home = standard_colour (record s { x = 0; y = 0 }) in
    record home { frame = blank_rows vga_height 0 home.colour home.frame }

unfoldable pub scroll : Screen → Screen
scroll s =
    if leb vga_height s.y
    then record s { y = 24; frame = blank 80 1920 s.colour (shift 1920 0 s.frame) }
    else s

-- the cases of the `switch` of `VGA_putChar`
unfoldable pub type_char : ℕ → Screen → Screen
type_char c s =
    if c == b'\r'
    then record s { x = 0 }
    else if c == 8
    then record s { x = sub_u32 s.x 1 }
    else if c == b'\t'
    then record s { x = u32 (s.x + 8) }
    else if c == b'\n'
    then scroll (record s { y = u32 (s.y + 1); x = 0 })
    else record s {
      frame = put s.frame (u32 (s.y * vga_width + s.x)) (glyph c s.colour);
      x = u32 (s.x + 1);
    }

-- `if(VGA_x>=VGA_WIDTH) { .. }`
unfoldable pub wrap : Screen → Screen
wrap s = if leb vga_width s.x then scroll (record s { x = 0; y = u32 (s.y + 1) }) else s

unfoldable pub put_char : ℕ → Screen → Screen
put_char c s = update (wrap (type_char c s))

-- over the bytes before the NUL
unfoldable pub put_str : List ℕ → Screen → Screen
put_str [] s = s
put_str (c ∷ cs) s = put_str cs (put_char c s)

-- `VGA_init`, less the flag `sysInfo.video_enabled`
unfoldable pub init : Screen → Screen
init s = standard_colour (cls s)
