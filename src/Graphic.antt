-- ===== src/Graphic.antt =====
-- graphic.c, fb.c and their headers: the frame buffer and the text printed on it. The font's table,
-- font.c, is data and an argument here. Coordinates are `unsigned int`.
pub mod Hex
pub mod Report
mod Tests
use amaterasu.Base.{
  ℕ, zero, suc, ◌+◌, ◌-◌, ◌*◌, ◌/◌, ◌%◌, ◌^◌, Bool, Option, none, some, ◌==◌, leb, if◌then◌else◌,
  bit_and, update,
}
use amaterasu.Util.{u64}
use amaterasu.X86.{shr}

abbrev pub u32 : ℕ
u32 = 2 ^ 32

abbrev pub font_width : ℕ
font_width = 8

abbrev pub font_height : ℕ
font_height = 10

abbrev pub unum64_str_len : ℕ
unum64_str_len = 16

-- `struct Pixel`
pub record Pixel : Type 0 where
  pub b : ℕ
  pub g : ℕ
  pub r : ℕ
  pub reserved : ℕ

-- `fb` and the cursor. `pixels` is the memory from `fb.Base` on.
pub record Screen : Type 0 where
  pub pixels : ℕ → Pixel
  pub size : ℕ
  pub horizontal_resolution : ℕ
  pub vertical_resolution : ℕ
  pub cursor_x : ℕ
  pub cursor_y : ℕ

abbrev pub Font : Type 0
Font = (c y x : ℕ) → ℕ

-- `FBInit`: the pixels are those of the given buffer.
pub fb_init : (given s : Screen) → Screen
fb_init given s = record s {
  pixels = given.pixels;
  size = given.size;
  horizontal_resolution = given.horizontal_resolution;
  vertical_resolution = given.vertical_resolution;
}

-- `DrawPixel`
pub draw_pixel : (x y r g b : ℕ) → Screen → Screen
draw_pixel x y r g b s =
    let at = s.horizontal_resolution * y % u32 + x in
    record s { pixels = update s.pixels at (record (s.pixels at) { r = r; g = g; b = b }) }

-- The inner and the outer loop of `SetBackGround`, and of `DrawBox` with other bounds.
fill_column : (rounds x y r g b : ℕ) → Screen → Screen
fill_column zero x y r g b s = s
fill_column (suc rounds) x y r g b s = fill_column rounds x (y + 1) r g b (draw_pixel x y r g b s)

fill_columns : (rounds height x y r g b : ℕ) → Screen → Screen
fill_columns zero height x y r g b s = s
fill_columns (suc rounds) height x y r g b s =
    fill_columns rounds height (x + 1) y r g b (fill_column height x y r g b s)

-- `DrawBox`
pub draw_box : (x y r g b : ℕ) → Screen → Screen
draw_box x y r g b s = fill_columns 100 100 x y r g b s

-- `SetBackGround`
pub set_back_ground : (r g b : ℕ) → Screen → Screen
set_back_ground r g b s = fill_columns s.horizontal_resolution s.vertical_resolution 0 0 r g b s

-- `GraphicInit`
pub graphic_init : Screen → Screen
graphic_init s = record (set_back_ground 0 0 255 s) { cursor_x = 0; cursor_y = 0 }

-- The loops of `putc` over the character's cell.
draw_cell_column : (rounds : ℕ) → Font → (c x y : ℕ) → Screen → Screen
draw_cell_column zero font c x y s = s
draw_cell_column (suc rounds) font c x y s =
    let at_x = (s.cursor_x + x) % u32 in
    let at_y = (s.cursor_y + y) % u32 in
    draw_cell_column rounds font c x (y + 1) (
      if font c y x == 0
      then draw_pixel at_x at_y 0 0 255 s
      else draw_pixel at_x at_y 255 255 255 s)

draw_cell : (rounds : ℕ) → Font → (c x : ℕ) → Screen → Screen
draw_cell zero font c x s = s
draw_cell (suc rounds) font c x s =
    draw_cell rounds font c (x + 1) (draw_cell_column font_height font c x 0 s)

-- `putc`
pub putc : Font → (c : ℕ) → Screen → Screen
putc font c s =
    let drawn = draw_cell font_width font c 0 s in
    if c == 10
    then record s { cursor_x = 0; cursor_y = (s.cursor_y + font_height) % u32 }
    else record drawn { cursor_x = (drawn.cursor_x + font_width) % u32 }

-- `puts`, on fuel for the bytes of the string and its end.
pub puts : (fuel : ℕ) → Font → (str : ℕ → ℕ) → (i : ℕ) → Screen → Option Screen
puts zero font str i s = none
puts (suc fuel) font str i s =
    let rest = puts fuel font str (i + 1) (putc font (str i) s) in
    if str i == 0 then some s else rest

-- The digit that `puth` writes for a remainder.
pub digit : (remainder : ℕ) → ℕ
digit remainder = if leb 10 remainder then 65 + remainder - 10 else 48 + remainder

-- The first loop of `puth`.
clear_digits : (rounds i : ℕ) → (ℕ → ℕ) → ℕ → ℕ
clear_digits zero i str = str
clear_digits (suc rounds) i str = clear_digits rounds (i + 1) (update str i 48)

-- The second loop of `puth`; `place` is `i + 1`, and `none` means that the fuel ran out.
write_digits : (fuel place num : ℕ) → (ℕ → ℕ) → Option (ℕ → ℕ)
write_digits zero place num str = none
write_digits (suc fuel) place num str =
    let rest =
      write_digits fuel (place - 1) (shr num 4)
        (update str (place - 1) (digit (bit_and num 0xf))) in
    if num == 0 then some str else rest

-- The string that `puth` builds, from the bytes that were in its array.
pub hex_string : (num : ℕ) → (ℕ → ℕ) → Option (ℕ → ℕ)
hex_string num str =
    write_digits 17 unum64_str_len num (update (clear_digits unum64_str_len 0 str) unum64_str_len 0)

-- `puth`; `str` is what the uninitialised array holds.
pub puth : Font → (num : ℕ) → (str : ℕ → ℕ) → Screen → Option Screen
puth font num str s = elim (hex_string num str) [
  | none ↦ none
  | some text ↦ puts (unum64_str_len + 1) font text 0 s
]
