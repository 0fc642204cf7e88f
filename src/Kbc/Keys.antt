-- ===== src/Kbc/Keys.antt =====
-- What the keyboard handler makes of a key.
use amaterasu.Base.{
  ℕ, ◌-◌, ◌<◌, ◌≤◌, ◌≡◌, ◌≢◌, ◌||◌, refl, true, [], ◌==◌, ==_iff, if◌then◌else◌, arith, get_or,
}
use amaterasu.Base.Table.{all_below, all_below-true}
use amaterasu.Kbc.{
  scan_code, calc_ascii_code, scan_code_at, handle_key, keycode_lshift, keycode_rshift,
  keycode_lctrl, keycode_lalt,
}

-- The character that a key of the table stands for without shift.
pub plain_code : ℕ → ℕ
plain_code c =
    if (c == 0x1b) || (c == 0x08) || (c == 0x09) || (c == b' ')
    then 0
    else if c == 0x27
    then 0x22
    else c

plain_table :
    all_below 58
      (λ k. calc_ascii_code (get_or scan_code k 0) 0 == plain_code (get_or scan_code k 0))
    ≡ true
unfolding all_below calc_ascii_code plain_code scan_code
plain_table = refl

-- Without shift a key of the table gives its own character, but for the quote, which gives the double
-- quote, and for escape, backspace, tab and the space bar, which give 0.
pub calc_ascii_code-scan_code :
    (behind : ℕ → ℕ) (k : ℕ)
    → k < 58
    → calc_ascii_code (scan_code_at behind k) 0 ≡ plain_code (scan_code_at behind k)
unfolding scan_code_at
calc_ascii_code-scan_code behind k h =
    let inside : scan_code_at behind k ≡ get_or scan_code k 0 = ground arith in
    rw inside (
      (==_iff _ _).0 (
        all_below-true 58
          (λ k. calc_ascii_code (get_or scan_code k 0) 0 == plain_code (get_or scan_code k 0)) k
          plain_table h))

-- With shift a letter becomes its capital, without it stays.
pub calc_ascii_code-letter :
    (c is_shift : ℕ)
    → b'a' ≤ c
    → c ≤ b'z'
    → calc_ascii_code c is_shift ≡ (if is_shift == 0 then c else c - 32)
unfolding calc_ascii_code
calc_ascii_code-letter c is_shift lo hi = ground arith

-- The shift keys alone change the state of the shift, to pressed or released as the code says; a key
-- that is released writes nothing, and neither do the shift, control and alt keys.
pub handle_key_lem :
    (behind : ℕ → ℕ) (key is_brake is_shift : ℕ)
    → let (is_shift', out) = handle_key behind key is_brake is_shift in
      (is_shift' ≡ (
        if (key == keycode_lshift) || (key == keycode_rshift)
        then (if is_brake == 0 then 1 else 0)
        else is_shift))
      × (is_brake ≢ 0 → out ≡ [])
      × (key ≡ keycode_lshift → out ≡ [])
      × (key ≡ keycode_rshift → out ≡ [])
      × (key ≡ keycode_lctrl → out ≡ [])
      × (key ≡ keycode_lalt → out ≡ [])
unfolding handle_key
handle_key_lem behind key is_brake is_shift = ground arith
