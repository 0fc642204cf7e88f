-- ===== src/Kbc.antt =====
-- kbc.c and kbc.h: the keyboard, from scan codes to characters.
pub mod Keys
mod Tests
use Prim.Native.Nat.{ℕ}
use amaterasu.Interrupt.{Idt, set_interrupt_descriptor}
use amaterasu.Pic.{enable_interrupt_on_pic}
use amaterasu.Base.{
  zero, suc, ◌+◌, ◌-◌, ◌*◌, ◌/◌, ◌%◌, ◌^◌, ◌&&◌, Bool, true, false, not, List, [], ◌∷◌, ◌++◌, leb,
  ltb, ◌==◌, if◌then◌else◌, bit_and, Option, none, some, length, get_or,
}
use amaterasu.X86.Ports.{Ports}
use amaterasu.Pic.{send_end_of_interrupt}

abbrev pub kbc_controller_address : ℕ
kbc_controller_address = 0x64

abbrev pub kbc_encoder_address : ℕ
kbc_encoder_address = 0x60

abbrev pub kbc_status_obf_mask : ℕ
kbc_status_obf_mask = 0x1

abbrev pub kbc_data_make_mask : ℕ
kbc_data_make_mask = 0x80

abbrev pub kbc_interrupt_num : ℕ
kbc_interrupt_num = 33

abbrev pub keycode_lshift : ℕ
keycode_lshift = 0x2a

abbrev pub keycode_rshift : ℕ
keycode_rshift = 0x36

abbrev pub keycode_lctrl : ℕ
keycode_lctrl = 0x1d

abbrev pub keycode_lalt : ℕ
keycode_lalt = 0x38

-- `scanCode`: the character of each key, by its code.
pub scan_code : List ℕ
scan_code =
    0x00 ∷ 0x1b ∷ b'1' ∷ b'2' ∷ b'3' ∷ b'4' ∷ b'5' ∷ b'6' ∷ b'7' ∷ b'8' ∷ b'9' ∷ b'0' ∷ b'-' ∷ b'='
    ∷ 0x08 ∷ 0x09 ∷ b'q' ∷ b'w' ∷ b'e' ∷ b'r' ∷ b't' ∷ b'y' ∷ b'u' ∷ b'i' ∷ b'o' ∷ b'p' ∷ b'['
    ∷ b']' ∷ 0x0a ∷ 0x00 ∷ b'a' ∷ b's' ∷ b'd' ∷ b'f' ∷ b'g' ∷ b'h' ∷ b'j' ∷ b'k' ∷ b'l' ∷ b';'
    ∷ 0x27 ∷ b'`' ∷ 0x00 ∷ 0x5c ∷ b'z' ∷ b'x' ∷ b'c' ∷ b'v' ∷ b'b' ∷ b'n' ∷ b'm' ∷ b',' ∷ b'.'
    ∷ b'/' ∷ 0x00 ∷ 0x00 ∷ 0x00 ∷ b' ' ∷ []

-- The cases of the `switch` of `CalcASCIICode`: the character, and what it is with and without shift.
pub shift_cases : List (ℕ × ℕ × ℕ)
shift_cases =
    (b'1', b'!', b'1')
    ∷ (b'2', b'@', b'2')
    ∷ (b'3', b'#', b'3')
    ∷ (b'4', b'$', b'4')
    ∷ (b'5', b'%', b'5')
    ∷ (b'6', b'^', b'6')
    ∷ (b'7', b'&', b'7')
    ∷ (b'8', b'*', b'8')
    ∷ (b'9', b'(', b'9')
    ∷ (b'0', b')', b'0')
    ∷ (b'-', b'_', b'-')
    ∷ (b'=', b'+', b'=')
    ∷ (b'[', b'{', b'[')
    ∷ (b']', b'}', b']')
    ∷ (0x0a, 0x0a, 0x0a)
    ∷ (b';', b':', b';')
    ∷ (0x27, 0x27, 0x22)
    ∷ (b'`', b'~', b'`')
    ∷ (0x5c, b'|', 0x5c)
    ∷ (b',', b'<', b',')
    ∷ (b'.', b'>', b'.')
    ∷ (b'/', b'?', b'/')
    ∷ []

-- The `switch` itself; `default` is 0.
switch_case : List (ℕ × ℕ × ℕ) → (c is_shift : ℕ) → ℕ
switch_case [] c is_shift = 0
switch_case ((label, with_shift, plain) ∷ cases) c is_shift =
    if c == label
    then (if is_shift == 0 then plain else with_shift)
    else switch_case cases c is_shift

-- `CalcASCIICode`
pub calc_ascii_code : (c is_shift : ℕ) → ℕ
unfolding shift_cases switch_case
calc_ascii_code c is_shift =
    if leb b'a' c && leb c b'z'
    then (if is_shift == 0 then c else c - b'a' + b'A')
    else switch_case shift_cases c is_shift

-- The character of a key; an index past the table reads what lies behind it.
pub scan_code_at : (behind : ℕ → ℕ) → (key_code : ℕ) → ℕ
unfolding scan_code
scan_code_at behind key_code =
    if ltb key_code (length scan_code) then get_or scan_code key_code 0 else behind key_code

-- What a key that is pressed writes to the screen.
pub echo : (c is_shift : ℕ) → List ℕ
echo c is_shift =
    let code = calc_ascii_code c is_shift in if code == 0x0a then 0x0d ∷ 0x0a ∷ [] else code ∷ []

-- The `switch` of `doKBCInterrupt`: the new state of the shift key, and the characters written.
pub handle_key : (behind : ℕ → ℕ) → (key_code is_brake is_shift : ℕ) → ℕ × List ℕ
handle_key behind key_code is_brake is_shift =
    let c = scan_code_at behind key_code in
    if key_code == keycode_lshift
    then (if is_brake == 0 then 1 else 0, [])
    else if key_code == keycode_rshift
    then (if is_brake == 0 then 1 else 0, [])
    else if key_code == keycode_lctrl
    then (is_shift, [])
    else if key_code == keycode_lalt
    then (is_shift, [])
    else if is_brake == 0
    then (is_shift, echo c is_shift)
    else (is_shift, [])

module _ (ports : Ports) (behind : ℕ → ℕ) where
  open ports use {Device, in_byte}

  -- `doKBCInterrupt`: the new state of the shift key, the characters passed to `putc`, the device.
  pub do_kbc_interrupt : (is_shift : ℕ) → Device → ℕ × List ℕ × Device
  do_kbc_interrupt is_shift d =
      let (status, d1) = in_byte kbc_controller_address d in
      let (key, d2) = in_byte kbc_encoder_address d1 in
      let (is_shift', out) =
        handle_key behind (bit_and key 0x7f) (bit_and (key / 2 ^ 7) 1) is_shift in
      if bit_and status kbc_status_obf_mask == 0
      then (is_shift, [], send_end_of_interrupt ports kbc_interrupt_num d1)
      else (is_shift', out, send_end_of_interrupt ports kbc_interrupt_num d2)

  -- `GetKBCData`, on fuel: wait until the output buffer is full.
  pub get_kbc_data : (fuel : ℕ) → Device → Option (ℕ × Device)
  get_kbc_data zero d = none
  get_kbc_data (suc fuel) d =
      let (status, d1) = in_byte kbc_controller_address d in
      let rest = get_kbc_data fuel d1 in
      if bit_and status kbc_status_obf_mask == 0
      then rest
      else some (in_byte kbc_encoder_address d1)

  -- `GetKeyCode`, on fuel: skip the codes of keys that are released.
  pub get_key_code : (fuel : ℕ) → Device → Option (ℕ × Device)
  get_key_code zero d = none
  get_key_code (suc fuel) d = elim (get_kbc_data fuel d) [
    | none ↦ none
    | some (key_data, d1) ↦ elim (bit_and key_data kbc_data_make_mask == 0) [
      | true ↦ some (key_data, d1)
      | false ↦ get_key_code fuel d1
    ]
  ]

  -- `getc`
  pub getc : (fuel : ℕ) → Device → Option (ℕ × Device)
  getc fuel d = elim (get_key_code fuel d) [
    | none ↦ none
    | some (key_code, d1) ↦ some (scan_code_at behind key_code, d1)
  ]

-- `KBCInit`; `handler` is the address of `KBCHandler`.
unfoldable pub kbc_init : (ports : Ports) (handler : ℕ) → Idt → ports.Device → Idt × ports.Device
kbc_init ports handler idt d = (
  set_interrupt_descriptor kbc_interrupt_num handler 1 idt,
  enable_interrupt_on_pic ports kbc_interrupt_num d,
)
