-- ===== src/Pic.antt =====
-- pic.c and pic.h: the two interrupt controllers, through the ports.
pub mod Masks
pub mod Tests
use amaterasu.Base.{
  ℕ, ◌+◌, ◌-◌, ◌*◌, ◌/◌, ◌%◌, ◌^◌, ◌&&◌, leb, ltb, ◌==◌, if◌then◌else◌, bit_and, bit_or,
}
use amaterasu.X86.Ports.{Ports}

abbrev pub pic_master_command_status : ℕ
pic_master_command_status = 0x20

abbrev pub pic_master_data : ℕ
pic_master_data = 0x21

abbrev pub pic_slave_command_status : ℕ
pic_slave_command_status = 0xa0

abbrev pub pic_slave_data : ℕ
pic_slave_data = 0xa1

abbrev pub pic_master_interrupt_num : ℕ
pic_master_interrupt_num = 32

abbrev pub pic_slave_interrupt_num : ℕ
pic_slave_interrupt_num = 40

abbrev pub pic_eoi : ℕ
pic_eoi = 0x60

module _ (ports : Ports) where
  open ports use {Device, in_byte, out_byte}

  -- The eight initialisation words of `picInit`.
  pub init_words : Device → Device
  init_words d =
      let d1 = out_byte pic_master_command_status 0x11 d in
      let d2 = out_byte pic_slave_command_status 0x11 d1 in
      let d3 = out_byte pic_master_data pic_master_interrupt_num d2 in
      let d4 = out_byte pic_slave_data pic_slave_interrupt_num d3 in
      let d5 = out_byte pic_master_data 0x4 d4 in
      let d6 = out_byte pic_slave_data 0x2 d5 in
      let d7 = out_byte pic_master_data 0x1 d6 in out_byte pic_slave_data 0x1 d7

  -- `picInit`
  pub pic_init : Device → Device
  pic_init d = out_byte pic_slave_data 0xff (out_byte pic_master_data 0xff (init_words d))

  -- The read of a mask register and the write that clears one bit, if the bit is set.
  unmask : (data_port interrupt_offset : ℕ) → Device → Device
  unmask data_port interrupt_offset d =
      let interrupt_bit = 2 ^ interrupt_offset % 2 ^ 8 in
      let (imr, d') = in_byte data_port d in
      if bit_and imr interrupt_bit == 0 then d' else out_byte data_port (imr - interrupt_bit) d'

  -- `EnableInterruptOnPIC`
  pub enable_interrupt_on_pic : (interrupt_num : ℕ) → Device → Device
  enable_interrupt_on_pic interrupt_num d =
      if leb pic_master_interrupt_num interrupt_num && ltb interrupt_num pic_slave_interrupt_num
      then unmask pic_master_data (interrupt_num - pic_master_interrupt_num) d
      else if leb pic_slave_interrupt_num interrupt_num
          && ltb interrupt_num (pic_slave_interrupt_num + 8)
      then unmask pic_master_data 2
          (unmask pic_slave_data (interrupt_num - pic_slave_interrupt_num) d)
      else d

  -- `SendEndOfInterrupt`
  unfoldable pub send_end_of_interrupt : (interrupt_num : ℕ) → Device → Device
  send_end_of_interrupt interrupt_num d =
      if leb pic_master_interrupt_num interrupt_num && ltb interrupt_num pic_slave_interrupt_num
      then out_byte pic_master_command_status
          (bit_or pic_eoi (interrupt_num - pic_master_interrupt_num)) d
      else if leb pic_slave_interrupt_num interrupt_num
          && ltb interrupt_num (pic_slave_interrupt_num + 8)
      then out_byte pic_slave_command_status
          (bit_or pic_eoi (interrupt_num - pic_slave_interrupt_num))
          (out_byte pic_master_command_status (bit_or pic_eoi 0x2) d)
      else d
