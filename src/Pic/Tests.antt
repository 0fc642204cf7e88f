-- ===== src/Pic/Tests.antt =====
-- A device that keeps the two mask registers, for the theorem on the masks.
use amaterasu.Base.{ℕ, ◌-◌, ◌%◌, ◌^◌, ◌<◌, ◌≡◌, refl, true, arith, ◌==◌, ◌&&◌, if◌then◌else◌}
use amaterasu.X86.Ports.{Ports}
use amaterasu.Pic.{enable_interrupt_on_pic, pic_master_data, pic_slave_data}
use amaterasu.Pic.Masks.{
  IsMaskPort, HasMasks, mask_bit, on_master, on_slave, enable_interrupt_on_pic-mask_bit,
}

abbrev pub device_mask : ℕ → ℕ × ℕ → ℕ
device_mask port d = if port == 0x21 then d.0 % 256 else if port == 0xa1 then d.1 % 256 else 0

abbrev pub two_masks : Ports
two_masks = record {
  Device = ℕ × ℕ;
  in_byte = λ port d. (device_mask port d, d);
  in_short = λ port d. (0, d);
  out_byte = λ port v d. if port == 0x21 then (v, d.1) else if port == 0xa1 then (d.0, v) else d;
}

pub device_byte : (port : ℕ) (d : ℕ × ℕ) → device_mask port d < 2 ^ 8
device_byte port d = ground arith

pub device_write :
    (port v q : ℕ) (d : ℕ × ℕ)
    → IsMaskPort port
    → v < 2 ^ 8
    → device_mask q (two_masks.out_byte port v d) ≡ (if q == port then v else device_mask q d)
device_write port v q d is_port small = ground arith

unfoldable pub two_masks-HasMasks : HasMasks two_masks
two_masks-HasMasks = record {
  ready = λ d. true;
  initialised = λ d. refl;
  read_ready = λ port d up. refl;
  write_ready = λ port v d is_port up. refl;
  mask = device_mask;
  mask_byte = device_byte;
  read_value = λ port d is_port up. refl;
  read_keeps = λ port q d. refl;
  write_mask = λ port v q d is_port up small. device_write port v q d is_port small;
}

abbrev pub all_masked : ℕ × ℕ
all_masked = (255, 255)

enable_interrupt_on_pic-mask_bit_example :
    let d' = enable_interrupt_on_pic two_masks 46 all_masked in
    (mask_bit (device_mask pic_master_data d') 2 ≡ (
      if on_master 46 && (2 == 46 - 32)
      then 0
      else if on_slave 46 && (2 == 2)
      then 0
      else mask_bit (device_mask pic_master_data all_masked) 2))
    × (mask_bit (device_mask pic_slave_data d') 2 ≡ (
        if on_slave 46 && (2 == 46 - 40)
        then 0
        else mask_bit (device_mask pic_slave_data all_masked) 2))
unfolding enable_interrupt_on_pic two_masks-HasMasks
enable_interrupt_on_pic-mask_bit_example =
    enable_interrupt_on_pic-mask_bit two_masks-HasMasks 46 2 all_masked (omega arith) refl
