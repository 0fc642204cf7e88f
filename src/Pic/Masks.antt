-- ===== src/Pic/Masks.antt =====
-- Which interrupts pic.c lets through.
use amaterasu.Base.{
  ◌⊎◌, inl, inr, Bool-cases, ℕ, ◌-◌, ◌/◌, ◌%◌, ◌^◌, ◌<◌, ◌≡◌, refl, ap, ◌∙◌, Bool, true, false,
  ◌&&◌, arith, leb, ltb, ◌==◌, if◌then◌else◌, bit_and,
}
use amaterasu.Base.Table.{all_below, all_below-true}
use amaterasu.X86.Ports.{Ports}
use amaterasu.Pic.{
  pic_master_data, pic_slave_data, init_words, pic_init, unmask, enable_interrupt_on_pic,
  send_end_of_interrupt,
}
use amaterasu.Interrupt.{syscall_interrupt_num}

-- Bit `k` of a mask register.
abbrev pub mask_bit : (mask k : ℕ) → ℕ
mask_bit mask k = mask / 2 ^ k % 2

abbrev pub IsMaskPort : ℕ → Type 0
IsMaskPort port = (port ≡ pic_master_data) ⊎ (port ≡ pic_slave_data)

-- The documented behaviour of the two controllers. The initialisation words make them ready. A ready
-- controller's data port reads as the mask that was last written to it, a write there changes this mask
-- only, and reads change no mask.
pub record HasMasks (ports : Ports) : Type 0 where
  pub ready : ports.Device → Bool
  pub initialised : (d : ports.Device) → ready (init_words ports d) ≡ true
  pub read_ready :
      (port : ℕ) (d : ports.Device) → ready d ≡ true → ready (ports.in_byte port d).1 ≡ true
  pub write_ready :
      (port v : ℕ) (d : ports.Device)
      → IsMaskPort port
      → ready d ≡ true
      → ready (ports.out_byte port v d) ≡ true
  pub mask : ℕ → ports.Device → ℕ
  pub mask_byte : (port : ℕ) (d : ports.Device) → mask port d < 2 ^ 8
  pub read_value :
      (port : ℕ) (d : ports.Device)
      → IsMaskPort port
      → ready d ≡ true
      → (ports.in_byte port d).0 ≡ mask port d
  pub read_keeps : (port q : ℕ) (d : ports.Device) → mask q (ports.in_byte port d).1 ≡ mask q d
  pub write_mask :
      (port v q : ℕ) (d : ports.Device)
      → IsMaskPort port
      → ready d ≡ true
      → v < 2 ^ 8
      → mask q (ports.out_byte port v d) ≡ (if q == port then v else mask q d)

-- A mask with bit `k` cleared, as `EnableInterruptOnPIC` computes it.
abbrev cleared : (mask k : ℕ) → ℕ
cleared mask k = if bit_and mask (2 ^ k % 2 ^ 8) == 0 then mask else mask - 2 ^ k % 2 ^ 8

cleared_ok : (mask k j : ℕ) → Bool
cleared_ok mask k j =
    (mask_bit (cleared mask k) j == (if j == k then 0 else mask_bit mask j))
    && ltb (cleared mask k) 256

cleared_table : all_below 256 (λ m. all_below 8 (λ k. all_below 8 (λ j. cleared_ok m k j))) ≡ true
unfolding all_below cleared_ok
cleared_table = refl

cleared_lem :
    (mask k j : ℕ)
    → mask < 2 ^ 8
    → k < 8
    → j < 8
    → (mask_bit (cleared mask k) j ≡ (if j == k then 0 else mask_bit mask j))
      × (cleared mask k < 2 ^ 8)
unfolding cleared_ok
cleared_lem mask k j hm hk hj =
    let row =
      all_below-true 256 (λ m. all_below 8 (λ k. all_below 8 (λ j. cleared_ok m k j))) mask
        cleared_table hm in
    let cell = all_below-true 8 (λ k. all_below 8 (λ j. cleared_ok mask k j)) k row hk in
    let point : cleared_ok mask k j ≡ true =
      all_below-true 8 (λ j. cleared_ok mask k j) j cell hj in
    ground (arith, point)

-- An interrupt of the first controller, and of the second.
abbrev pub on_master : ℕ → Bool
on_master n = leb 32 n && ltb n 40

abbrev pub on_slave : ℕ → Bool
on_slave n = leb 40 n && ltb n 48

not_slave : (n : ℕ) → on_master n ≡ true → on_slave n ≡ false
not_slave n m = ground arith

master_lt : (n : ℕ) → on_master n ≡ true → n - 32 < 8
master_lt n m = ground arith

slave_lt : (n : ℕ) → on_slave n ≡ true → n - 40 < 8
slave_lt n s = ground arith

-- The interrupt of the system calls is none of the controllers', so its end sends nothing.
pub end_of_syscall :
    (ports : Ports) (d : ports.Device) → send_end_of_interrupt ports syscall_interrupt_num d ≡ d
unfolding send_end_of_interrupt
end_of_syscall ports d = refl

module _ {ports : Ports} (laws : HasMasks ports) where
  open laws use {
    ready, initialised, read_ready, write_ready, mask, mask_byte, read_value, read_keeps,
    write_mask,
  }

  unmask_mask :
      (port k q : ℕ) (d : ports.Device)
      → IsMaskPort port
      → k < 8
      → ready d ≡ true
      → mask q (unmask ports port k d) ≡ (if q == port then cleared (mask port d) k else mask q d)
  unfolding unmask
  unmask_mask port k q d data_port hk up =
      let bit = 2 ^ k % 2 ^ 8 in
      let d' = (ports.in_byte port d).1 in
      let byte : mask port d - bit < 2 ^ 8 = omega (arith, mask_byte port d) in
      ground (
        arith,
        read_value port d data_port up,
        read_keeps port q d,
        write_mask port (mask port d - bit) q d' data_port (read_ready port d up) byte,
      )

  unmask_ready :
      (port k : ℕ) (d : ports.Device)
      → IsMaskPort port
      → ready d ≡ true
      → ready (unmask ports port k d) ≡ true
  unfolding unmask
  unmask_ready port k d data_port up =
      let d' = (ports.in_byte port d).1 in
      let bit = 2 ^ k % 2 ^ 8 in
      let up' = read_ready port d up in
      ground (arith, write_ready port ((ports.in_byte port d).0 - bit) d' data_port up')

  -- The mask bits after `EnableInterruptOnPIC`: the interrupt's own bit is cleared, for an interrupt
  -- of the second controller the bit of the line between the two as well, and no other bit changes.
  pub enable_interrupt_on_pic-mask_bit :
      (n j : ℕ) (d : ports.Device)
      → j < 8
      → ready d ≡ true
      → let d' = enable_interrupt_on_pic ports n d in
        (mask_bit (mask pic_master_data d') j ≡ (
          if on_master n && (j == n - 32)
          then 0
          else if on_slave n && (j == 2)
          then 0
          else mask_bit (mask pic_master_data d) j))
        × (mask_bit (mask pic_slave_data d') j
            ≡ (if on_slave n && (j == n - 40) then 0 else mask_bit (mask pic_slave_data d) j))
  unfolding enable_interrupt_on_pic
  enable_interrupt_on_pic-mask_bit n j d hj up = elim (Bool-cases (on_master n)) [
    | inl m ↦
        rw (m, not_slave n m)
          (
            ap (λ v. mask_bit v j)
                  (unmask_mask pic_master_data (n - 32) pic_master_data d (inl refl) (master_lt n m)
                    up)
                ∙ (cleared_lem (mask pic_master_data d) (n - 32) j (mask_byte pic_master_data d)
                    (master_lt n m) hj).0,
            ap (λ v. mask_bit v j)
                (unmask_mask pic_master_data (n - 32) pic_slave_data d (inl refl) (master_lt n m)
                  up),
          )
    | inr nm ↦ elim (Bool-cases (on_slave n)) [
      | inl s ↦
          let d1 = unmask ports pic_slave_data (n - 40) d in
          let up1 = unmask_ready pic_slave_data (n - 40) d (inr refl) up in
          rw (nm, s)
            (
              ap (λ v. mask_bit v j)
                    (unmask_mask pic_master_data 2 pic_master_data d1 (inl refl) (omega arith) up1
                      ∙ ap (λ v. cleared v 2)
                          (unmask_mask pic_slave_data (n - 40) pic_master_data d (inr refl)
                            (slave_lt n s) up))
                  ∙ (cleared_lem (mask pic_master_data d) 2 j (mask_byte pic_master_data d)
                      (omega arith) hj).0,
              ap (λ v. mask_bit v j)
                    (unmask_mask pic_master_data 2 pic_slave_data d1 (inl refl) (omega arith) up1
                      ∙ unmask_mask pic_slave_data (n - 40) pic_slave_data d (inr refl)
                          (slave_lt n s) up)
                  ∙ (cleared_lem (mask pic_slave_data d) (n - 40) j (mask_byte pic_slave_data d)
                      (slave_lt n s) hj).0,
            )
      | inr ns ↦ rw (nm, ns) (refl, refl)
    ]
  ]

  pub enable_interrupt_on_pic-ready :
      (n : ℕ) (d : ports.Device) → ready d ≡ true → ready (enable_interrupt_on_pic ports n d) ≡ true
  unfolding enable_interrupt_on_pic
  enable_interrupt_on_pic-ready n d up =
      let d1 = unmask ports pic_slave_data (n - 40) d in
      let up1 = unmask_ready pic_slave_data (n - 40) d (inr refl) up in
      ground (
        arith,
        unmask_ready pic_master_data (n - 32) d (inl refl) up,
        unmask_ready pic_master_data 2 d1 (inl refl) up1,
      )

  -- After `picInit` both controllers are ready and let no interrupt through.
  pub pic_init-masks :
      (d : ports.Device)
      → (ready (pic_init ports d) ≡ true)
        × (mask pic_master_data (pic_init ports d) ≡ 0xff)
        × (mask pic_slave_data (pic_init ports d) ≡ 0xff)
  unfolding pic_init
  pic_init-masks d =
      let d1 = init_words ports d in
      let up1 = initialised d in
      let d2 = ports.out_byte pic_master_data 0xff d1 in
      let up2 = write_ready pic_master_data 0xff d1 (inl refl) up1 in
      (
        write_ready pic_slave_data 0xff d2 (inr refl) up2,
        write_mask pic_slave_data 0xff pic_master_data d2 (inr refl) up2 (omega arith)
            ∙ write_mask pic_master_data 0xff pic_master_data d1 (inl refl) up1 (omega arith),
        write_mask pic_slave_data 0xff pic_slave_data d2 (inr refl) up2 (omega arith),
      )
