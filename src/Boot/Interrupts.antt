-- ===== src/Boot/Interrupts.antt =====
-- Which interrupts lead where, and which the controllers let through.
use native.Mathlib.Decide.{ℕ_discrete}
use amaterasu.Base.{
  ℕ, ◌+◌, ◌≡◌, ◌<◌, refl, ap, ◌∙◌, true, ◌==◌, if◌then◌else◌, update, arith, eq_self, eq_of_ne, ltb,
}
use amaterasu.Base.Table.{all_below, all_below-true}
use amaterasu.Util.{u64}
use amaterasu.X86.Ports.{Ports}
use amaterasu.Interrupt.{
  Idt, Interrupts, max_intr_num, syscall_interrupt_num, set_interrupt_descriptor,
  double_fault_excp_num, general_protection_fault_excp_num, page_fault_excp_num, idt_init,
}
use amaterasu.Interrupt.Table.{target, set_interrupt_descriptor_lem, idt_init_lem}
use amaterasu.Pic.{pic_master_data, pic_slave_data, pic_init, enable_interrupt_on_pic}
use amaterasu.Pic.Masks.{
  HasMasks, mask_bit, pic_init-masks, enable_interrupt_on_pic-ready,
  enable_interrupt_on_pic-mask_bit,
}
use amaterasu.Kbc.{kbc_interrupt_num}
use amaterasu.Hpet.{hpet_interrupt_num}
use amaterasu.Ata.{BusSelector, ata_interrupt_num}
use amaterasu.Ata.Init.{io_base, init_drives}
use amaterasu.Ata.Init.Search.{After, init_drives-After}
use amaterasu.Boot.Start.{Symbols}

-- The handler of each interrupt, and whether its descriptor is present.
abbrev pub handler_of : Symbols → ℕ → ℕ
handler_of s n =
    if n == page_fault_excp_num
    then s.page_fault_handler
    else if n == ata_interrupt_num
    then s.ata_handler
    else if n == syscall_interrupt_num
    then s.syscall_handler
    else if n == hpet_interrupt_num
    then s.hpet_handler
    else if n == kbc_interrupt_num
    then s.kbc_handler
    else if n == double_fault_excp_num
    then s.double_fault_handler
    else if n == general_protection_fault_excp_num
    then s.general_protection_fault_handler
    else s.default_handler

abbrev pub present_of : ℕ → ℕ
present_of n =
    if n == page_fault_excp_num
    then 1
    else if n == ata_interrupt_num
    then 1
    else if n == syscall_interrupt_num
    then 1
    else if n == hpet_interrupt_num
    then 1
    else if n == kbc_interrupt_num
    then 1
    else if n == double_fault_excp_num
    then 1
    else if n == general_protection_fault_excp_num
    then 1
    else 0

-- Every descriptor leads to its handler, is present as told, and is open to user code only for the
-- system calls.
abbrev pub Wired : Idt → (handler present : ℕ → ℕ) → Type 0
Wired idt handler present =
    (n : ℕ)
    → n < max_intr_num
    → (target (idt n) ≡ handler n)
      × ((idt n).present ≡ present n)
      × ((idt n).dpl ≡ (if n == syscall_interrupt_num then 3 else 0))

-- The handlers' addresses have 64 bits.
pub record InRange (s : Symbols) : Type 0 where
  pub default : s.default_handler < u64
  pub double_fault : s.double_fault_handler < u64
  pub protection_fault : s.general_protection_fault_handler < u64
  pub kbc : s.kbc_handler < u64
  pub hpet : s.hpet_handler < u64
  pub syscall : s.syscall_handler < u64
  pub ata : s.ata_handler < u64
  pub page_fault : s.page_fault_handler < u64

-- One more interrupt is given its handler.
pub set-Wired :
    (i address : ℕ) (idt : Idt) (handler present : ℕ → ℕ)
    → address < u64
    → Wired idt handler present
    → Wired
        (set_interrupt_descriptor i address 1 idt)
        (update handler i address)
        (update present i 1)
set-Wired i address idt handler present lt w n inside =
    let (to, is_present, dpl, others) =
      set_interrupt_descriptor_lem i address 1 n idt lt (omega arith) in
    elim (ℕ_discrete n i) [
      | yes e ↦ rw (e, eq_self i) (to, is_present, dpl)
      | no ne ↦ rw (others ne, eq_of_ne n i ne) (w n inside)
    ]

pub idt_init-Wired :
    (s : Symbols) (h : InRange s) (i : Interrupts)
    → Wired
        (idt_init s.default_handler s.double_fault_handler s.general_protection_fault_handler s.idt
          i).idt
        (λ n.
          if n == double_fault_excp_num
          then s.double_fault_handler
          else if n == general_protection_fault_excp_num
          then s.general_protection_fault_handler
          else s.default_handler)
        (λ n.
          if n == double_fault_excp_num
          then 1
          else if n == general_protection_fault_excp_num
          then 1
          else 0)
idt_init-Wired s h i n inside =
    idt_init_lem s.default_handler s.double_fault_handler s.general_protection_fault_handler s.idt n
      i h.default h.double_fault h.protection_fault inside

-- The controllers let the timer and the keyboard through, and nothing else.
abbrev pub TimerAndKeyboard : {ports : Ports} → HasMasks ports → ports.Device → Type 0
TimerAndKeyboard laws d =
    (laws.ready d ≡ true)
    × ((j : ℕ)
        → j < 8
        → (mask_bit (laws.mask pic_master_data d) j ≡ (if ltb j 2 then 0 else 1))
          × (mask_bit (laws.mask pic_slave_data d) j ≡ 1))

-- The ports of the disk are none of the controllers'.
pub record DiskApart {ports : Ports} (laws : HasMasks ports) : Type 0 where
  pub short_ready :
      (port : ℕ) (d : ports.Device)
      → laws.ready d ≡ true
      → laws.ready (ports.in_short port d).1 ≡ true
  pub short_mask :
      (port q : ℕ) (d : ports.Device) → laws.mask q (ports.in_short port d).1 ≡ laws.mask q d
  pub write_ready :
      (bus : BusSelector) (k v : ℕ) (d : ports.Device)
      → k < 8
      → laws.ready d ≡ true
      → laws.ready (ports.out_byte (io_base ports bus + k) v d) ≡ true
  pub write_mask :
      (bus : BusSelector) (k v q : ℕ) (d : ports.Device)
      → k < 8
      → laws.mask q (ports.out_byte (io_base ports bus + k) v d) ≡ laws.mask q d

full_table : all_below 8 (λ j. mask_bit 0xff j == 1) ≡ true
unfolding all_below
full_table = refl

full_mask : (j : ℕ) → j < 8 → mask_bit 0xff j ≡ 1
full_mask j lt =
    let bit = all_below-true 8 (λ j. mask_bit 0xff j == 1) j full_table lt in ground (arith, bit)

two_enabled :
    (b2 b1 b0 j : ℕ)
    → b1 ≡ (if j == 1 then 0 else b0)
    → b2 ≡ (if j == 0 then 0 else b1)
    → b0 ≡ 1
    → b2 ≡ (if ltb j 2 then 0 else 1)
two_enabled b2 b1 b0 j first second before = ground arith

module _ {ports : Ports} (laws : HasMasks ports) where
  -- The interrupts that the keyboard, the timer and the system calls enable, in this order.
  abbrev pub enabled : ports.Device → ports.Device
  enabled d = enable_interrupt_on_pic ports syscall_interrupt_num (
      enable_interrupt_on_pic ports hpet_interrupt_num
        (enable_interrupt_on_pic ports kbc_interrupt_num (pic_init ports d)))

  pub enabled-TimerAndKeyboard : (d : ports.Device) → TimerAndKeyboard laws (enabled d)
  enabled-TimerAndKeyboard d =
      let (up0, master0, slave0) = pic_init-masks laws d in
      let d0 = pic_init ports d in
      let d1 = enable_interrupt_on_pic ports kbc_interrupt_num d0 in
      let up1 = enable_interrupt_on_pic-ready laws kbc_interrupt_num d0 up0 in
      let d2 = enable_interrupt_on_pic ports hpet_interrupt_num d1 in
      let up2 = enable_interrupt_on_pic-ready laws hpet_interrupt_num d1 up1 in
      (
        enable_interrupt_on_pic-ready laws syscall_interrupt_num d2 up2,
        λ j lt.
            let first = enable_interrupt_on_pic-mask_bit laws kbc_interrupt_num j d0 lt up0 in
            let second = enable_interrupt_on_pic-mask_bit laws hpet_interrupt_num j d1 lt up1 in
            let third = enable_interrupt_on_pic-mask_bit laws syscall_interrupt_num j d2 lt up2 in
            let before_master : mask_bit (laws.mask pic_master_data d0) j ≡ 1 =
              rw master0 (full_mask j lt) in
            let before_slave : mask_bit (laws.mask pic_slave_data d0) j ≡ 1 =
              rw slave0 (full_mask j lt) in
            (
              third.0
                  ∙ two_enabled (mask_bit (laws.mask pic_master_data d2) j)
                      (mask_bit (laws.mask pic_master_data d1) j)
                      (mask_bit (laws.mask pic_master_data d0) j) j first.0 second.0 before_master,
              third.1 ∙ second.1 ∙ first.1 ∙ before_slave,
            ),
      )

  same_masks :
      (d d' : ports.Device)
      → laws.ready d' ≡ true
      → ((q : ℕ) → laws.mask q d' ≡ laws.mask q d)
      → TimerAndKeyboard laws d
      → TimerAndKeyboard laws d'
  same_masks d d' up same p = (
    up,
    λ j lt. (
      ap (λ v. mask_bit v j) (same pic_master_data) ∙ (p.1 j lt).0,
      ap (λ v. mask_bit v j) (same pic_slave_data) ∙ (p.1 j lt).1,
    ),
  )

  module _ (apart : DiskApart laws) where
    pub search-TimerAndKeyboard :
        (fuel : ℕ) (valid : ℕ → ℕ) (d : ports.Device)
        → TimerAndKeyboard laws d
        → After ports (TimerAndKeyboard laws) (init_drives ports fuel 4 0 valid d)
    search-TimerAndKeyboard fuel valid d p =
        init_drives-After ports (TimerAndKeyboard laws)
          (λ port d p.
            same_masks d (ports.in_byte port d).1 (laws.read_ready port d p.0)
              (λ q. laws.read_keeps port q d) p)
          (λ port d p.
            same_masks d (ports.in_short port d).1 (apart.short_ready port d p.0)
              (λ q. apart.short_mask port q d) p)
          (λ bus k v d lt p.
            same_masks d (ports.out_byte (io_base ports bus + k) v d)
              (apart.write_ready bus k v d lt p.0) (λ q. apart.write_mask bus k v q d lt) p)
          fuel 4 0 valid d p
