-- ===== src/Paging/Fault.antt =====
-- `PagingInit` and the page fault handler of paging.c. The handler prints a report and halts for ever, so
-- its result is the screen on which it halts.
use amaterasu.Base.{
  ℕ, ◌+◌, ◌*◌, ◌/◌, ◌%◌, ◌^◌, ◌<◌, ◌≡◌, ◌∙◌, refl, Option, some, List, [], ◌∷◌, bit_and, arith,
}
use amaterasu.Base.Bits.{bit_and-mask, bit_and-zero}
use amaterasu.Base.Bits.Digits.{bit_and_step}
use amaterasu.Util.{u64}
use amaterasu.X86.{shr}
use amaterasu.Interrupt.{Idt, page_fault_excp_num, set_interrupt_descriptor}
use amaterasu.Graphic.{Screen, Font}
use amaterasu.Graphic.Report.{
  Call, put_string, put_number, run_calls, run_calls_lem, print, text_of, Printable,
}
use amaterasu.Paging.{Memory}

-- `PagingInit`: the table, and the value of `cr3`. `handler` is the address of `PageFaultHandlerASM`, and
-- `l4_page_table_base` that of the current process's memory.
unfoldable pub paging_init : (handler l4_page_table_base : ℕ) → Idt → Idt × ℕ
paging_init handler l4_page_table_base idt =
    (set_interrupt_descriptor page_fault_excp_num handler 1 idt, l4_page_table_base)

-- What the handler prints.
pub page_fault_calls : (virtual_address error_code : ℕ) → List Call
page_fault_calls virtual_address error_code =
    let present = bit_and error_code 0x1 in
    let write = shr (bit_and error_code 0x2) 1 in
    let user = shr (bit_and error_code 0x4) 2 in
    let reserved_write = shr (bit_and error_code 0x8) 3 in
    let i_fetch = shr (bit_and error_code 0x16) 4 in
    put_string "PAGE FAULT\nVIRTUAL ADDR "
    ∷ put_number virtual_address
    ∷ put_string "\nPRESENT "
    ∷ put_number present
    ∷ put_string "\nWRITE "
    ∷ put_number write
    ∷ put_string "\nUSER "
    ∷ put_number user
    ∷ put_string "\nRWRITE "
    ∷ put_number reserved_write
    ∷ put_string "\nIFETCH "
    ∷ put_number i_fetch
    ∷ []

-- `PageFaultHandler`; `cr2` and `rbp` are the registers that it reads, and `stack` is what the arrays of
-- `puth` hold. Below the fifteen registers that handler.s saves, the word that it takes for the error code
-- is the saved `r8`.
pub page_fault_handler :
    Font → (stack : ℕ → ℕ → ℕ) → Memory → (cr2 rbp : ℕ) → Screen → Option Screen
page_fault_handler font stack memory cr2 rbp s =
    let error_code = memory ((rbp + 8 * 7 + 16) % u64) in
    run_calls font stack (page_fault_calls cr2 error_code) s

-- Bit `k` of an error code.
abbrev pub error_bit : (k error_code : ℕ) → ℕ
error_bit k error_code = error_code / 2 ^ k % 2

-- The five lowest bits, under the names that the processor gives to those of an error code.
abbrev pub fault_report : (virtual_address error_code : ℕ) → List Call
fault_report virtual_address error_code =
    put_string "PAGE FAULT\nVIRTUAL ADDR "
    ∷ put_number virtual_address
    ∷ put_string "\nPRESENT "
    ∷ put_number (error_bit 0 error_code)
    ∷ put_string "\nWRITE "
    ∷ put_number (error_bit 1 error_code)
    ∷ put_string "\nUSER "
    ∷ put_number (error_bit 2 error_code)
    ∷ put_string "\nRWRITE "
    ∷ put_number (error_bit 3 error_code)
    ∷ put_string "\nIFETCH "
    ∷ put_number (error_bit 4 error_code)
    ∷ []

half : (a : ℕ) → a / 2 / 2 ≡ a / 4
half a = omega arith

-- `&` with a mask of five bits, from its digits.
present_bit : (e : ℕ) → bit_and e 0x1 ≡ error_bit 0 e
present_bit e = bit_and-mask 1 e ∙ omega arith

write_bit : (e : ℕ) → shr (bit_and e 0x2) 1 ≡ error_bit 1 e
write_bit e = omega (arith, bit_and_step e 2, bit_and_step (e / 2) 1, bit_and-zero (e / 2 / 2))

user_bit : (e : ℕ) → shr (bit_and e 0x4) 2 ≡ error_bit 2 e
user_bit e = omega (
  arith,
  bit_and_step e 4,
  bit_and_step (e / 2) 2,
  bit_and_step (e / 2 / 2) 1,
  bit_and-zero (e / 2 / 2 / 2),
)

reserved_write_bit : (e : ℕ) → shr (bit_and e 0x8) 3 ≡ error_bit 3 e
reserved_write_bit e = omega (
  arith,
  bit_and_step e 8,
  bit_and_step (e / 2) 4,
  bit_and_step (e / 2 / 2) 2,
  bit_and_step (e / 2 / 2 / 2) 1,
  bit_and-zero (e / 2 / 2 / 2 / 2),
)

-- The mask 0x16 has the bits 1, 2 and 4; the shift drops the first two.
i_fetch_bit : (e : ℕ) → shr (bit_and e 0x16) 4 ≡ error_bit 4 e
i_fetch_bit e = omega (
  arith,
  bit_and_step e 22,
  bit_and_step (e / 2) 11,
  bit_and_step (e / 2 / 2) 5,
  bit_and_step (e / 2 / 2 / 2) 2,
  bit_and_step (e / 2 / 2 / 2 / 2) 1,
  bit_and-zero (e / 2 / 2 / 2 / 2 / 2),
)

page_fault_calls_lem :
    (virtual_address e : ℕ) → page_fault_calls virtual_address e ≡ fault_report virtual_address e
unfolding page_fault_calls
page_fault_calls_lem virtual_address e =
    rw (present_bit e, write_bit e, user_bit e, reserved_write_bit e, i_fetch_bit e) refl

fault_report-Printable :
    (virtual_address e : ℕ) → virtual_address < u64 → Printable (fault_report virtual_address e)
fault_report-Printable virtual_address e lt = omega arith

-- `PageFaultHandler` of a fault at a 64-bit address halts on the screen to which the address is printed, and
-- under the names of the flags the five lowest bits of the word 72 bytes above its base pointer.
pub page_fault_handler_lem :
    (font : Font) (stack : ℕ → ℕ → ℕ) (memory : Memory) (cr2 rbp : ℕ) (s : Screen)
    → cr2 < u64
    → page_fault_handler font stack memory cr2 rbp s
      ≡ some (print font (text_of (fault_report cr2 (memory ((rbp + 72) % u64)))) s)
unfolding page_fault_handler
page_fault_handler_lem font stack memory cr2 rbp s lt =
    let at : rbp + 8 * 7 + 16 ≡ rbp + 72 = omega arith in
    let error_code = memory ((rbp + 72) % u64) in
    rw (at, page_fault_calls_lem cr2 error_code)
      (run_calls_lem font stack (fault_report cr2 error_code) s
        (fault_report-Printable cr2 error_code lt))
