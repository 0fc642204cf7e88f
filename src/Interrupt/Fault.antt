-- ===== src/Interrupt/Fault.antt =====
-- The fault handlers of interrupt.c. They print a report and halt for ever, so the result of each is the
-- screen on which it halts. Memory is 64-bit words by address.
use amaterasu.Base.{
  ℕ, zero, suc, ◌+◌, ◌-◌, ◌*◌, ◌/◌, ◌%◌, ◌<◌, ◌≡◌, refl, Option, some, List, [], ◌∷◌, bit_and,
  arith,
}
use amaterasu.Base.Bits.{bit_and-mask}
use amaterasu.Util.{u64}
use amaterasu.X86.{shr}
use amaterasu.Graphic.{Screen, Font}
use amaterasu.Graphic.Report.{
  Call, put_string, put_number, run_calls, run_calls_lem, print, text_of, Printable,
}

-- `DoubleFaultHandler`
pub double_fault_handler : Font → (stack : ℕ → ℕ → ℕ) → Screen → Option Screen
double_fault_handler font stack s = run_calls font stack (put_string "DOUBLE FAULT\n" ∷ []) s

-- The loop of `GeneralProtectionFaultHandler`, which goes down from the interrupted stack pointer.
pub dump_stack : (rounds : ℕ) → (ℕ → ℕ) → (prev_rsp : ℕ) → List Call
dump_stack zero memory prev_rsp = []
dump_stack (suc rounds) memory prev_rsp =
    put_number (memory prev_rsp)
    ∷ put_string "\n"
    ∷ dump_stack rounds memory ((prev_rsp + u64 - 8) % u64)

-- What the handler prints of the error code and of the frame that the processor pushed.
pub protection_fault_calls : (memory : ℕ → ℕ) (rsp : ℕ) → List Call
protection_fault_calls memory rsp =
    let error_code = memory rsp in
    let external = bit_and error_code 0x1 in
    let tbl = bit_and (shr error_code 1) 0x3 in
    let index = bit_and (shr error_code 3) 0x1fff in
    put_string "GENERAL PROTECTION FAULT\n"
    ∷ put_string "EXTERNAL: "
    ∷ put_number external
    ∷ put_string "\n"
    ∷ put_string "TBL: "
    ∷ put_number tbl
    ∷ put_string "\n"
    ∷ put_string "INDEX: "
    ∷ put_number index
    ∷ put_string "\n"
    ∷ put_string "RIP: "
    ∷ put_number (memory ((rsp + 8) % u64))
    ∷ put_string "\n"
    ∷ put_string "CS: "
    ∷ put_number (memory ((rsp + 16) % u64))
    ∷ put_string "\n"
    ∷ put_string "RFLAGS: "
    ∷ put_number (memory ((rsp + 24) % u64))
    ∷ put_string "\n"
    ∷ put_string "RSP: "
    ∷ put_number (memory ((rsp + 32) % u64))
    ∷ put_string "\n"
    ∷ dump_stack 5 memory (memory ((rsp + 32) % u64))

-- `GeneralProtectionFaultHandler`
pub general_protection_fault_handler :
    Font → (stack : ℕ → ℕ → ℕ) → (memory : ℕ → ℕ) (rsp : ℕ) → Screen → Option Screen
general_protection_fault_handler font stack memory rsp s =
    run_calls font stack (protection_fault_calls memory rsp) s

-- The words of memory at these addresses, a line for each.
abbrev pub lines : (memory : ℕ → ℕ) → List ℕ → List Call
lines memory [] = []
lines memory (a ∷ addresses) = put_number (memory a) ∷ put_string "\n" ∷ lines memory addresses

-- The address `k` words below another one.
abbrev pub below : (address k : ℕ) → ℕ
below address k = (address + u64 - 8 * k) % u64

-- The three fields of the error code as the processor defines them, the frame, and the words at the
-- interrupted stack pointer and at 8, 16, 24 and 32 bytes below it, which lie under the stack's top.
abbrev pub protection_report : (memory : ℕ → ℕ) (rsp : ℕ) → List Call
protection_report memory rsp =
    let error_code = memory rsp in
    let top = memory ((rsp + 32) % u64) in
    put_string "GENERAL PROTECTION FAULT\n"
    ∷ put_string "EXTERNAL: "
    ∷ put_number (error_code % 2)
    ∷ put_string "\n"
    ∷ put_string "TBL: "
    ∷ put_number (error_code / 2 % 4)
    ∷ put_string "\n"
    ∷ put_string "INDEX: "
    ∷ put_number (error_code / 8 % 8192)
    ∷ put_string "\n"
    ∷ put_string "RIP: "
    ∷ put_number (memory ((rsp + 8) % u64))
    ∷ put_string "\n"
    ∷ put_string "CS: "
    ∷ put_number (memory ((rsp + 16) % u64))
    ∷ put_string "\n"
    ∷ put_string "RFLAGS: "
    ∷ put_number (memory ((rsp + 24) % u64))
    ∷ put_string "\n"
    ∷ put_string "RSP: "
    ∷ put_number top
    ∷ put_string "\n"
    ∷ lines memory (top ∷ below top 1 ∷ below top 2 ∷ below top 3 ∷ below top 4 ∷ [])

dump_stack_lem :
    (memory : ℕ → ℕ) (top : ℕ)
    → dump_stack 5 memory top
      ≡ lines memory (top ∷ below top 1 ∷ below top 2 ∷ below top 3 ∷ below top 4 ∷ [])
unfolding dump_stack
dump_stack_lem memory top =
    let b2 : (below top 1 + u64 - 8) % u64 ≡ below top 2 = omega arith in
    let b3 : (below top 2 + u64 - 8) % u64 ≡ below top 3 = omega arith in
    let b4 : (below top 3 + u64 - 8) % u64 ≡ below top 4 = omega arith in rw (b2, b3, b4) refl

protection_fault_calls_lem :
    (memory : ℕ → ℕ) (rsp : ℕ) → protection_fault_calls memory rsp ≡ protection_report memory rsp
unfolding protection_fault_calls
protection_fault_calls_lem memory rsp =
    let e = memory rsp in
    let external : bit_and e 0x1 ≡ e % 2 = bit_and-mask 1 e in
    let tbl : bit_and (e / 2) 0x3 ≡ e / 2 % 4 = bit_and-mask 2 (e / 2) in
    let index : bit_and (e / 8) 0x1fff ≡ e / 8 % 8192 = bit_and-mask 13 (e / 8) in
    rw (external, tbl, index, dump_stack_lem memory (memory ((rsp + 32) % u64))) refl

protection_report-Printable :
    (memory : ℕ → ℕ) (rsp : ℕ)
    → ((a : ℕ) → memory a < u64)
    → Printable (protection_report memory rsp)
protection_report-Printable memory rsp words =
    let top = memory ((rsp + 32) % u64) in
    omega (
      arith,
      words ((rsp + 8) % u64),
      words ((rsp + 16) % u64),
      words ((rsp + 24) % u64),
      words ((rsp + 32) % u64),
      words top,
      words (below top 1),
      words (below top 2),
      words (below top 3),
      words (below top 4),
    )

-- On words of 64 bits `GeneralProtectionFaultHandler` halts on the screen to which the fields of the error
-- code, the frame, and the words at the interrupted stack pointer and 8, 16, 24 and 32 bytes below it are
-- printed, whatever the arrays of `puth` held.
pub general_protection_fault_handler_lem :
    (font : Font) (stack : ℕ → ℕ → ℕ) (memory : ℕ → ℕ) (rsp : ℕ) (s : Screen)
    → ((a : ℕ) → memory a < u64)
    → general_protection_fault_handler font stack memory rsp s
      ≡ some (print font (text_of (protection_report memory rsp)) s)
unfolding general_protection_fault_handler
general_protection_fault_handler_lem font stack memory rsp s words =
    rw (protection_fault_calls_lem memory rsp) (
      run_calls_lem font stack (protection_report memory rsp) s
        (protection_report-Printable memory rsp words))
