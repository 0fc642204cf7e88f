-- ===== src/X86/Ports.antt =====
-- The input and output ports. `InByte`, `InShort` and `OutByte` of x86_64.c are one instruction each,
-- on a device that the repository does not implement: a parameter.
use Prim.Native.Nat.{ℕ}

pub record Ports : Type 1 where
  pub Device : Type 0
  pub in_byte : ℕ → Device → ℕ × Device
  pub in_short : ℕ → Device → ℕ × Device
  pub out_byte : ℕ → ℕ → Device → Device
