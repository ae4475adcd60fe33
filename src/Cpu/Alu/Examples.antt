-- ===== src/Cpu/Alu/Examples.antt =====
-- A decimal sum, 58 + 67 + 1.
use reference_workload.Base.{◌%◌, ◌≡◌, refl, true, arith, has, u8}
use reference_workload.Cpu.Flags
use reference_workload.Cpu.Registers.{Cpu, new, m8}
use reference_workload.Cpu.Registers.WellFormed.{IsWf}
use reference_workload.Cpu.Alu.{op_adc}
use reference_workload.Cpu.Alu.Decimal.{IsBcd, IsDecimalSum8, op_adc-IsDecimalSum8}

unfoldable counting : Cpu
unfolding new
counting = record new { a = 0x1258; p = 0x3D }

counting-IsWf : IsWf counting
unfolding counting
counting-IsWf = record {
  fits = omega arith;
  narrow_x = λ h. omega arith;
  narrow_y = λ h. omega arith;
  emulated_m = λ h. refl;
  emulated_x = λ h. refl;
}

decimal_mode : has counting.p Flags.d ≡ true
unfolding counting
decimal_mode = refl

narrow : m8 counting ≡ true
unfolding counting
narrow = refl

counting-IsBcd : IsBcd (counting.a % 256)
unfolding counting
counting-IsBcd = omega arith

operand-IsBcd : IsBcd (u8 0x7F67)
operand-IsBcd = omega arith

op_adc-IsDecimalSum8_example : IsDecimalSum8 counting (op_adc 0x7F67 counting) (u8 0x7F67)
op_adc-IsDecimalSum8_example =
    op_adc-IsDecimalSum8 counting 0x7F67 counting-IsWf decimal_mode narrow counting-IsBcd
      operand-IsBcd
