-- ===== src/Cpu/Examples.antt =====
-- Runs of the CPU on a flat memory, as in the unit tests of crates/refwork-emu.
use reference_workload.Base.{
  ℕ, ◌^◌, ◌<◌, ◌≡◌, refl, ◌≢◌, true, false, ◌==◌, if◌then◌else◌, arith, has, u8, not16, [], ◌∷◌,
  List, All, get_or, zero, suc,
}
use reference_workload.Cpu.Flags
use reference_workload.Cpu.Registers.{Cpu, new, m8}
use reference_workload.Cpu.Registers.WellFormed.{IsWf}
use reference_workload.Cpu.Machine.{Bus, ◌>>=◌}
use reference_workload.Cpu.Machine.Ensures.{IsSafeBus}
use reference_workload.Cpu.Machine.Ram.{IsRam}
use reference_workload.Cpu.Stack.{push16, pull16}
use reference_workload.Cpu.Stack.RoundTrip.{IsPointer, pull16-push16}
use reference_workload.Cpu.Alu.{op_adc, op_sbc, op_compare}
use reference_workload.Cpu.Alu.Binary.{IsSum8, op_adc-IsSum8}
use reference_workload.Cpu.Alu.Complement.{op_sbc-op_adc}
use reference_workload.Cpu.Alu.Compare.{IsCompared, op_compare-IsCompared}
use reference_workload.Cpu.Interrupts.{irq, service_interrupt}
use reference_workload.Cpu.Interrupts.Return.{IsRoom, op_rti-service_interrupt}
use reference_workload.Cpu.Exec.Control.{op_rti}
use reference_workload.Cpu.Step.{step}
use reference_workload.Cpu.Step.Safe.{IsSettled, step-IsSettled}

abbrev Ram : Type 0
Ram = ℕ → ℕ

abbrev store : ℕ → ℕ → Ram → Ram
store addr v b q = if q == addr then v else b q

instance abbrev flat : Bus Ram
flat = record {
  bus_read = λ addr b. (b addr, b);
  bus_write = store;
  bus_idle = λ b. b;
  bus_take_nmi = λ b. (false, b);
  bus_irq_line = λ b. false;
  bus_fault = λ f b. b;
}

abbrev IsBytes : Ram → Type 0
IsBytes b = (q : ℕ) → b q < 2 ^ 8

store-IsBytes : (addr v : ℕ) (b : Ram) → v < 2 ^ 8 → IsBytes b → IsBytes (store addr v b)
store-IsBytes addr v b h k q = ground (arith, k q)

flat-IsSafeBus : IsSafeBus flat IsBytes
flat-IsSafeBus = record {
  read_safe = λ addr b h k. (k addr, k);
  write_safe = λ addr v b h k n. store-IsBytes addr v b k n;
  idle_safe = λ b k. k;
  take_nmi_safe = λ b k. k;
}

abbrev Anywhere : ℕ → Type 0
Anywhere addr = Unit {0}

store_hit : (addr v : ℕ) (b : Ram) → store addr v b addr ≡ v
store_hit addr v b = ground arith

store_miss : (addr q v : ℕ) (b : Ram) → addr ≢ q → store addr v b q ≡ b q
store_miss addr q v b h = ground arith

flat-IsRam : IsRam flat (λ q b. b q) Anywhere
flat-IsRam = record {
  read_value = λ addr b w. refl;
  read_keeps = λ addr q b w. refl;
  write_hit = λ addr v b w h. store_hit addr v b;
  write_miss = λ addr q v b w w' n. store_miss addr q v b n;
  idle_keeps = λ q b w. refl;
}

-- CLC, XCE, REP #$31, ADC #$1234, STA $10 and STP, then zeros.
abbrev program : List ℕ
program = 0x18 ∷ 0xFB ∷ 0xC2 ∷ 0x31 ∷ 0x69 ∷ 0x34 ∷ 0x12 ∷ 0x85 ∷ 0x10 ∷ 0xDB ∷ []

abbrev loaded : Ram
loaded q = get_or program q 0

get_or-IsByte : (xs : List ℕ) (q : ℕ) → All (λ v. v < 2 ^ 8) xs → get_or xs q 0 < 2 ^ 8
get_or-IsByte [] q h = omega arith
get_or-IsByte (x ∷ xs) zero h = h.0
get_or-IsByte (x ∷ xs) (suc q) h = get_or-IsByte xs q h.1

loaded-IsBytes : IsBytes loaded
loaded-IsBytes q = get_or-IsByte program q (omega arith)

unfoldable native : Cpu
unfolding new
native = record new { e = false; p = 0; a = 0x12FF; s = 0x1FFF; pc = 0x8123; pbr = 0x7E }

new-IsWf : IsWf new
unfolding new
new-IsWf = record {
  fits = omega arith;
  narrow_x = λ h. omega arith;
  narrow_y = λ h. omega arith;
  emulated_m = λ h. refl;
  emulated_x = λ h. refl;
}

native-IsWf : IsWf native
unfolding native
native-IsWf = record {
  fits = omega arith;
  narrow_x = λ h. absurd (ground (arith, h));
  narrow_y = λ h. absurd (ground (arith, h));
  emulated_m = λ h. absurd (ground (arith, h));
  emulated_x = λ h. absurd (ground (arith, h));
}

native-IsPointer : IsPointer native.e native.s
unfolding native
native-IsPointer = record { word = omega arith; paged = λ h. absurd (ground (arith, h)) }

native_mode : native.e ≡ false
unfolding native
native_mode = refl

native_binary : has native.p Flags.d ≡ false
unfolding native
native_binary = refl

room : IsRoom flat-IsRam native.e native.s
room = record { within0 = tt; within1 = tt; within2 = tt; within3 = tt }

step-IsSettled_example : IsSettled (step new loaded).1 × IsBytes (step new loaded).2
step-IsSettled_example = step-IsSettled flat-IsSafeBus new loaded new-IsWf loaded-IsBytes

pull16-push16_example :
    (((push16 0xBEEF >>= λ _. pull16) native loaded).0 ≡ 0xBEEF)
    × (((push16 0xBEEF >>= λ _. pull16) native loaded).1 ≡ native)
pull16-push16_example =
    pull16-push16 flat-IsRam 0xBEEF native loaded native-IsPointer (omega arith) tt tt

op_rti-service_interrupt_example :
    ((service_interrupt irq >>= λ _. op_rti) native loaded).1 ≡ native
op_rti-service_interrupt_example =
    op_rti-service_interrupt flat-IsRam irq native loaded native-IsWf native_mode room

-- 0x50 + 0xD0 + 1, in an emulated accumulator.
unfoldable added : Cpu
unfolding new
added = record new { a = 0x1250; p = 0x35 }

added-IsWf : IsWf added
unfolding added
added-IsWf = record {
  fits = omega arith;
  narrow_x = λ h. omega arith;
  narrow_y = λ h. omega arith;
  emulated_m = λ h. refl;
  emulated_x = λ h. refl;
}

added_binary : has added.p Flags.d ≡ false
unfolding added
added_binary = refl

added_narrow : m8 added ≡ true
unfolding added
added_narrow = refl

op_adc-IsSum8_example : IsSum8 added (op_adc 0x7FD0 added) (u8 0x7FD0)
op_adc-IsSum8_example = op_adc-IsSum8 added 0x7FD0 added-IsWf added_binary added_narrow

op_sbc-op_adc_example : op_sbc 0x1234 native ≡ op_adc (not16 0x1234) native
op_sbc-op_adc_example = op_sbc-op_adc native 0x1234 native-IsWf (omega arith) native_binary

op_compare-IsCompared_example :
    IsCompared native (op_compare 0x1234 0x2100 true native) (2 ^ 7) (u8 0x1234) (u8 0x2100)
    × IsCompared native (op_compare 0x1234 0x2100 false native) (2 ^ 15) 0x1234 0x2100
op_compare-IsCompared_example =
    op_compare-IsCompared native 0x1234 0x2100 (omega arith) (omega arith)
