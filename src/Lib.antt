-- ===== src/Lib.antt =====
-- A model of the core of the reference workload emulator (crates/refwork-emu).
--
-- The program is a deterministic 65C816 console emulator that replays recorded pads. Its CPU
-- (crates/refwork-emu/src/cpu) runs against the `Bus` trait (crates/refwork-emu/src/bus.rs), on
-- which every memory access, internal cycle and interrupt line goes. The CPU is modelled whole:
--
--   * Cpu/Flags, Cpu/Registers: the status bits, the register file and the methods that touch no
--     bus (cpu/mod.rs). A register is a native number; each operation writes its wrap-around out.
--   * Cpu/Machine: the `Bus` trait as a record of operations over a bus state, and the methods on
--     `(&mut self, &mut B)` as actions that pass the registers and that state on.
--   * Cpu/Stack, Cpu/Interrupts, Cpu/Step: fetches, pushes and pulls; reset and interrupt entry;
--     one step, with WAI and STP (cpu/mod.rs).
--   * Cpu/Alu: ADC, SBC and the comparisons, binary and decimal (cpu/alu.rs). A Rust `i32` is its
--     bit pattern, so the sign tests of the decimal routines are on bit 31.
--   * Cpu/Addressing: the effective addresses (cpu/addressing.rs).
--   * Cpu/Logic and Cpu/Exec: the helpers of cpu/exec.rs, and the match of `execute` as a table of
--     arms in the order of the source, a module for each group of opcodes.
--   * Fault: the fault taxonomy (fault.rs).
--
-- Cart (crates/refwork-emu/src/cart.rs) models the cartridge: what `from_rom` accepts and how a
-- 24-bit address decodes to ROM or save RAM; a slice is a list, and an index out of bounds is a
-- result of its own. Joypad (crates/refwork-emu/src/joypad.rs) models the controller port, whose
-- pad word is latched once per frame.
--
-- Timing and Dma model the constants with the cost of an access (crates/refwork-emu/src/timing.rs)
-- and the DMA register file (crates/refwork-emu/src/dma.rs). SysBus models `SysBus`
-- (crates/refwork-emu/src/bus.rs) by part: Clock the master clock and the H/V timer IRQ, Ports
-- memory as DMA sees it and the audio port, General and PerLine the two DMA engines and the scanline
-- hook, Reads and Writes the CPU's accesses, Run the `Bus` instance and `run_cpu_until`. The work RAM
-- is a function of the index. The picture and audio units, which are not modelled, are a record of
-- functions, `Devices`, over states of any type; `SafeDevices` adds what the bus needs of them, that
-- they give bytes and keep an invariant of their own. An index out of bounds of the cartridge panics in
-- the program and has no result here; the invariant keeps the cartridge valid, and a valid one has no
-- such index (Cart/Access). SysBus/Sound is the bus invariant, one child
-- module per part, and SysBus/Progress shows that the CPU loop ends.
--
-- Core models `Core::new` and `run_one_frame` (crates/refwork-emu/src/core_impl.rs); Core/Frame and
-- Core/Session are about one frame and about many from power-on. `run_cpu_until` takes fuel, one
-- unit per step of the loop: a line ends within 357368 master clocks and each step takes 6 at least,
-- so the 59562 units that `line_fuel` gives are enough for every line. The master clock of a frame
-- is not wrapped at 2 ^ 64, which it never reaches. The counters of the `introspect` feature are left
-- out.
--
-- Apu/Timers models the SPC700 timers (crates/refwork-emu/src/apu/timers.rs). `drain` is the loop of
-- `advance`, with the accumulator as fuel, which is enough for every divider but 0.
--
-- Ppu models two pure parts of the picture unit (crates/refwork-emu/src/ppu/mod.rs): colour math, where
-- an `i16` that is negative clamps to 0, and the remap of VRAM addresses.
--
-- Base holds the words, bits, signed readings and lists that the parts share. For an action,
-- Cpu/Machine/Ensures has the rules of a total invariant (every run ends, keeps the registers
-- in range and stays within the accesses that the bus accepts), and Cpu/Machine/Ram those of an
-- exact run on a memory. No function of the CPU loops.
--
-- The CPU takes the bus as a parameter: its behaviour is a named hypothesis (`IsSafeBus`, `IsRam`),
-- which the flat memory of Cpu/Examples and the system bus of SysBus/Sound/Refines fill.
--
-- Not modelled: the picture unit (ppu) but for Ppu, the audio unit (apu) but for its timers, the
-- harness and the tools around them.
mod Base
pub mod Fault
pub mod Cpu
pub mod Timing
pub mod Dma
pub mod Apu
pub mod Ppu
pub mod SysBus
pub mod Core
pub mod Cart
pub mod Joypad
