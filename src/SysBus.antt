-- ===== src/SysBus.antt =====
-- The system bus, `SysBus` of crates/refwork-emu/src/bus.rs: work RAM, cartridge, DMA and the CPU's
-- I/O registers. The picture and audio units stand behind an interface.
pub mod Clock
pub mod Ports
pub mod General
pub mod PerLine
pub mod Reads
pub mod Writes
pub mod Run
pub mod Sound
pub mod Progress
pub mod WorkRam
pub mod Examples
use reference_workload.Base.{
  ℕ, Bool, true, false, if◌then◌else◌, List, Option, none, some, u8, u16, ◌>>>◌, bit_and,
}
use reference_workload.Fault.{Fault, FrameFlags, faulted, insert}
use reference_workload.Cart.{Cartridge}
use reference_workload.Dma.{Dma, Hdma, idle_channel, inactive}
use reference_workload.Joypad
use reference_workload.Joypad.{Joypad}

-- `ApuHalt` of crates/refwork-emu/src/apu/spc700.rs.
pub data ApuHalt : Type 0 where
  sleep stop : ApuHalt
  test_trigger : ℕ → ApuHalt

-- The methods of `Ppu` and `Apu` that the bus calls, over a picture state `P` and an audio state `A`.
pub record Devices (P A : Type 0) : Type 0 where
  pub ppu_write : ℕ → ℕ → P → Option Fault × P
  pub ppu_read : ℕ → ℕ → P → ℕ × P
  pub latch_hv_counters : ℕ → P → P
  pub vblank_start_line : P → ℕ
  pub cpu_read_port : ℕ → A → ℕ
  pub cpu_write_port : ℕ → ℕ → A → A
  pub advance_master_cycles : ℕ → A → Option ApuHalt × A
  pub apu_step : A → A
  pub apu_halted : A → Option ApuHalt
  pub apu_pc : A → ℕ
  pub spc_port0 : A → ℕ

-- The counters of the `introspect` feature are left out.
pub record SysBus (P A : Type 0) : Type 0 where
  pub wram : ℕ → ℕ  -- [u8; 0x20000]
  pub cart : Cartridge
  pub ppu : P
  pub apu : A
  pub apu_mclk_base : ℕ  -- u64
  pub apu_pending_ipl_cc : Bool
  pub apu_pending_ipl_transfer_strobe : Bool
  pub dma : Dma
  pub hdma : Hdma
  pub hdmaen : ℕ  -- u8
  pub hdma_ended : ℕ  -- u8
  pub joypad : Joypad
  pub mclk_frame : ℕ  -- u64
  pub mclk_total : ℕ  -- u64
  pub mdr : ℕ  -- u8
  pub fault : Option Fault
  pub nmitimen : ℕ  -- u8
  pub htime : ℕ  -- u16
  pub vtime : ℕ  -- u16
  pub fast_rom : Bool
  pub wrmpya : ℕ  -- u8
  pub wrdiv : ℕ  -- u16
  pub rddiv : ℕ  -- u16
  pub rdmpy : ℕ  -- u16
  pub nmi_flag : Bool
  pub nmi_pending : Bool
  pub irq_flag : Bool
  pub wmadd : ℕ  -- u32
  pub line : ℕ  -- u16
  pub auto_joy_busy : Bool
  pub joy_prev : ℕ  -- u16
  pub frame_flags : FrameFlags
  pub wrio : ℕ  -- u8
  pub irq_target_mclk : Option ℕ

-- `fault.is_some()`.
unfoldable pub is_some : Option Fault → Bool
is_some none = false
is_some (some f) = true

-- The fault of the bus after one more.
unfoldable pub first_fault : Fault → Option Fault → Option Fault
first_fault f none = some f
first_fault f (some old) = some old

module _ {P A : Type 0} where
  -- `SysBus::new`, with the audio unit that `Apu::new` gives.
  unfoldable pub new : (ℕ → ℕ) → Cartridge → P → A → SysBus P A
  unfolding Joypad.new idle_channel
  new wram cart ppu apu = record {
    wram = wram;
    cart = cart;
    ppu = ppu;
    apu = apu;
    apu_mclk_base = 0;
    apu_pending_ipl_cc = false;
    apu_pending_ipl_transfer_strobe = false;
    dma = λ i. idle_channel;
    hdma = λ i. inactive;
    hdmaen = 0;
    hdma_ended = 0;
    joypad = Joypad.new;
    mclk_frame = 0;
    mclk_total = 0;
    mdr = 0;
    fault = none;
    nmitimen = 0;
    htime = 0x1FF;
    vtime = 0x1FF;
    fast_rom = false;
    wrmpya = 0xFF;
    wrdiv = 0xFFFF;
    rddiv = 0;
    rdmpy = 0;
    nmi_flag = false;
    nmi_pending = false;
    irq_flag = false;
    wmadd = 0;
    line = 0;
    auto_joy_busy = false;
    joy_prev = 0;
    frame_flags = 0;
    wrio = 0xFF;
    irq_target_mclk = none;
  }

  -- `Bus::fault`: the first fault stays.
  unfoldable pub record_fault : Fault → SysBus P A → SysBus P A
  unfolding insert first_fault
  record_fault f self = record self {
    fault = first_fault f self.fault;
    frame_flags = insert self.frame_flags faulted;
  }

  abbrev pub has_fault : SysBus P A → Bool
  has_fault self = is_some self.fault

  -- `if let Some(f) = fault { self.fault(f); }`
  unfoldable pub fault_if : Option Fault → SysBus P A → SysBus P A
  unfolding record_fault
  fault_if none self = self
  fault_if (some f) self = record_fault f self

-- `((addr >> 16) & 0xFF) as u8` and `(addr & 0xFFFF) as u16`.
abbrev pub bank_of : ℕ → ℕ
bank_of addr = u8 (bit_and (addr >>> 16) 0xFF)

abbrev pub offset_of : ℕ → ℕ
offset_of addr = u16 (bit_and addr 0xFFFF)
