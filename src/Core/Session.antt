-- ===== src/Core/Session.antt =====
-- Any number of frames on a core, and a core from power-on.
use reference_workload.Base.{
  ℕ, ◌+◌, ◌<◌, ◌≡◌, refl, ap, ◌∙◌, ◌⊎◌, inl, inr, true, false, if_true, List, [], ◌∷◌, length,
  arith, take, suc,
}
use reference_workload.Fault.{FrameFlags}
use reference_workload.Cart.{Cartridge}
use reference_workload.Core.{Screen, Core, new, run_one_frame}
use reference_workload.Core.Frame.{IsSafeScreen, IsReady, IsCompleted, IsHalted, run_one_frame-ends}
use reference_workload.Core.PowerOn.{new-IsReady}
use reference_workload.Cpu.Interrupts.{reset, load_pc}
use reference_workload.Cpu.Machine
use reference_workload.Cpu.Machine.{◌>>=◌, modify}
use reference_workload.SysBus
use reference_workload.SysBus.{SysBus, is_some, has_fault}
use reference_workload.SysBus.Clock.{add_mclk, idle}
use reference_workload.SysBus.Ports.{latched}
use reference_workload.SysBus.Reads.{read, read_at, read_low_bank, read_rom}
use reference_workload.SysBus.Run.{sys_bus}
use reference_workload.Timing.{mem_speed, io_speed}
use reference_workload.SysBus.Sound.{SafeDevices, IsByteCart}

-- One frame for each pad word.
unfoldable pub run_frames :
    {P A : Type 0} → SafeDevices P A → Screen P → List ℕ → Core P A → Core P A
run_frames safe screen [] self = self
run_frames safe screen (pad ∷ pads) self =
    run_frames safe screen pads (run_one_frame safe.dev screen pad self).1

module _ {P A : Type 0} (safe : SafeDevices P A) where
  -- Reset reads the vector from ROM, which no fault can come of.
  pub new-unfaulted :
      (cart : Cartridge) (ppu : P) (apu : A) → has_fault (new safe.dev cart ppu apu).bus ≡ false
  unfolding new SysBus.new reset load_pc idle Machine.idle Machine.read sys_bus read read_at
      read_low_bank read_rom latched add_mclk mem_speed io_speed is_some ◌>>=◌ modify
  new-unfaulted cart ppu apu = refl

module _ {P A : Type 0} (safe : SafeDevices P A) (screen : Screen P) where
  -- A faulted core stands still.
  run_frames-faulted :
      (pads : List ℕ) (self : Core P A)
      → has_fault self.bus ≡ true
      → run_frames safe screen pads self ≡ self
  unfolding run_frames run_one_frame
  run_frames-faulted [] self f = refl
  run_frames-faulted (pad ∷ pads) self f =
      ap (λ (u : FrameFlags × Core P A). run_frames safe screen pads u.1)
        (if_true (has_fault self.bus) _ _ f)
      ∙ run_frames-faulted pads self f

  -- The calls ended at a first fault, in call `j + 1`: it counted nothing, and the calls after it did
  -- nothing.
  pub record IsEndedAt (j : ℕ) (pads : List ℕ) (self : Core P A) : Type 0 where
    pub before : has_fault (run_frames safe screen (take j pads) self).bus ≡ false
    pub at : has_fault (run_frames safe screen (take (suc j) pads) self).bus ≡ true
    pub counted : (run_frames safe screen pads self).frame ≡ self.frame + j
    pub still : run_frames safe screen pads self ≡ run_frames safe screen (take (suc j) pads) self

  -- No fault and every frame counted, or the frames before the first fault and no other.
  unfoldable pub IsCounted : List ℕ → Core P A → Type 0
  IsCounted pads self =
      ((has_fault (run_frames safe screen pads self).bus ≡ false)
        × ((run_frames safe screen pads self).frame ≡ self.frame + length pads))
      ⊎ ((j : ℕ) × (j < length pads) × IsEndedAt j pads self)

module _ {P A : Type 0} (safe : SafeDevices P A) (screen : Screen P)
    (drawn : IsSafeScreen safe.picture screen) where
  run_frames-IsCounted :
      (pads : List ℕ) (self : Core P A)
      → IsReady safe (self.cpu, self.bus)
      → has_fault self.bus ≡ false
      → IsCounted safe screen pads self
  unfolding run_frames IsCounted IsCompleted IsHalted
  run_frames-IsCounted [] self h f = inl (f, omega arith)
  run_frames-IsCounted (pad ∷ pads) self (w, h) f =
      let self' = (run_one_frame safe.dev screen pad self).1 in
      let (ready, ended) = run_one_frame-ends safe screen drawn pad self w h f in
      elim ended [
        | inl (f', counted, _, _) ↦ elim (run_frames-IsCounted pads self' ready f') [
          | inl (f'', e) ↦ inl (f'', omega (arith, e, counted))
          | inr (j, below, e) ↦ inr (
            suc j,
            omega (arith, below),
            record {
              before = e.before;
              at = e.at;
              counted = omega (arith, e.counted, counted);
              still = e.still;
            },
          )
        ]
        | inr (t, _, same, _) ↦
            let still = run_frames-faulted safe screen pads self' t in
            inr (
              0,
              omega arith,
              record {
                before = f;
                at = t;
                counted = omega (arith, same, ap (λ (c : Core P A). c.frame) still);
                still = still;
              },
            )
      ]

  -- From power-on with a valid cartridge of bytes, over picture and audio units and a screen within
  -- their contract, whatever the program does and whatever the pads are, the core runs every frame to
  -- its end. After one call of `run_one_frame` for each pad word, either no fault is recorded and
  -- `frame_counter` is the number of calls; or one of the calls, with `j` calls before it, recorded
  -- the first fault, `frame_counter` is `j`, and the core is what that call left: the calls after it
  -- changed nothing.
  pub power_on-IsCounted :
      (cart : Cartridge) (ppu : P) (apu : A) (pads : List ℕ)
      → IsByteCart cart
      → safe.picture ppu
      → safe.audio apu
      → IsCounted safe screen pads (new safe.dev cart ppu apu)
  power_on-IsCounted cart ppu apu pads c p a =
      run_frames-IsCounted pads (new safe.dev cart ppu apu) (new-IsReady safe cart ppu apu c p a)
        (new-unfaulted safe cart ppu apu)
