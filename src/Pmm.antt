-- ===== src/Pmm.antt =====
-- Kernel/CrecentKernel/src/kernel/pmm.cpp: the physical frames that are free, as a list through the
-- first word of each of them. Memory is the 64-bit words at the addresses of the direct map, less its
-- offset. The bounds of the kernel, which the linker sets, are arguments.
pub mod FreeList
pub mod Region
pub mod Modules
pub mod Maps
mod Tests
use amazing_os.Base.{
  ℕ, zero, suc, ◌+◌, ◌-◌, ◌%◌, ◌^◌, Bool, true, false, ◌&&◌, ◌||◌, Option, none, some, List, [],
  ◌∷◌, ◌==◌, leb, ltb, if◌then◌else◌, get_elem?,
}

-- A module of the boot loader, from its start up to its end.
pub record Module : Type 0 where
  pub start : ℕ
  pub end : ℕ

pub record Pmm : Type 0 where
  pub free_list_head : ℕ
  pub free_frames_count : ℕ
  pub modules : List Module
  pub words : ℕ → ℕ

abbrev pub within : (start end a : ℕ) → Bool
within start end a = leb start a && ltb a end

-- The list goes on where the frame's first word says; the frame's bytes are set to 0.
unfoldable pub take_frame : ℕ → Pmm → Pmm
take_frame frame s = record s {
  free_list_head = s.words frame;
  free_frames_count = s.free_frames_count - 1;
  words = λ a. if within frame (frame + 4096) a then 0 else s.words a;
}

abbrev pub alloc_at : ℕ → Pmm → ℕ × Pmm
alloc_at frame s = if frame == 0 then (0, s) else (frame, take_frame frame s)

-- The frame that is taken, or 0, and the state after it.
unfoldable pub pmm_alloc_frame : Pmm → ℕ × Pmm
unfolding take_frame
pmm_alloc_frame s = alloc_at s.free_list_head s

pub pmm_free_frame : ℕ → Pmm → Pmm
pmm_free_frame frame s =
    if frame % 4096 == 0
    then record s {
      words = λ a. if a == frame then s.free_list_head else s.words a;
      free_list_head = frame;
      free_frames_count = s.free_frames_count + 1;
    }
    else s

pub in_module : ℕ → List Module → Bool
in_module frame [] = false
in_module frame (m ∷ ms) = if within m.start m.end frame then true else in_module frame ms

pub record Guards : Type 0 where
  pub kern_start : ℕ
  pub kern_end : ℕ
  pub guard_start : ℕ
  pub guard_end : ℕ

pub is_guarded : Guards → List Module → ℕ → Bool
unfolding in_module
is_guarded g ms frame =
    ltb frame 0x100000
    || within g.kern_start g.kern_end frame
    || within g.guard_start g.guard_end frame
    || in_module frame ms

-- `none` means that the fuel ran out.
pub region_loop : ℕ → Guards → (frame end : ℕ) → Pmm → Option Pmm
unfolding is_guarded pmm_free_frame
region_loop zero g frame end s = none
region_loop (suc fuel) g frame end s =
    let rest =
      region_loop fuel g ((frame + 4096) % 2 ^ 64) end
        (if is_guarded g s.modules frame then s else pmm_free_frame frame s) in
    if leb end frame then some s else rest

abbrev pub align_down : ℕ → ℕ
align_down a = a - a % 4096

pub register_region : (fuel base len : ℕ) → Guards → Pmm → Option Pmm
unfolding region_loop
register_region fuel base len g s =
    region_loop fuel g (align_down ((base + 4095) % 2 ^ 64)) (align_down ((base + len) % 2 ^ 64)) s

pub pmm_get_module : ℕ → Pmm → Option Module
pmm_get_module index s = get_elem? s.modules index
