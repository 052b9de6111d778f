-- ===== src/Ps2.antt =====
-- The PS/2 driver of Kernel/CrecentKernel/src/drivers/ps2.cpp: the rings, the keyboard and mouse
-- interrupt handlers, and the calls that take events out or put them in. What a read of a port
-- returns is an argument of the handler. All of it runs with interrupts off, or is one producer and
-- one consumer of a ring, so each call is one step.
pub mod Ring
pub mod Keymap
pub mod Refinement
use amazing_os.Base.{
  ℕ, ◌+◌, ◌-◌, ◌^◌, Bool, true, false, not, ◌||◌, Option, none, some, ◌==◌, ltb, if◌then◌else◌,
  get_or, bit_and, ℤ, pos, negsuc,
}
use Ring.{RingBuffer, push, poll}
use Keymap.{kbd_us, kbd_us_shift}

pub record MouseEvent : Type 0 where
  pub dx : ℤ
  pub dy : ℤ
  pub left : Bool
  pub right : Bool

pub record Ps2 : Type 0 where
  pub mouse_cycle : ℕ
  pub byte_0 : ℕ
  pub byte_1 : ℕ
  pub byte_2 : ℕ
  pub kbd : RingBuffer ℕ
  pub mouse : RingBuffer MouseEvent
  pub shift_active : Bool

abbrev pub kbd_ring_size : ℕ
kbd_ring_size = 64

abbrev pub mouse_ring_size : ℕ
mouse_ring_size = 256

-- A C truth value: any number but 0.
abbrev pub truth : ℕ → Bool
truth n = not (n == 0)

-- `(int8_t)b` for a byte.
abbrev pub int8 : ℕ → ℤ
int8 b = if ltb b 128 then pos b else negsuc (255 - b)

pub inject_keyboard_char : ℕ → Ps2 → Ps2
inject_keyboard_char c s = record s { kbd = push kbd_ring_size c s.kbd }

pub inject_mouse_event : MouseEvent → Ps2 → Ps2
inject_mouse_event ev s = record s { mouse = push mouse_ring_size ev s.mouse }

pub poll_keyboard : Ps2 → Option (ℕ × Ps2)
poll_keyboard s = elim (poll kbd_ring_size s.kbd) [
  | none ↦ none
  | some (c, r) ↦ some (c, record s { kbd = r })
]

pub poll_mouse : Ps2 → Option (MouseEvent × Ps2)
poll_mouse s = elim (poll mouse_ring_size s.mouse) [
  | none ↦ none
  | some (ev, r) ↦ some (ev, record s { mouse = r })
]

abbrev pub decode : ℕ → ℕ → ℕ → MouseEvent
decode b0 b1 b2 = record {
  dx = int8 b1;
  dy = int8 b2;
  left = truth (bit_and b0 0x01);
  right = truth (bit_and b0 0x02);
}

-- The byte `b` of a packet, at the place that `mouse_cycle` says.
pub mouse_byte : ℕ → Ps2 → Ps2
mouse_byte b s =
    if s.mouse_cycle == 0
    then (if bit_and b 0xC8 == 0x08 then record s { byte_0 = b; mouse_cycle = 1 } else s)
    else if s.mouse_cycle == 1
    then record s { byte_1 = b; mouse_cycle = 2 }
    else if s.mouse_cycle == 2
    then inject_mouse_event (decode s.byte_0 s.byte_1 b) (record s { byte_2 = b; mouse_cycle = 0 })
    else s

-- `fresh` is what the status port returns when it is read, and `b` what the data port does.
pub handle_mouse_interrupt : (status fresh b : ℕ) → Ps2 → Ps2
unfolding mouse_byte
handle_mouse_interrupt status fresh b s =
    let seen = if status == 0 then fresh else status in
    if truth (bit_and seen 0x20) then mouse_byte b s else s

-- A key goes down: `key_code` is the scan code without its top bit.
pub key_press : ℕ → Ps2 → Ps2
key_press key_code s =
    let c = if s.shift_active then get_or kbd_us_shift key_code 0 else get_or kbd_us key_code 0 in
    if truth c then inject_keyboard_char c s else s

-- A scan code: a shift key goes down or up, another key goes down, or its release is ignored.
pub scan : ℕ → Ps2 → Ps2
unfolding key_press
scan scancode s =
    let is_release = truth (bit_and scancode 0x80) in
    let key_code = bit_and scancode 0x7F in
    if key_code == 0x2A || key_code == 0x36
    then record s { shift_active = not is_release }
    else if not is_release
    then key_press key_code s
    else s

pub handle_keyboard_interrupt : (status fresh scancode : ℕ) → Ps2 → Ps2
unfolding handle_mouse_interrupt scan
handle_keyboard_interrupt status fresh scancode s =
    if truth (bit_and status 0x20)
    then handle_mouse_interrupt status fresh scancode s
    else scan scancode s

-- What the environment may ask of the driver.
pub data Call : Type 0 where
  keyboard_irq : (status fresh scancode : ℕ) → Call
  mouse_irq : (status fresh b : ℕ) → Call
  inject_key : ℕ → Call
  inject_mouse : MouseEvent → Call
  take_key : Call
  take_mouse : Call

-- A poll of an empty ring leaves the driver as it was.
abbrev pub after {ℓ} : {A : Type ℓ} → Ps2 → Option (A × Ps2) → Ps2
after s none = s
after s (some (a, s')) = s'

pub step : Call → Ps2 → Ps2
step (keyboard_irq status fresh scancode) s = handle_keyboard_interrupt status fresh scancode s
step (mouse_irq status fresh b) s = handle_mouse_interrupt status fresh b s
step (inject_key c) s = inject_keyboard_char c s
step (inject_mouse ev) s = inject_mouse_event ev s
step take_key s = after s (poll_keyboard s)
step take_mouse s = after s (poll_mouse s)
