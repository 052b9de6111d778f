-- ===== src/Ps2/Refinement.antt =====
-- The driver against its abstract view: two bounded queues, the shift state, and how much of a
-- mouse packet has come in.
pub mod Packets
mod Tests
use amazing_os.Base.{
  ℕ, ◌+◌, ◌≡◌, refl, inl, inr, Bool, true, false, not, ◌||◌, List, [], ◌∷◌, ◌++◌, arith, ◌==◌, ltb,
  if◌then◌else◌, length, get_or, bit_and, lt→ltb, lt→ltb_false, Bool-cases,
}
use amazing_os.Ps2.Ring.{RingBuffer, Holds, push, push-Holds, poll-nil, poll-cons}
use amazing_os.Ps2.Keymap.{kbd_us, kbd_us_shift}
use amazing_os.Ps2.{
  Ps2, MouseEvent, Call, keyboard_irq, mouse_irq, inject_key, inject_mouse, take_key, take_mouse,
  decode, truth, step, inject_keyboard_char, inject_mouse_event, poll_keyboard, poll_mouse,
  mouse_byte, handle_mouse_interrupt, key_press, scan, handle_keyboard_interrupt, after,
}

-- The bytes of the packet that has begun.
pub data Packet : Type 0 where
  start : Packet
  one : ℕ → Packet
  two : ℕ → ℕ → Packet

pub record View : Type 0 where
  pub keys : List ℕ
  pub events : List MouseEvent
  pub shift : Bool
  pub packet : Packet

-- A queue that drops what it has no room for.
abbrev pub append_bounded {ℓ} : {A : Type ℓ} → ℕ → List A → A → List A
append_bounded n xs x = if ltb (length xs) n then xs ++ x ∷ [] else xs

abbrev pub tail {ℓ} : {A : Type ℓ} → List A → List A
tail [] = []
tail (x ∷ xs) = xs

-- A first byte must have bit 3 set and bits 6 and 7 clear.
abbrev pub packet_byte : ℕ → View → View
packet_byte b v = elim v.packet [
  | start ↦ if bit_and b 0xC8 == 0x08 then record v { packet = one b } else v
  | one b0 ↦ record v { packet = two b0 b }
  | two b0 b1 ↦ record v { events = append_bounded 255 v.events (decode b0 b1 b); packet = start }
]

abbrev pub spec_mouse : (status fresh b : ℕ) → View → View
spec_mouse status fresh b v =
    if truth (bit_and (if status == 0 then fresh else status) 0x20) then packet_byte b v else v

abbrev pub typed : Bool → ℕ → ℕ
typed shift key = get_or (if shift then kbd_us_shift else kbd_us) key 0

abbrev pub spec_key : ℕ → View → View
spec_key key v =
    if typed v.shift key == 0
    then v
    else record v { keys = append_bounded 63 v.keys (typed v.shift key) }

abbrev pub spec_keyboard : ℕ → View → View
spec_keyboard scancode v =
    if bit_and scancode 0x7F == 0x2A || bit_and scancode 0x7F == 0x36
    then record v { shift = bit_and scancode 0x80 == 0 }
    else if bit_and scancode 0x80 == 0
    then spec_key (bit_and scancode 0x7F) v
    else v

pub spec : Call → View → View
spec (keyboard_irq status fresh scancode) v =
    if truth (bit_and status 0x20)
    then spec_mouse status fresh scancode v
    else spec_keyboard scancode v
spec (mouse_irq status fresh b) v = spec_mouse status fresh b v
spec (inject_key c) v = record v { keys = append_bounded 63 v.keys c }
spec (inject_mouse ev) v = record v { events = append_bounded 255 v.events ev }
spec take_key v = record v { keys = tail v.keys }
spec take_mouse v = record v { events = tail v.events }

-- `mouse_cycle` and the first two bytes.
abbrev pub PacketAt : (cycle b0 b1 : ℕ) → Packet → Type 0
PacketAt cycle b0 b1 start = cycle ≡ 0
PacketAt cycle b0 b1 (one c0) = (cycle ≡ 1) × (b0 ≡ c0)
PacketAt cycle b0 b1 (two c0 c1) = (cycle ≡ 2) × (b0 ≡ c0) × (b1 ≡ c1)

pub record Models (s : Ps2) (v : View) : Type 0 where
  pub kbd_holds : Holds 64 s.kbd v.keys
  pub mouse_holds : Holds 256 s.mouse v.events
  pub shift_is : s.shift_active ≡ v.shift
  pub packet_at : PacketAt s.mouse_cycle s.byte_0 s.byte_1 v.packet

module _ {ℓ} {A : Type ℓ} where
  Holds-bounded :
      (n : ℕ) (r : RingBuffer A) (xs : List A) (x : A)
      → Holds (n + 1) r xs
      → Holds (n + 1) (push (n + 1) x r) (append_bounded n xs x)
  Holds-bounded n r xs x h = elim (push-Holds (n + 1) r xs x h) [
    | inl (lt, p) ↦ rw (lt→ltb (length xs) n (omega arith)) p
    | inr (full, e) ↦ rw (lt→ltb_false (length xs) n (omega arith), e) h
  ]

not-truth : (n : ℕ) → not (truth n) ≡ (n == 0)
not-truth n = ground arith

typed_lem :
    (shift : Bool) (key : ℕ)
    → (if shift then get_or kbd_us_shift key 0 else get_or kbd_us key 0) ≡ typed shift key
typed_lem true key = refl
typed_lem false key = refl

inject_key-Models :
    (c : ℕ) {s : Ps2} {v : View}
    → Models s v
    → Models (inject_keyboard_char c s) (record v { keys = append_bounded 63 v.keys c })
unfolding inject_keyboard_char
inject_key-Models c {s} {v} m = record {
  kbd_holds = Holds-bounded 63 s.kbd v.keys c m.kbd_holds;
  mouse_holds = m.mouse_holds;
  shift_is = m.shift_is;
  packet_at = m.packet_at;
}

inject_mouse-Models :
    (ev : MouseEvent) {s : Ps2} {v : View}
    → Models s v
    → Models (inject_mouse_event ev s) (record v { events = append_bounded 255 v.events ev })
unfolding inject_mouse_event
inject_mouse-Models ev {s} {v} m = record {
  kbd_holds = m.kbd_holds;
  mouse_holds = Holds-bounded 255 s.mouse v.events ev m.mouse_holds;
  shift_is = m.shift_is;
  packet_at = m.packet_at;
}

-- A packet's bytes go to their places, and the third one completes an event.
mouse_byte-Models :
    (b : ℕ) (s : Ps2) (v : View) (p : Packet)
    → PacketAt s.mouse_cycle s.byte_0 s.byte_1 p
    → Models s (record v { packet = p })
    → Models (mouse_byte b s) (packet_byte b (record v { packet = p }))
unfolding mouse_byte inject_mouse_event
mouse_byte-Models b s v start at m = elim (Bool-cases (bit_and b 0xC8 == 0x08)) [
  | inl good ↦
      let first : (s.mouse_cycle == 0) ≡ true = ground arith in
      rw (first, good)
        (record {
          kbd_holds = m.kbd_holds;
          mouse_holds = m.mouse_holds;
          shift_is = m.shift_is;
          packet_at = (refl, refl);
        })
  | inr bad ↦ let first : (s.mouse_cycle == 0) ≡ true = ground arith in rw (first, bad) m
]
mouse_byte-Models b s v (one b0) at m =
    let first : (s.mouse_cycle == 0) ≡ false = ground arith in
    let second : (s.mouse_cycle == 1) ≡ true = ground arith in
    rw (first, second)
      (record {
        kbd_holds = m.kbd_holds;
        mouse_holds = m.mouse_holds;
        shift_is = m.shift_is;
        packet_at = (refl, at.1, refl);
      })
mouse_byte-Models b s v (two b0 b1) at m =
    let first : (s.mouse_cycle == 0) ≡ false = ground arith in
    let second : (s.mouse_cycle == 1) ≡ false = ground arith in
    let third : (s.mouse_cycle == 2) ≡ true = ground arith in
    rw (first, second, third, at.1, at.2)
      (record {
        kbd_holds = m.kbd_holds;
        mouse_holds = Holds-bounded 255 s.mouse v.events (decode b0 b1 b) m.mouse_holds;
        shift_is = m.shift_is;
        packet_at = refl;
      })

mouse-Models :
    (status fresh b : ℕ) {s : Ps2} {v : View}
    → Models s v
    → Models (handle_mouse_interrupt status fresh b s) (spec_mouse status fresh b v)
unfolding handle_mouse_interrupt
mouse-Models status fresh b {s} {v} m =
    elim (Bool-cases (truth (bit_and (if status == 0 then fresh else status) 0x20))) [
      | inl aux ↦ rw aux (mouse_byte-Models b s v v.packet m.packet_at m)
      | inr other ↦ rw other m
    ]

key_press-Models :
    (key : ℕ) {s : Ps2} {v : View} → Models s v → Models (key_press key s) (spec_key key v)
unfolding key_press
key_press-Models key {s} {v} m =
    simp (m.shift_is, typed_lem v.shift key)
      (elim (Bool-cases (typed v.shift key == 0)) [
        | inl blank ↦ rw blank m
        | inr char ↦ rw char (inject_key-Models (typed v.shift key) m)
      ])

keyboard-Models :
    (scancode : ℕ) (s : Ps2) (v : View)
    → Models s v
    → Models (scan scancode s) (spec_keyboard scancode v)
unfolding scan
keyboard-Models scancode s v m =
    elim (Bool-cases (bit_and scancode 0x7F == 0x2A || bit_and scancode 0x7F == 0x36)) [
      | inl is_shift ↦
          rw (is_shift, not-truth (bit_and scancode 0x80))
            (record {
              kbd_holds = m.kbd_holds;
              mouse_holds = m.mouse_holds;
              shift_is = refl;
              packet_at = m.packet_at;
            })
      | inr other ↦
          rw (other, not-truth (bit_and scancode 0x80))
            (elim (Bool-cases (bit_and scancode 0x80 == 0)) [
              | inl down ↦ rw down (key_press-Models (bit_and scancode 0x7F) m)
              | inr up ↦ rw up m
            ])
    ]

take_key-Models :
    (xs : List ℕ) (s : Ps2) (v : View)
    → Models s (record v { keys = xs })
    → Models (after s (poll_keyboard s)) (record v { keys = tail xs })
unfolding poll_keyboard
take_key-Models [] s v m = rw (poll-nil 64 s.kbd m.kbd_holds, poll_keyboard) m
take_key-Models (x ∷ xs) s v m =
    let (r, e, h) = poll-cons 64 s.kbd x xs m.kbd_holds in
    rw (e, poll_keyboard)
      (record {
        kbd_holds = h;
        mouse_holds = m.mouse_holds;
        shift_is = m.shift_is;
        packet_at = m.packet_at;
      })

take_mouse-Models :
    (xs : List MouseEvent) (s : Ps2) (v : View)
    → Models s (record v { events = xs })
    → Models (after s (poll_mouse s)) (record v { events = tail xs })
unfolding poll_mouse
take_mouse-Models [] s v m = rw (poll-nil 256 s.mouse m.mouse_holds, poll_mouse) m
take_mouse-Models (x ∷ xs) s v m =
    let (r, e, h) = poll-cons 256 s.mouse x xs m.mouse_holds in
    rw (e, poll_mouse)
      (record {
        kbd_holds = m.kbd_holds;
        mouse_holds = h;
        shift_is = m.shift_is;
        packet_at = m.packet_at;
      })

-- Each call of the driver does to the rings what its specification does to the queues.
pub step-Models : (c : Call) (s : Ps2) (v : View) → Models s v → Models (step c s) (spec c v)
unfolding step spec handle_keyboard_interrupt
step-Models (keyboard_irq status fresh scancode) s v m =
    elim (Bool-cases (truth (bit_and status 0x20))) [
      | inl aux ↦ rw aux (mouse-Models status fresh scancode m)
      | inr keys ↦ rw keys (keyboard-Models scancode s v m)
    ]
step-Models (mouse_irq status fresh b) s v m = mouse-Models status fresh b m
step-Models (inject_key c) s v m = inject_key-Models c m
step-Models (inject_mouse ev) s v m = inject_mouse-Models ev m
step-Models take_key s v m = take_key-Models v.keys s v m
step-Models take_mouse s v m = take_mouse-Models v.events s v m

pub run : List Call → Ps2 → Ps2
run [] s = s
run (c ∷ cs) s = run cs (step c s)

pub spec_run : List Call → View → View
spec_run [] v = v
spec_run (c ∷ cs) v = spec_run cs (spec c v)

-- After any sequence of interrupts, polls and injected events the rings of the driver hold what the
-- queues of the specification hold, and its shift and packet state agree with the specification's.
pub run-Models :
    (cs : List Call) (s : Ps2) (v : View) → Models s v → Models (run cs s) (spec_run cs v)
unfolding run spec_run
run-Models [] s v m = m
run-Models (c ∷ cs) s v m = run-Models cs (step c s) (spec c v) (step-Models c s v m)
