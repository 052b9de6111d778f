-- ===== src/Ps2/Refinement/Tests.antt =====
-- The refinement of the PS/2 driver at a freshly initialized driver.
use amazing_os.Base.{refl, false, List, [], ◌∷◌, arith, pos}
use amazing_os.Ps2.Ring.{RingBuffer}
use amazing_os.Ps2.{Ps2, Call, keyboard_irq, mouse_irq, take_key}
use amazing_os.Ps2.Refinement.{View, start, Models, run, spec_run, run-Models}

abbrev empty_ring : {A : Type 0} → A → RingBuffer A
empty_ring x = record { slots = λ _. x; head = 0; tail = 0 }

abbrev fresh : Ps2
fresh = record {
  mouse_cycle = 0;
  byte_0 = 0;
  byte_1 = 0;
  byte_2 = 0;
  kbd = empty_ring 0;
  mouse = empty_ring (record { dx = pos 0; dy = pos 0; left = false; right = false });
  shift_active = false;
}

abbrev nothing : View
nothing = record { keys = []; events = []; shift = false; packet = start }

fresh-Models : Models fresh nothing
fresh-Models = record {
  kbd_holds = record {
    head_lt = omega arith;
    tail_at = refl;
    room = omega arith;
    entries = λ i x e. cc;
  };
  mouse_holds = record {
    head_lt = omega arith;
    tail_at = refl;
    room = omega arith;
    entries = λ i x e. cc;
  };
  shift_is = refl;
  packet_at = refl;
}

-- Shift, the key A, a poll, and a byte of the mouse.
abbrev calls : List Call
calls = keyboard_irq 1 0 0x2A ∷ keyboard_irq 1 0 0x1E ∷ take_key ∷ mouse_irq 0 0x21 0x09 ∷ []

run-Models_example : Models (run calls fresh) (spec_run calls nothing)
run-Models_example = run-Models calls fresh nothing fresh-Models
