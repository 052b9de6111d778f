-- ===== src/Ps2/Refinement/Packets.antt =====
-- What the driver delivers to its clients: mouse packets whole, and its way back to a packet's start.
use amazing_os.Base.{
  ℕ, zero, suc, ◌<◌, ◌≡◌, true, [], ◌∷◌, ◌++◌, List, arith, length, bit_and, lt→ltb, subst,
}
use amazing_os.Ps2.{Ps2, Call, mouse_irq, decode, truth}
use amazing_os.Ps2.Refinement.{
  View, start, one, two, Models, spec, run, spec_run, run-Models, packet_byte,
}

-- Status with the auxiliary bit set is not 0, so the handler does not read it again.
spec-aux :
    (status b : ℕ) (v : View)
    → truth (bit_and status 0x20) ≡ true
    → spec (mouse_irq status 0 b) v ≡ packet_byte b v
unfolding spec
spec-aux zero b v aux = cc
spec-aux (suc status) b v aux = ground arith

abbrev packet : ℕ → ℕ → ℕ → ℕ → List Call
packet status b0 b1 b2 = mouse_irq status 0 b0 ∷ mouse_irq status 0 b1 ∷ mouse_irq status 0 b2 ∷ []

spec_run-packet :
    (status b0 b1 b2 : ℕ) (v : View)
    → truth (bit_and status 0x20) ≡ true
    → bit_and b0 0xC8 ≡ 0x08
    → length v.events < 255
    → spec_run (packet status b0 b1 b2) (record v { packet = start })
      ≡ record v { events = v.events ++ decode b0 b1 b2 ∷ []; packet = start }
unfolding spec_run
spec_run-packet status b0 b1 b2 v aux sync room =
    rw (spec-aux status b0 (record v { packet = start }) aux, sync)
      (rw (spec-aux status b1 (record v { packet = one b0 }) aux) (
        rw (spec-aux status b2 (record v { packet = two b0 b1 }) aux)
          (rw (lt→ltb (length v.events) 255 room))))

-- Three mouse interrupts with the auxiliary bit in the status, at the start of a packet whose first
-- byte passes the sync check, add one decoded event behind those that wait, while there is room, and
-- leave the driver at the start of a packet.
packet-Models :
    (status b0 b1 b2 : ℕ) (s : Ps2) (v : View)
    → Models s (record v { packet = start })
    → truth (bit_and status 0x20) ≡ true
    → bit_and b0 0xC8 ≡ 0x08
    → length v.events < 255
    → Models
        (run (packet status b0 b1 b2) s)
        (record v { events = v.events ++ decode b0 b1 b2 ∷ []; packet = start })
packet-Models status b0 b1 b2 s v m aux sync room =
    subst (Models _) (spec_run-packet status b0 b1 b2 v aux sync room) (run-Models _ s _ m)
