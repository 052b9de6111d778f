-- ===== src/Network/Sockets/Stream.antt =====
-- The bytes that a program receives from a socket of kernel/syscall.cpp are a prefix of the bytes that the
-- other side sent.
use mathlib.Core.List.{append_assoc, append-nil}
use amazing_os.Base.{
  ℕ, zero, suc, ◌+◌, ◌%◌, ◌^◌, ◌≤◌, ◌<◌, ◌≡◌, refl, sym, ap, ◌∙◌, subst, Bool, true, ◌&&◌, List, [],
  ◌∷◌, ◌++◌, ◌==◌, ltb, length, take, drop, take-append-drop, take-nil, All, min, arith, Bool-cases,
  ◌⊎◌, inl, inr,
}
use amazing_os.Network.Sockets.{
  closed, established, Socket, Segment, Reply, accept_payload, on_payload, on_fin, tcp_segment,
  recv_copy, is_syn_sent, is_established,
}

-- A segment of the connection arrives, in any order and any number of times, or the program asks for
-- bytes.
pub data Event : Type 0 where
  arrive : Segment → Event
  receive : ℕ → Event

-- The bytes that the program got, and the socket after the events.
pub run : List Event → Socket → List ℕ × Socket
run [] s = ([], s)
run (arrive g ∷ events) s = run events (tcp_segment g s).0
run (receive len ∷ events) s =
    let (got, after) = recv_copy len s in let (more, end) = run events after in (got ++ more, end)

-- The payload of the segment is a piece of the stream, and its number says where, from `first` on.
pub record IsPiece (stream : List ℕ) (first : ℕ) (g : Segment) : Type 0 where
  pub at : ℕ
  pub inside : at + length g.payload ≤ length stream
  pub number : g.seq ≡ (first + at) % 2 ^ 32
  pub bytes : g.payload ≡ take (length g.payload) (drop at stream)

abbrev pub Piece : List ℕ → ℕ → Event → Type 0
Piece stream first (arrive g) = IsPiece stream first g
Piece stream first (receive len) = Unit

-- The program and the buffer have the stream up to some place; while the connection lasts, it is the
-- place that the socket acknowledges.
record IsStream (stream : List ℕ) (first : ℕ) (got : List ℕ) (s : Socket) : Type 0 where
  upto : ℕ
  inside : upto ≤ length stream
  bytes : got ++ s.rx_buffer ≡ take upto stream
  status : ((s.state ≡ established) × (s.my_ack ≡ (first + upto) % 2 ^ 32)) ⊎ (s.state ≡ closed)

take-add : (p n : ℕ) (xs : List ℕ) → take p xs ++ take n (drop p xs) ≡ take (p + n) xs
take-add zero n xs = ap (λ k. take k xs) (omega arith)
take-add (suc p) n [] = take-nil n ∙ sym (take-nil (suc p + n))
take-add (suc p) n (x ∷ xs) =
    let same : suc (p + n) ≡ suc p + n = omega arith in
    ap (λ (t : List ℕ). x ∷ t) (take-add p n xs) ∙ ap (λ k. take k (x ∷ xs)) same

module _ (stream : List ℕ) (first : ℕ) (short : length stream < 2 ^ 32) where
  -- Room or not, the payload that comes next keeps the buffer in the stream.
  accept_payload-IsStream :
      (g : Segment) (got : List ℕ) (s : Socket) (h : IsStream stream first got s)
      → IsPiece stream first g
      → s.state ≡ established
      → s.my_ack ≡ (first + h.upto) % 2 ^ 32
      → g.seq ≡ s.my_ack
      → IsStream stream first got (accept_payload g s)
  unfolding accept_payload
  accept_payload-IsStream g got s h piece live at_ack next =
      let here : piece.at ≡ h.upto =
        same_place piece.at h.upto (omega (arith, piece.inside)) (omega (arith, h.inside))
          (sym piece.number ∙ next ∙ at_ack) in
      elim (Bool-cases (ltb (length s.rx_buffer + length g.payload) 8192)) [
        | inr f ↦ rw f h
        | inl t ↦ rw t (record {
          upto = h.upto + length g.payload;
          inside = omega (arith, piece.inside, here);
          bytes =
              sym (append_assoc got s.rx_buffer g.payload)
              ∙ ap (λ (xs : List ℕ). xs ++ g.payload) h.bytes
              ∙ ap (λ (xs : List ℕ). take h.upto stream ++ xs)
                  (piece.bytes ∙ ap (λ k. take (length g.payload) (drop k stream)) here)
              ∙ take-add h.upto (length g.payload) stream;
          status = inl (live, advance s.my_ack h.upto (length g.payload) at_ack);
        })
      ]
    where
      same_place :
          (a b : ℕ) → a < 2 ^ 32 → b < 2 ^ 32 → (first + a) % 2 ^ 32 ≡ (first + b) % 2 ^ 32 → a ≡ b
      same_place a b ha hb e = omega arith

      advance :
          (ack p n : ℕ)
          → ack ≡ (first + p) % 2 ^ 32
          → (ack + n) % 2 ^ 32 ≡ (first + (p + n)) % 2 ^ 32
      advance ack p n e = omega arith

  on_payload-IsStream :
      (g : Segment) (got : List ℕ) (s : Socket) (h : IsStream stream first got s)
      → IsPiece stream first g
      → s.state ≡ established
      → s.my_ack ≡ (first + h.upto) % 2 ^ 32
      → IsStream stream first got (on_payload g s).0
  unfolding on_payload
  on_payload-IsStream g got s h piece live at_ack =
      elim (Bool-cases (ltb 0 (length g.payload) && g.seq == s.my_ack)) [
        | inr f ↦ rw f h
        | inl t ↦ rw t (
            accept_payload-IsStream g got s h piece live at_ack
              (number_of (ltb 0 (length g.payload)) g.seq s.my_ack t))
      ]
    where
      number_of : (b : Bool) (m n : ℕ) → (b && m == n) ≡ true → m ≡ n
      number_of b m n e = ground arith

  on_fin-IsStream :
      (g : Segment) (got : List ℕ) (s : Socket) (replies : List Reply)
      → IsStream stream first got s
      → IsStream stream first got (on_fin g (s, replies)).0
  unfolding on_fin
  on_fin-IsStream g got s replies h = elim (Bool-cases (g.flags % 2 == 1)) [
    | inr f ↦ rw f h
    | inl t ↦ rw t (record { upto = h.upto; inside = h.inside; bytes = h.bytes; status = inr refl })
  ]

  tcp_segment-IsStream :
      (g : Segment) (got : List ℕ) (s : Socket)
      → IsStream stream first got s
      → IsPiece stream first g
      → IsStream stream first got (tcp_segment g s).0
  unfolding tcp_segment
  tcp_segment-IsStream g got s h piece = elim h.status [
    | inl (live, at_ack) ↦
        rw (ap is_syn_sent live, ap is_established live)
          (on_fin-IsStream g got (on_payload g s).0 (on_payload g s).1
            (on_payload-IsStream g got s h piece live at_ack))
    | inr over ↦ rw (ap is_syn_sent over, ap is_established over) h
  ]

  recv_copy-IsStream :
      (len : ℕ) (got : List ℕ) (s : Socket)
      → IsStream stream first got s
      → IsStream stream first (got ++ (recv_copy len s).0) (recv_copy len s).1
  unfolding recv_copy
  recv_copy-IsStream len got s h =
      let n = min (length s.rx_buffer) len in
      record {
        upto = h.upto;
        inside = h.inside;
        bytes =
            append_assoc got (take n s.rx_buffer) (drop n s.rx_buffer)
            ∙ ap (λ (xs : List ℕ). got ++ xs) (take-append-drop n s.rx_buffer)
            ∙ h.bytes;
        status = h.status;
      }

  run-IsStream :
      (events : List Event) (got : List ℕ) (s : Socket)
      → IsStream stream first got s
      → All (Piece stream first) events
      → IsStream stream first (got ++ (run events s).0) (run events s).1
  unfolding run
  run-IsStream [] got s h pieces =
      subst (λ (xs : List ℕ). IsStream stream first xs s) (sym (append-nil got)) h
  run-IsStream (arrive g ∷ events) got s h pieces =
      run-IsStream events got (tcp_segment g s).0 (tcp_segment-IsStream g got s h pieces.0) pieces.1
  run-IsStream (receive len ∷ events) got s h pieces =
      let r = recv_copy len s in
      subst (λ (xs : List ℕ). IsStream stream first xs (run events r.1).1)
        (append_assoc got r.0 (run events r.1).0)
        (run-IsStream events (got ++ r.0) r.1 (recv_copy-IsStream len got s h) pieces.1)

-- On an established connection that acknowledges the first byte of a stream of fewer than 2 ^ 32 bytes
-- and has an empty buffer, whatever pieces of the stream arrive, in any order, repeated or lost, and
-- whenever the program asks for bytes, what it has received, followed by what waits in the buffer, is
-- the beginning of the stream.
pub run-prefix :
    (stream : List ℕ) (first : ℕ) (events : List Event) (s : Socket)
    → length stream < 2 ^ 32
    → s.state ≡ established
    → s.my_ack ≡ first % 2 ^ 32
    → s.rx_buffer ≡ []
    → All (Piece stream first) events
    → (upto : ℕ) × (upto ≤ length stream)
      × ((run events s).0 ++ (run events s).1.rx_buffer ≡ take upto stream)
run-prefix stream first events s short live at_first empty pieces =
    let h =
      run-IsStream stream first short events [] s
        (record {
          upto = 0;
          inside = omega arith;
          bytes = empty;
          status = inl (live, at_first ∙ ap (λ k. k % 2 ^ 32) (omega arith));
        })
        pieces in
    (h.upto, h.inside, h.bytes)
