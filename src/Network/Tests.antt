-- ===== src/Network/Tests.antt =====
-- A header of six bytes, and a connection on which two pieces of a stream arrive, one of them twice.
use amazing_os.Base.{ℕ, ◌/◌, ◌%◌, ◌≤◌, ◌≡◌, refl, true, some, List, [], ◌∷◌, ◌++◌, take, arith}
use amazing_os.Network.{ip_checksum}
use amazing_os.Network.Checksum.{ip_checksum-verifies}
use amazing_os.Network.Sockets.{Socket, Segment, established}
use amazing_os.Network.Sockets.Stream.{Event, arrive, receive, IsPiece, run, run-prefix}

ip_checksum-verifies_example :
    (c : ℕ) × (ip_checksum 3 ((69 ∷ 0 ∷ []) ++ 0 ∷ 0 ∷ 10 ∷ 200 ∷ []) ≡ some c)
    × (ip_checksum 3 ((69 ∷ 0 ∷ []) ++ c % 256 ∷ c / 256 ∷ 10 ∷ 200 ∷ []) ≡ some 0)
ip_checksum-verifies_example =
    ip_checksum-verifies 0 (69 ∷ 0 ∷ []) (10 ∷ 200 ∷ [])
      (omega arith, (omega arith, (omega arith, (omega arith, (omega arith, (omega arith, tt))))))
      (omega arith) (omega arith)

abbrev stream : List ℕ
stream = 104 ∷ 105 ∷ 33 ∷ []

abbrev segment : ℕ → List ℕ → Segment
segment seq payload = record {
  src_ip = 1;
  src_port = 80;
  dest_port = 50000;
  seq = seq;
  ack = 0;
  flags = 0x18;
  payload = payload;
}

abbrev connection : Socket
connection = record {
  active = true;
  state = established;
  dest_ip = 1;
  dest_port = 80;
  src_port = 50000;
  my_seq = 1001;
  my_ack = 0xFFFFFFFF;
  rx_buffer = [];
}

abbrev front : Segment
front = segment 0xFFFFFFFF (104 ∷ 105 ∷ [])

abbrev back : Segment
back = segment 1 (33 ∷ [])

front-IsPiece : IsPiece stream 0xFFFFFFFF front
front-IsPiece = record { at = 0; inside = omega arith; number = refl; bytes = refl }

back-IsPiece : IsPiece stream 0xFFFFFFFF back
back-IsPiece = record { at = 2; inside = omega arith; number = refl; bytes = refl }

abbrev arrivals : List Event
arrivals = arrive front ∷ arrive front ∷ receive 1 ∷ arrive back ∷ []

run-prefix_example :
    (upto : ℕ) × (upto ≤ 3)
    × ((run arrivals connection).0 ++ (run arrivals connection).1.rx_buffer ≡ take upto stream)
run-prefix_example =
    run-prefix stream 0xFFFFFFFF arrivals connection (omega arith) refl refl refl
      (front-IsPiece, (front-IsPiece, (tt, (back-IsPiece, tt))))
