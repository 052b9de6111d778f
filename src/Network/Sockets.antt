-- ===== src/Network/Sockets.antt =====
-- The sockets of kernel/syscall.cpp: what a TCP segment does to its socket in `pci_poll_network`, and
-- sys_socket, and what sys_connect, sys_send and sys_recv do to a socket apart from the packets that they
-- build, the waiting and the checks of their arguments.
-- `rx_buffer` is its first `rx_len` bytes. A segment has the fields of its packet in the order of the
-- host, and the bytes of its payload as the header counts them. ARP is left out.
pub mod Stream
use amazing_os.Base.{
  ℕ, zero, suc, ◌+◌, ◌-◌, ◌*◌, ◌/◌, ◌%◌, ◌^◌, Bool, true, false, not, ◌&&◌, ◌||◌, Option, none,
  some, List, [], ◌∷◌, ◌++◌, ◌==◌, ltb, leb, if◌then◌else◌, length, take, drop, set, get_or,
  bit_and, min, ℤ, pos, negsuc, to_int,
}

pub data SocketState : Type 0 where
  closed : SocketState
  syn_sent : SocketState
  established : SocketState
  fin_wait : SocketState

pub record Socket : Type 0 where
  pub active : Bool
  pub state : SocketState
  pub dest_ip : ℕ
  pub dest_port : ℕ
  pub src_port : ℕ
  pub my_seq : ℕ
  pub my_ack : ℕ
  pub rx_buffer : List ℕ

pub record Segment : Type 0 where
  pub src_ip : ℕ
  pub src_port : ℕ
  pub dest_port : ℕ
  pub seq : ℕ
  pub ack : ℕ
  pub flags : ℕ
  pub payload : List ℕ

-- What a packet that is sent back says.
pub record Reply : Type 0 where
  pub seq : ℕ
  pub ack : ℕ
  pub flags : ℕ

abbrev pub rx_size : ℕ
rx_size = 8192

abbrev pub is_syn_sent : SocketState → Bool
is_syn_sent syn_sent = true
is_syn_sent closed = false
is_syn_sent established = false
is_syn_sent fin_wait = false

abbrev pub is_established : SocketState → Bool
is_established established = true
is_established closed = false
is_established syn_sent = false
is_established fin_wait = false

abbrev reply : (flags : ℕ) → Socket → Reply
reply flags s = record { seq = s.my_seq; ack = s.my_ack; flags = flags }

-- The payload goes behind what waits in the buffer, if there is room for all of it.
pub accept_payload : Segment → Socket → Socket
accept_payload g s =
    if ltb (length s.rx_buffer + length g.payload) rx_size
    then record s {
      rx_buffer = s.rx_buffer ++ g.payload;
      my_ack = (s.my_ack + length g.payload) % 2 ^ 32;
    }
    else s

pub on_payload : Segment → Socket → Socket × List Reply
on_payload g s =
    let after = accept_payload g s in
    if ltb 0 (length g.payload) && g.seq == s.my_ack
    then (after, reply 0x10 after ∷ [])
    else (s, [])

-- `if (tcp->flags & 0x01)`.
pub on_fin : Segment → Socket × List Reply → Socket × List Reply
on_fin g (s, replies) =
    let after = record s { my_ack = (g.seq + 1) % 2 ^ 32; state = closed } in
    if g.flags % 2 == 1 then (after, replies ++ reply 0x11 after ∷ []) else (s, replies)

-- `pci_poll_network`, from the socket of a segment on.
pub tcp_segment : Segment → Socket → Socket × List Reply
tcp_segment g s =
    let connected = record s {
      my_ack = (g.seq + 1) % 2 ^ 32;
      my_seq = g.ack;
      state = established;
    } in
    if is_syn_sent s.state && bit_and g.flags 0x12 == 0x12
    then (connected, reply 0x10 connected ∷ [])
    else if is_established s.state
    then on_fin g (on_payload g s)
    else (s, [])

abbrev is_for : Segment → Socket → Bool
is_for g s =
    s.active && s.dest_ip == g.src_ip && s.dest_port == g.src_port && s.src_port == g.dest_port

-- The first socket that a segment is for, counting from `i`.
pub find_socket : List Socket → Segment → ℕ → Option ℕ
find_socket [] g i = none
find_socket (s ∷ sockets) g i =
    let rest = find_socket sockets g (i + 1) in if is_for g s then some i else rest

abbrev unused : Socket
unused = record {
  active = false;
  state = closed;
  dest_ip = 0;
  dest_port = 0;
  src_port = 0;
  my_seq = 0;
  my_ack = 0;
  rx_buffer = [];
}

pub deliver : Segment → List Socket → List Socket × List Reply
deliver g sockets = elim (find_socket sockets g 0) [
  | none ↦ (sockets, [])
  | some i ↦
      let (after, replies) = tcp_segment g (get_or sockets i unused) in
      (set sockets i after, replies)
]

-- The first socket that is not active, counting from `i`.
pub free_socket : List Socket → ℕ → Option ℕ
free_socket [] i = none
free_socket (s ∷ sockets) i =
    let rest = free_socket sockets (i + 1) in if s.active then rest else some i

pub sys_socket : List Socket → ℕ × List Socket
sys_socket sockets = elim (free_socket sockets 0) [
  | none ↦ (2 ^ 64 - 1, sockets)
  | some i ↦ (
    100 + i,
    set sockets i
        (record (get_or sockets i unused) { active = true; state = closed; rx_buffer = [] }),
  )
]

-- The state that sys_connect sets before it sends SYN.
pub start_connect : (sock_idx sin_addr sin_port : ℕ) → Socket → Socket
start_connect sock_idx sin_addr sin_port s = record s {
  dest_ip = sin_addr;
  dest_port = sin_port;
  src_port = 50000 + sock_idx;
  my_seq = 1000;
  my_ack = 0;
  state = syn_sent;
  rx_buffer = [];
}

-- What sys_send counts once its packet is out.
pub count_sent : (len : ℕ) → Socket → Socket
count_sent len s = record s { my_seq = (s.my_seq + len) % 2 ^ 32 }

-- What sys_recv copies out, and the rest, which moves to the front of the buffer.
pub recv_copy : (len : ℕ) → Socket → List ℕ × Socket
recv_copy len s =
    let to_copy = min (length s.rx_buffer) len in
    (take to_copy s.rx_buffer, record s { rx_buffer = drop to_copy s.rx_buffer })
