-- ===== src/Network.antt =====
-- The network part of Kernel/CrecentKernel/src/kernel/syscall.cpp: here the checksums of IPv4 and TCP. A packet
-- is the list of its bytes, or for TCP those of the segment. The loop that folds a sum runs on fuel; three rounds are enough.
pub mod Checksum
pub mod Sockets
mod Tests
use amazing_os.Base.{
  ℕ, zero, suc, ◌+◌, ◌-◌, ◌*◌, ◌/◌, ◌%◌, ◌^◌, Option, none, some, List, [], ◌∷◌, ltb, if◌then◌else◌,
  length,
}

-- `htons`, which is `ntohs` too.
pub htons : ℕ → ℕ
htons val = (val * 2 ^ 8 % 2 ^ 16 + val / 2 ^ 8) % 2 ^ 16

-- The loop over pairs of bytes, and the byte that an odd count leaves.
pub sum_bytes : List ℕ → (sum : ℕ) → ℕ
sum_bytes [] sum = sum
sum_bytes (a ∷ []) sum = (sum + a * 2 ^ 8) % 2 ^ 32
sum_bytes (a ∷ b ∷ rest) sum = sum_bytes rest ((sum + (a * 2 ^ 8 + b)) % 2 ^ 32)

-- `while (sum >> 16) sum = (sum & 0xFFFF) + (sum >> 16);`
pub fold : (fuel sum : ℕ) → Option ℕ
fold zero sum = none
fold (suc fuel) sum =
    let rest = fold fuel (sum % 2 ^ 16 + sum / 2 ^ 16) in
    if ltb sum (2 ^ 16) then some sum else rest

-- `htons((uint16_t)~sum)`.
abbrev pub complement : Option ℕ → Option ℕ
complement none = none
complement (some sum) = some (htons (2 ^ 16 - 1 - sum))

pub ip_checksum : (fuel : ℕ) → List ℕ → Option ℕ
ip_checksum fuel bytes = complement (fold fuel (sum_bytes bytes 0))

-- The two halves of an address, each of them in the order of the network.
abbrev pub address_sum : ℕ → ℕ
address_sum ip = htons (ip % 2 ^ 16) + htons (ip / 2 ^ 16)

pub tcp_checksum : (fuel src_ip dest_ip : ℕ) → (tcp_seg : List ℕ) → Option ℕ
tcp_checksum fuel src_ip dest_ip tcp_seg = complement (
    fold fuel (
      sum_bytes tcp_seg ((address_sum src_ip + address_sum dest_ip + 6 + length tcp_seg) % 2 ^ 32)))
