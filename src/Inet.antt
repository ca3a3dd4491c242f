-- ===== src/Inet.antt =====
-- mbbd/inet.c and inet.h: IPv4 addresses and networks, printed and parsed.
-- An `ipv4_t` is a number below 2 ^ 32 and a `byte_t` one below 256. A parser that moves a
-- cursor returns the rest of the text; -1 or NULL is `none`.
pub mod Parse
pub mod Address
pub mod RoundTrip
mod Tests
use mbb_devel.Prelude.{
  ℕ, zero, suc, ◌+◌, ◌-◌, ◌*◌, ◌/◌, ◌%◌, ◌^◌, Bool, ◌&&◌, List, [], ◌∷◌, ◌++◌, Option, none, some,
}
use mbb_devel.Prelude.Tests.{ltb, leb, ◌==◌, if◌then◌else◌}
use mbb_devel.Prelude.Bits.{bit_or}
use mbb_devel.Prelude.Text.{Bytes, peek, advance, is_digit, is_graph, decimal, snprintf}

abbrev pub ipv4_max : ℕ
ipv4_max = 0xffffffff

-- `struct inet`.
pub record Inet : Type 0 where
  pub addr : ℕ
  pub mask : ℕ

-- IPV4_BUFSIZE and INET_BUFSIZE.
abbrev pub ipv4_bufsize : ℕ
ipv4_bufsize = 32

abbrev pub inet_bufsize : ℕ
inet_bufsize = 32

-- The text that `ipv4toa` formats, before it goes through the buffer.
abbrev dotted : ℕ → ℕ → ℕ → ℕ → Bytes
dotted b3 b2 b1 b0 =
    decimal b3 ++ (b'.' ∷ (decimal b2 ++ (b'.' ∷ (decimal b1 ++ (b'.' ∷ decimal b0)))))

pub ipv4toa : ℕ → Bytes
ipv4toa ip =
    let b0 = ip % 256 in
    let ip1 = ip / 2 ^ 8 in
    let b1 = ip1 % 256 in
    let ip2 = ip1 / 2 ^ 8 in
    let b2 = ip2 % 256 in
    let ip3 = ip2 / 2 ^ 8 in let b3 = ip3 % 256 in snprintf ipv4_bufsize (dotted b3 b2 b1 b0)

pub inettoa : Inet → Bytes
unfolding ipv4toa
inettoa i =
    if ltb i.mask 32
    then snprintf inet_bufsize (ipv4toa i.addr ++ (b'/' ∷ decimal i.mask))
    else ipv4toa i.addr

-- The do-while loop of `read_byte`: `num` is checked after each digit.
read_digits : ℕ → Bytes → Option (ℕ × Bytes)
read_digits num [] = some (num, [])
read_digits num (c ∷ s) =
    let more = read_digits (num * 10 + (c - b'0')) s in
    if is_digit c
    then (if ltb 255 (num * 10 + (c - b'0')) then none else more)
    else some (num, c ∷ s)

pub read_byte : Bytes → Option (ℕ × Bytes)
unfolding read_digits
read_byte s = if is_digit (peek s) then read_digits 0 s else none

-- `ip << 8 | byte` in 32 bits.
pub push_octet : ℕ → ℕ → ℕ
push_octet ip byte = bit_or (ip * 2 ^ 8 % 2 ^ 32) byte

-- The body of the loop of `strtoipv4` behind its test for a dot.
read_octet : ℕ → Bytes → Option (ℕ × Bytes)
read_octet ip s = elim (read_byte s) [
  | none ↦ none
  | some (byte, rest) ↦ some (push_octet ip byte, rest)
]

-- Rounds n = 1, 2, 3 of the loop: a dot, then an octet. `k` rounds are left.
read_octets : ℕ → ℕ → Bytes → Option (ℕ × Bytes)
read_octets zero ip s = some (ip, s)
read_octets (suc k) ip s =
    if peek s == b'.'
    then elim (read_octet ip (advance s)) [
      | none ↦ none
      | some (ip', rest) ↦ read_octets k ip' rest
    ]
    else none

pub strtoipv4 : Bytes → Option (ℕ × Bytes)
strtoipv4 s = elim (read_octet 0 s) [ none ↦ none | some (ip, rest) ↦ read_octets 3 ip rest ]

-- The part of `strtoinet` behind the address: an optional `/mask`.
read_mask : ℕ → Bytes → Option (Inet × Bytes)
read_mask ip s =
    if peek s == b'/'
    then elim (read_byte (advance s)) [
      | none ↦ none
      | some (mask, rest) ↦
          if ltb 32 mask then none else some (record { addr = ip; mask = mask }, rest)
    ]
    else some (record { addr = ip; mask = 32 }, s)

pub strtoinet : Bytes → Option (Inet × Bytes)
strtoinet s = elim (strtoipv4 s) [ none ↦ none | some (ip, rest) ↦ read_mask ip rest ]

-- The final test of `atoipv4` and `atoinet`: no visible character follows.
finish : Option (Inet × Bytes) → Option Inet
finish none = none
finish (some (i, rest)) = if is_graph (peek rest) then none else some i

pub atoipv4 : Bytes → Option Inet
atoipv4 s = elim (strtoipv4 s) [
  | none ↦ none
  | some (ip, rest) ↦ finish (some (record { addr = ip; mask = 32 }, rest))
]

pub atoinet : Bytes → Option Inet
atoinet s = finish (strtoinet s)

pub inet_hash : Inet → ℕ
inet_hash i = i.addr

pub inet_equal : Inet → Inet → Bool
inet_equal a b = (a.addr == b.addr) && (a.mask == b.mask)
