-- ===== src/Inet/RoundTrip.antt =====
-- Addresses and networks are read back from their print, and a print fits its buffer.
use mathlib.Core.List.{append_assoc, append-nil}
use mbb_devel.Prelude.{
  ℕ, zero, suc, ◌+◌, ◌*◌, ◌/◌, ◌%◌, ◌^◌, ◌≤◌, ◌<◌, ◌≡◌, refl, ap, false, List, [], ◌∷◌, ◌++◌, some,
  arith, inl, inr,
}
use mbb_devel.Prelude.Tests.{ltb, Bool-cases, lt→ltb, ltb→lt, le→ltb-false}
use mbb_devel.Prelude.Lists.{length, take, length-append}
use mbb_devel.Prelude.Bits.{bit_or, or_below}
use mbb_devel.Prelude.Text.{Bytes, peek, is_digit, decimal, decimal_byte, length-decimal_byte}
use mbb_devel.Inet.{
  Inet, ipv4toa, inettoa, dotted, read_digits, read_byte, push_octet, read_octet, read_octets,
  strtoipv4, read_mask, strtoinet, atoinet, atoipv4, finish,
}

-- The text goes on with no digit.
abbrev pub Stops : Bytes → Type 0
Stops s = is_digit (peek s) ≡ false

read_digits_stop : (num : ℕ) (rest : Bytes) → Stops rest → read_digits num rest ≡ some (num, rest)
unfolding read_digits
read_digits_stop num [] h = refl
read_digits_stop num (c ∷ s) h = ground arith

-- A byte's print is read back, whatever follows that is no digit.
pub read_byte-decimal :
    (b : ℕ) (rest : Bytes) → b < 256 → Stops rest → read_byte (decimal b ++ rest) ≡ some (b, rest)
unfolding read_byte
read_byte-decimal b rest h stop = rw (decimal_byte b h) (ground (arith, read_digits_stop b rest))

push_octet_lem : (ip b : ℕ) → ip < 2 ^ 24 → b < 256 → push_octet ip b ≡ ip * 256 + b
unfolding push_octet
push_octet_lem ip b h k = omega (
  arith,
  or_below 8 ip b k,
  ap (λ t. bit_or t b) (let e : ip * 2 ^ 8 % 2 ^ 32 ≡ ip * 2 ^ 8 = omega arith in e),
)

read_octet-decimal :
    (ip b : ℕ) (rest : Bytes)
    → ip < 2 ^ 24
    → b < 256
    → Stops rest
    → read_octet ip (decimal b ++ rest) ≡ some (ip * 256 + b, rest)
unfolding read_octet
read_octet-decimal ip b rest h k stop =
    rw (read_byte-decimal b rest k stop, read_octet) (rw (push_octet_lem ip b h k))

-- One more round of the loop reads a dot and an octet.
read_octets-decimal :
    (n ip b : ℕ) (rest : Bytes)
    → ip < 2 ^ 24
    → b < 256
    → Stops rest
    → read_octets (suc n) ip (b'.' ∷ (decimal b ++ rest)) ≡ read_octets n (ip * 256 + b) rest
unfolding read_octets
read_octets-decimal n ip b rest h k stop = rw (read_octet-decimal ip b rest h k stop, read_octets)

-- The number that four octets stand for.
abbrev pub quad : ℕ → ℕ → ℕ → ℕ → ℕ
quad b3 b2 b1 b0 = ((b3 * 256 + b2) * 256 + b1) * 256 + b0

module _ (b3 b2 b1 b0 : ℕ) (h3 : b3 < 256) (h2 : b2 < 256) (h1 : b1 < 256) (h0 : b0 < 256) where
  strtoipv4-dotted :
      (rest : Bytes)
      → Stops rest
      → strtoipv4 (dotted b3 b2 b1 b0 ++ rest) ≡ some (quad b3 b2 b1 b0, rest)
  unfolding strtoipv4 read_octets
  strtoipv4-dotted rest stop = simp append_assoc (
      rw (read_octet-decimal 0 b3 _ (omega arith) h3 refl, strtoipv4)
        (rw (read_octets-decimal 2 n3 b2 _ (omega arith) h2 refl) (
          rw (read_octets-decimal 1 n2 b1 _ (omega arith) h1 refl) (
            rw (read_octets-decimal 0 (n2 * 256 + b1) b0 rest (omega arith) h0 stop)
              (ground arith)))))
    where
      n3 : ℕ
      n3 = 0 * 256 + b3

      n2 : ℕ
      n2 = n3 * 256 + b2

  length-dotted : length (dotted b3 b2 b1 b0) ≤ 15
  length-dotted = simp length-append (
      omega (
        arith,
        length-decimal_byte b3 h3,
        length-decimal_byte b2 h2,
        length-decimal_byte b1 h1,
        length-decimal_byte b0 h0,
      ))

take_all {ℓ} : {A : Type ℓ} (n : ℕ) (xs : List A) → length xs ≤ n → take n xs ≡ xs
take_all zero [] h = refl
take_all zero (x ∷ xs) h = absurd (omega arith)
take_all (suc n) [] h = refl
take_all (suc n) (x ∷ xs) h = rw (take_all n xs (omega arith))

byte_lt : (n : ℕ) → n % 256 < 256
byte_lt n = omega arith

-- No print of an address is cut by its buffer.
ipv4toa-dotted :
    (ip : ℕ)
    → ipv4toa ip
      ≡ dotted
          (ip / 2 ^ 8 / 2 ^ 8 / 2 ^ 8 % 256)
          (ip / 2 ^ 8 / 2 ^ 8 % 256)
          (ip / 2 ^ 8 % 256)
          (ip % 256)
unfolding ipv4toa
ipv4toa-dotted ip = take_all 31 _ (omega (arith, fits))
  where
    fits :
        length (
          dotted
            (ip / 2 ^ 8 / 2 ^ 8 / 2 ^ 8 % 256)
            (ip / 2 ^ 8 / 2 ^ 8 % 256)
            (ip / 2 ^ 8 % 256)
            (ip % 256))
        ≤ 15
    fits = length-dotted _ _ _ _ (omega arith) (omega arith) (omega arith) (omega arith)

length-ipv4toa : (ip : ℕ) → length (ipv4toa ip) ≤ 15
length-ipv4toa ip =
    rw (ipv4toa-dotted ip)
      (length-dotted _ _ _ _ (omega arith) (omega arith) (omega arith) (omega arith))

-- An address is read back from its print, and the cursor stops behind it, when the text goes on
-- with no digit.
pub strtoipv4-ipv4toa :
    (ip : ℕ) (rest : Bytes)
    → ip < 2 ^ 32
    → Stops rest
    → strtoipv4 (ipv4toa ip ++ rest) ≡ some (ip, rest)
strtoipv4-ipv4toa ip rest h stop = rw (ipv4toa-dotted ip) (
    rw
      (strtoipv4-dotted _ _ _ _ (byte_lt (ip / 2 ^ 8 / 2 ^ 8 / 2 ^ 8))
        (byte_lt (ip / 2 ^ 8 / 2 ^ 8)) (byte_lt (ip / 2 ^ 8)) (byte_lt ip) rest stop)
      (ap (λ (n : ℕ). some (n, rest)) (omega arith)))

inettoa_bare : (i : Inet) → ltb i.mask 32 ≡ false → inettoa i ≡ ipv4toa i.addr
unfolding inettoa
inettoa_bare i h = rw h

-- A print of a network fits `inet_buf_t` with its NUL, so nothing is cut.
pub inettoa_plain : (i : Inet) → i.mask < 32 → inettoa i ≡ ipv4toa i.addr ++ (b'/' ∷ decimal i.mask)
unfolding inettoa
inettoa_plain i h = rw (lt→ltb i.mask 32 h) (
    take_all 31 _ (
      simp length-append
        (omega (arith, length-ipv4toa i.addr, length-decimal_byte i.mask (omega arith)))))

read_mask-decimal :
    (ip m : ℕ)
    → m < 32
    → read_mask ip (b'/' ∷ decimal m) ≡ some (record { addr = ip; mask = m }, [])
unfolding read_mask
read_mask-decimal ip m h = rw (all_read, read_mask) (rw (le→ltb-false 32 m (omega arith)))
  where
    all_read : read_byte (decimal m) ≡ some (m, [])
    all_read = rw append-nil at (read_byte-decimal m [] (omega arith) refl)

strtoinet-plain :
    (i : Inet)
    → i.addr < 2 ^ 32
    → i.mask < 32
    → strtoinet (ipv4toa i.addr ++ (b'/' ∷ decimal i.mask)) ≡ some (i, [])
unfolding strtoinet
strtoinet-plain i h k =
    rw (strtoipv4-ipv4toa i.addr (b'/' ∷ decimal i.mask) h refl, strtoinet)
      (read_mask-decimal i.addr i.mask k)

strtoinet-bare :
    (ip : ℕ) → ip < 2 ^ 32 → strtoinet (ipv4toa ip) ≡ some (record { addr = ip; mask = 32 }, [])
unfolding strtoinet read_mask
strtoinet-bare ip h = rw (all_read, strtoinet)
  where
    all_read : strtoipv4 (ipv4toa ip) ≡ some (ip, [])
    all_read = rw append-nil at (strtoipv4-ipv4toa ip [] h refl)

-- A network is read back from its print when its address has 32 bits and its mask is at most 32.
pub atoinet-inettoa : (i : Inet) → i.addr < 2 ^ 32 → i.mask ≤ 32 → atoinet (inettoa i) ≡ some i
unfolding atoinet finish
atoinet-inettoa i h k = elim (Bool-cases (ltb i.mask 32)) [
  | inl short ↦
      rw (inettoa_plain i (ltb→lt _ _ short)) (rw (strtoinet-plain i h (ltb→lt _ _ short), finish))
  | inr full ↦
      let e : inettoa i ≡ ipv4toa i.addr = inettoa_bare i full in
      rw (e) (rw (strtoinet-bare i.addr h, finish) (ground arith))
]

pub atoipv4-ipv4toa :
    (ip : ℕ) → ip < 2 ^ 32 → atoipv4 (ipv4toa ip) ≡ some (record { addr = ip; mask = 32 })
unfolding atoipv4 finish
atoipv4-ipv4toa ip h =
    let all_read : strtoipv4 (ipv4toa ip) ≡ some (ip, []) =
      rw append-nil at (strtoipv4-ipv4toa ip [] h refl) in
    rw (all_read, atoipv4) refl
