-- ===== src/Inet/Address.antt =====
-- The grammar that `strtoipv4` and `atoinet` decide, and the range of what they return.
use mbb_devel.Prelude.{
  ℕ, zero, suc, ◌+◌, ◌*◌, ◌%◌, ◌^◌, ◌≤◌, ◌<◌, ◌≡◌, ap, ◌∙◌, true, false, [], ◌∷◌, Option, none,
  some, arith, inl, inr, ◌↔◌,
}
use mbb_devel.Prelude.Tests.{Bool-cases, Option-cases, ◌==◌, ==_iff}
use mbb_devel.Prelude.Bits.{bit_or, or_below}
use mbb_devel.Prelude.Text.{Bytes, peek, advance, is_graph}
use mbb_devel.Inet.Parse.{ByteText, read_byte_iff}
use mbb_devel.Inet.{
  Inet, read_byte, push_octet, read_octet, read_octets, strtoipv4, read_mask, strtoinet, atoinet,
  finish,
}

-- `ip << 8 | byte` drops the top octet and adds the new one.
pub push_octet_lem : (ip b : ℕ) → b < 256 → push_octet ip b ≡ ip % 2 ^ 24 * 256 + b
unfolding push_octet
push_octet_lem ip b k = omega (
  arith,
  or_below 8 (ip % 2 ^ 24) b k,
  ap (λ t. bit_or t b) (let e : ip * 2 ^ 8 % 2 ^ 32 ≡ ip % 2 ^ 24 * 2 ^ 8 = omega arith in e),
)

-- `k` octets, each behind a dot, pushed onto `ip` one after the other.
abbrev pub Octets : ℕ → ℕ → Bytes → ℕ → Bytes → Type 0
Octets zero ip s ip' rest = (ip ≡ ip') × (s ≡ rest)
Octets (suc k) ip s ip' rest =
    (b : ℕ) × (t : Bytes) × (u : Bytes) × (s ≡ b'.' ∷ t)
    × ByteText t b u
    × Octets k (push_octet ip b) u ip' rest

peek_dot : (s : Bytes) → (peek s == b'.') ≡ true → s ≡ b'.' ∷ advance s
peek_dot [] h = cc
peek_dot (c ∷ s) h = ap (λ d. d ∷ s) ((==_iff c b'.').0 h)

read_octet_split :
    (ip : ℕ) (s : Bytes) (ip' : ℕ) (rest : Bytes)
    → read_octet ip s ≡ some (ip', rest)
    → (b : ℕ) × ByteText s b rest × (ip' ≡ push_octet ip b)
unfolding read_octet
read_octet_split ip s ip' rest h = elim (Option-cases (read_byte s)) [
  | inl e ↦ cc (rw (e, read_octet) at h)
  | inr ((b, u), e) ↦
      let same : u ≡ rest = ground arith in
      (b, (read_byte_iff s b rest).0 (e ∙ ap (λ r. some (b, r)) same), ground arith)
]

read_octet-ByteText :
    (ip : ℕ) (s : Bytes) (b : ℕ) (rest : Bytes)
    → ByteText s b rest
    → read_octet ip s ≡ some (push_octet ip b, rest)
unfolding read_octet
read_octet-ByteText ip s b rest h = rw ((read_byte_iff s b rest).1 h, read_octet)

read_octets_sound :
    (k ip : ℕ) (s : Bytes) (ip' : ℕ) (rest : Bytes)
    → read_octets k ip s ≡ some (ip', rest)
    → Octets k ip s ip' rest
unfolding read_octets
read_octets_sound zero ip s ip' rest h = (ground arith, ground arith)
read_octets_sound (suc k) ip s ip' rest h = elim (Bool-cases (peek s == b'.')) [
  | inl dot ↦ elim (Option-cases (read_octet ip (advance s))) [
    | inl e ↦ cc (rw (dot, e, read_octets) at h)
    | inr ((n, u), e) ↦
        let (b, text, pushed) = read_octet_split ip (advance s) n u e in
        let more : read_octets k n u ≡ some (ip', rest) = rw (dot, e, read_octets) at h in
        (
          b,
          advance s,
          u,
          peek_dot s dot,
          text,
          read_octets_sound k (push_octet ip b) u ip' rest (rw pushed at more),
        )
  ]
  | inr other ↦ cc (rw other at h)
]

read_octets_complete :
    (k ip : ℕ) (s : Bytes) (ip' : ℕ) (rest : Bytes)
    → Octets k ip s ip' rest
    → read_octets k ip s ≡ some (ip', rest)
unfolding read_octets
read_octets_complete zero ip s ip' rest (e, e') = ground arith
read_octets_complete (suc k) ip s ip' rest (b, t, u, split, text, more) = rw split (
    rw (read_octet-ByteText ip t b u text, read_octets)
      (read_octets_complete k (push_octet ip b) u ip' rest more))

-- Four octets with dots between them.
abbrev pub Quad : Bytes → ℕ → Bytes → Type 0
Quad s ip rest = (b : ℕ) × (u : Bytes) × ByteText s b u × Octets 3 (push_octet 0 b) u ip rest

-- `strtoipv4` accepts exactly four byte texts joined by dots: no sign, no blank, no octet above
-- 255, and it returns the octets pushed in order, with the cursor behind the last digit.
pub strtoipv4_iff :
    (s : Bytes) (ip : ℕ) (rest : Bytes) → (strtoipv4 s ≡ some (ip, rest)) ↔ Quad s ip rest
unfolding strtoipv4
strtoipv4_iff s ip rest = (sound, complete)
  where
    sound : strtoipv4 s ≡ some (ip, rest) → Quad s ip rest
    sound h = elim (Option-cases (read_octet 0 s)) [
      | inl e ↦ cc (rw (e, strtoipv4) at h)
      | inr ((n, u), e) ↦
          let (b, text, pushed) = read_octet_split 0 s n u e in
          let more : read_octets 3 n u ≡ some (ip, rest) = rw (e, strtoipv4) at h in
          (b, u, text, read_octets_sound 3 (push_octet 0 b) u ip rest (rw pushed at more))
    ]

    complete : Quad s ip rest → strtoipv4 s ≡ some (ip, rest)
    complete (b, u, text, more) =
        rw (read_octet-ByteText 0 s b u text, strtoipv4)
          (read_octets_complete 3 (push_octet 0 b) u ip rest more)

Octets-lt :
    (k ip : ℕ) (s : Bytes) (ip' : ℕ) (rest : Bytes)
    → ip < 2 ^ 32
    → Octets k ip s ip' rest
    → ip' < 2 ^ 32
Octets-lt zero ip s ip' rest h (e, e') = omega arith
Octets-lt (suc k) ip s ip' rest h (b, t, u, split, (ds, cut, (ne, all, val, le), stop), more) =
    Octets-lt k (push_octet ip b) u ip' rest (omega (arith, push_octet_lem ip b (omega arith))) more

strtoipv4_bound : (s : Bytes) (ip : ℕ) (rest : Bytes) → strtoipv4 s ≡ some (ip, rest) → ip < 2 ^ 32
strtoipv4_bound s ip rest h =
    let (b, u, (ds, cut, (ne, all, val, le), stop), more) = (strtoipv4_iff s ip rest).0 h in
    Octets-lt 3 (push_octet 0 b) u ip rest (omega (arith, push_octet_lem 0 b (omega arith))) more

read_mask_bound :
    (ip : ℕ) (s : Bytes) (i : Inet) (rest : Bytes)
    → read_mask ip s ≡ some (i, rest)
    → (i.addr ≡ ip) × (i.mask ≤ 32)
unfolding read_mask
read_mask_bound ip s i rest h = ground arith

finish_split :
    (r : Option (Inet × Bytes)) (i : Inet)
    → finish r ≡ some i
    → (rest : Bytes) × (r ≡ some (i, rest)) × (is_graph (peek rest) ≡ false)
unfolding finish
finish_split none i h = cc
finish_split (some (j, rest)) i h = (rest, ground arith, ground arith)

-- What `atoinet` returns is a 32-bit address and a mask of at most 32 bits.
pub atoinet_bound : (s : Bytes) (i : Inet) → atoinet s ≡ some i → (i.addr < 2 ^ 32) × (i.mask ≤ 32)
unfolding atoinet strtoinet finish
atoinet_bound s i h = elim (Option-cases (strtoipv4 s)) [
  | inl e ↦ cc (rw (e, strtoinet, finish) at h)
  | inr ((ip, u), e) ↦
      let (rest, parsed, _) = finish_split (strtoinet s) i h in
      let (same, small) = read_mask_bound ip u i rest (rw (e, strtoinet) at parsed) in
      (omega (arith, strtoipv4_bound s ip u e), small)
]
