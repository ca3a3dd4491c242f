-- ===== src/Inet/Tests.antt =====
-- Addresses and ranges at concrete values.
use mbb_devel.Prelude.{◌≡◌, ◌↔◌, refl, arith, none, some}
use mbb_devel.Prelude.Text.{codes, decimal}
use mbb_devel.Inet.{
  Inet, inettoa, read_byte, push_octet, read_octet, read_octets, strtoipv4, read_mask, strtoinet,
  atoipv4, atoinet, finish,
}
use mbb_devel.Inet.Address.{Quad, strtoipv4_iff}
use mbb_devel.Inet.RoundTrip.{atoinet-inettoa}

abbrev lan : Inet
lan = record { addr = 0xc0a8_0a00; mask = 24 }

print_lan : inettoa lan ≡ codes "192.168.10.0/24"
unfolding inettoa decimal
print_lan = refl

parse_lan : atoinet (codes "192.168.10.0/24 ") ≡ some lan
unfolding atoinet finish strtoinet read_mask strtoipv4 read_octets read_octet read_byte push_octet
parse_lan = refl

octet_too_large : atoipv4 (codes "192.168.256.1") ≡ none
unfolding atoipv4 strtoipv4 read_octets read_octet read_byte push_octet
octet_too_large = refl

mask_too_large : atoinet (codes "10.0.0.0/33") ≡ none
unfolding atoinet finish strtoinet read_mask strtoipv4 read_octets read_octet read_byte push_octet
mask_too_large = refl

strtoipv4_iff_example :
    (strtoipv4 (codes "1.2.3.4/8") ≡ some (0x0102_0304, codes "/8"))
    ↔ Quad (codes "1.2.3.4/8") 0x0102_0304 (codes "/8")
strtoipv4_iff_example = strtoipv4_iff (codes "1.2.3.4/8") 0x0102_0304 (codes "/8")

atoinet-inettoa_example : atoinet (inettoa lan) ≡ some lan
atoinet-inettoa_example = atoinet-inettoa lan (omega arith) (omega arith)
