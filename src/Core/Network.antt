-- ===== src/Core/Network.antt =====
-- `IpNetwork` of src/Core/Endpoint.cpp.
pub mod Prefix
use server_core.Base.{
  ℕ, zero, suc, ◌-◌, ◌*◌, ◌^◌, ◌≡◌, Bool, true, false, not, ◌&&◌, ◌||◌, Option, none, some, List,
  [], ◌∷◌, ◌++◌, bit_and, ltb, leb, ◌==◌, if◌then◌else◌, drop,
}
use server_core.Base.Text.{contains_byte, before, behind}
use server_core.Core.Endpoint.{
  IpFamily, v4, same_family, IpAddress, size_of, bytes_of, is_valid_address, decimal, parse_address,
}

pub record IpNetwork : Type 0 where
  pub address : IpAddress
  pub prefix : ℕ

-- The mask of a byte of which `remaining` bits, and those of the bytes before it, belong to the
-- prefix.
abbrev pub mask_of : ℕ → ℕ
mask_of remaining =
    if leb 8 remaining
    then 255
    else if remaining == 0
    then 0
    else bit_and (255 * 2 ^ (8 - remaining)) 255

-- `remaining` is what is left of the prefix at this byte.
abbrev pub masked : ℕ → List ℕ → List ℕ
masked remaining [] = []
masked remaining (byte ∷ bytes) = bit_and byte (mask_of remaining) ∷ masked (remaining - 8) bytes

abbrev pub network_at : ℕ → IpAddress → IpNetwork
network_at prefix a = record {
  address = record a { bytes = masked prefix (bytes_of a) ++ drop (size_of a.family) a.bytes };
  prefix = prefix;
}

abbrev pub network_of : Option IpAddress → Option ℕ → Option IpNetwork
network_of (some a) (some prefix) =
    if ltb (if same_family a.family v4 then 32 else 128) prefix
    then none
    else some (network_at prefix a)
network_of _ _ = none

-- `IpNetwork::Parse`
unfoldable pub parse_network : List ℕ → Option IpNetwork
unfolding parse_address
parse_network text =
    if not (contains_byte 0x2F text) || contains_byte 0x25 text
    then none
    else network_of (parse_address (before 0x2F text)) (decimal (behind 0x2F text))

-- The loop of `IpNetwork::Contains`.
abbrev pub same_masked : ℕ → List ℕ → List ℕ → Bool
same_masked remaining [] _ = true
same_masked remaining (byte ∷ bytes) [] = false
same_masked remaining (byte ∷ bytes) (other ∷ others) =
    bit_and byte (mask_of remaining) == bit_and other (mask_of remaining)
    && same_masked (remaining - 8) bytes others

unfoldable pub contains : IpNetwork → IpAddress → Bool
contains n a =
    if not (is_valid_address n.address) || not (same_family a.family n.address.family)
    then false
    else same_masked n.prefix (bytes_of a) (bytes_of n.address)
