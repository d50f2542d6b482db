-- ===== src/Core/EndpointExamples.antt =====
-- Concrete addresses and networks.
use server_core.Base.{
  ℕ, ◌<◌, ◌≡◌, refl, true, false, none, some, List, [], ◌∷◌, ◌++◌, arith, replicate, ◌↔◌, All,
}
use server_core.Core.Error.{value}
use server_core.Core.Endpoint.{
  v4, v6, same_family, IpAddress, bytes_of, is_valid_address, parse_address, from_bytes, normalized,
}
use server_core.Core.Endpoint.Printing.{address_text, parse_endpoint, endpoint_text}
use server_core.Core.Endpoint.RoundTrip.{parse_address-v4}
use server_core.Core.Network.{network_at, parse_network, contains}
use server_core.Core.Network.Prefix.{SamePrefix, contains_iff}

abbrev local_host : IpAddress
local_host = record { family = v4; bytes = 127 ∷ 0 ∷ 0 ∷ 1 ∷ replicate 12 0; scope = 0 }

abbrev neighbour : IpAddress
neighbour = record { family = v4; bytes = 127 ∷ 0 ∷ 9 ∷ 200 ∷ replicate 12 0; scope = 0 }

-- fe80::1%3
abbrev link_text : List ℕ
link_text = 0x66 ∷ 0x65 ∷ 0x38 ∷ 0x30 ∷ 0x3A ∷ 0x3A ∷ 0x31 ∷ 0x25 ∷ 0x33 ∷ []

abbrev link : IpAddress
link = record { family = v6; bytes = 0xFE ∷ 0x80 ∷ replicate 13 0 ++ 1 ∷ []; scope = 3 }

link-parsed : parse_address link_text ≡ some link
unfolding parse_address
link-parsed = refl

link-printed : address_text link ≡ link_text
unfolding address_text
link-printed = refl

-- ::ffff:1.2.3.4
mapped-normalized :
    parse_address (
      0x3A ∷ 0x3A ∷ 0x66 ∷ 0x66 ∷ 0x66 ∷ 0x66 ∷ 0x3A ∷ 0x31 ∷ 0x2E ∷ 0x32 ∷ 0x2E ∷ 0x33 ∷ 0x2E
      ∷ 0x34 ∷ [])
    ≡ some (record {
      family = v6;
      bytes = replicate 10 0 ++ 255 ∷ 255 ∷ 1 ∷ 2 ∷ 3 ∷ 4 ∷ [];
      scope = 0;
    })
unfolding parse_address
mapped-normalized = refl

-- Two gaps, and a number over 255.
two_gaps-refused : parse_address (0x31 ∷ 0x3A ∷ 0x3A ∷ 0x32 ∷ 0x3A ∷ 0x3A ∷ 0x33 ∷ []) ≡ none
unfolding parse_address
two_gaps-refused = refl

large-refused :
    parse_address (0x31 ∷ 0x2E ∷ 0x32 ∷ 0x2E ∷ 0x33 ∷ 0x2E ∷ 0x32 ∷ 0x35 ∷ 0x36 ∷ []) ≡ none
unfolding parse_address
large-refused = refl

parse_address-v4_example : parse_address (address_text local_host) ≡ some local_host
parse_address-v4_example =
    parse_address-v4 127 0 0 1 (omega arith) (omega arith) (omega arith) (omega arith)

local_host-bytes : All (λ b. b < 256) local_host.bytes
local_host-bytes = (
  omega arith,
  (
    omega arith,
    (
      omega arith,
      (
        omega arith,
        (
          omega arith,
          (
            omega arith,
            (
              omega arith,
              (
                omega arith,
                (
                  omega arith,
                  (
                    omega arith,
                    (
                      omega arith,
                      (omega arith, (omega arith, (omega arith, (omega arith, (omega arith, tt))))),
                    ),
                  ),
                ),
              ),
            ),
          ),
        ),
      ),
    ),
  ),
)

neighbour-bytes : All (λ b. b < 256) neighbour.bytes
neighbour-bytes = (
  omega arith,
  (
    omega arith,
    (
      omega arith,
      (
        omega arith,
        (
          omega arith,
          (
            omega arith,
            (
              omega arith,
              (
                omega arith,
                (
                  omega arith,
                  (
                    omega arith,
                    (
                      omega arith,
                      (omega arith, (omega arith, (omega arith, (omega arith, (omega arith, tt))))),
                    ),
                  ),
                ),
              ),
            ),
          ),
        ),
      ),
    ),
  ),
)

-- "127.0.0.1/16" holds 127.0.9.200, and "127.0.0.1/24" does not.
contains-run :
    (contains (network_at 16 local_host) neighbour ≡ true)
    × (contains (network_at 24 local_host) neighbour ≡ false)
unfolding contains
contains-run = (refl, refl)

network-parsed :
    parse_network
      (0x31 ∷ 0x32 ∷ 0x37 ∷ 0x2E ∷ 0x30 ∷ 0x2E ∷ 0x30 ∷ 0x2E ∷ 0x31 ∷ 0x2F ∷ 0x31 ∷ 0x36 ∷ [])
    ≡ some (network_at 16 local_host)
unfolding parse_network
network-parsed = refl

endpoint-run : parse_endpoint link_text 443 ≡ value (record { address = link; port = 443 })
unfolding parse_endpoint
endpoint-run = refl

endpoint-printed :
    endpoint_text (record { address = link; port = 443 })
    ≡ 0x5B ∷ link_text ++ 0x5D ∷ 0x3A ∷ 0x34 ∷ 0x34 ∷ 0x33 ∷ []
unfolding endpoint_text
endpoint-printed = refl

bytes-refused : from_bytes v4 (127 ∷ 0 ∷ 0 ∷ 1 ∷ []) 3 ≡ none
unfolding from_bytes
bytes-refused = refl

normalized-run :
    normalized (record {
      family = v6;
      bytes = replicate 10 0 ++ 255 ∷ 255 ∷ 127 ∷ 0 ∷ 0 ∷ 1 ∷ [];
      scope = 0;
    })
    ≡ local_host
unfolding normalized
normalized-run = refl

-- 127.0.0.1/16
contains_iff_example : (contains (network_at 16 local_host) neighbour ≡ true) ↔ (
    (is_valid_address local_host ≡ true)
    × (same_family neighbour.family local_host.family ≡ true)
    × SamePrefix 16 (bytes_of neighbour) (bytes_of local_host))
contains_iff_example = contains_iff 16 local_host neighbour refl local_host-bytes neighbour-bytes
