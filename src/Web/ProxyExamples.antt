-- ===== src/Web/ProxyExamples.antt =====
-- Trusted proxies at concrete inputs.
use server_core.Base.{ℕ, ◌≡◌, ◌≢◌, refl, true, false, some, List, [], ◌∷◌, replicate}
use server_core.Core.Error.{ErrorCode, value, failed}
use server_core.Core.Endpoint.{v4, IpAddress}
use server_core.Core.Endpoint.Printing.{IpEndpoint}
use server_core.Core.Network.{network_at}
use server_core.Web.Policy.{authority}
use server_core.Web.Forwarded.{parse_forwarded}
use server_core.Web.Forwarded.Fuel.{parse_forwarded-ends}
use server_core.Web.TrustedProxy.{
  x_forwarded, TrustedProxyOptions, ProxyPeer, create_policy, node_of, direct, resolve,
}

abbrev address : ℕ → ℕ → ℕ → ℕ → IpAddress
address a b c d = record { family = v4; bytes = a ∷ b ∷ c ∷ d ∷ replicate 12 0; scope = 0 }

abbrev endpoint : ℕ → ℕ → ℕ → ℕ → ℕ → IpEndpoint
endpoint a b c d port = record { address = address a b c d; port = port }

-- Trusts 10.0.0.0/8.
abbrev options : TrustedProxyOptions
options = record {
  trusted_networks = network_at 8 (address 10 0 0 0) ∷ [];
  mode = x_forwarded;
  max_hops = 4;
  max_header_bytes = 100;
  accept_proto = true;
  accept_host = false;
  normalize_mapped_ipv4 = true;
}

-- "X-Forwarded-For: 6.6.6.6, 1.2.3.4, 10.0.0.2" and "X-Forwarded-Proto: https"
abbrev headers : List (List ℕ × List ℕ)
headers =
    (
      0x58 ∷ 0x2D ∷ 0x46 ∷ 0x6F ∷ 0x72 ∷ 0x77 ∷ 0x61 ∷ 0x72 ∷ 0x64 ∷ 0x65 ∷ 0x64 ∷ 0x2D ∷ 0x46
          ∷ 0x6F ∷ 0x72 ∷ [],
      0x36 ∷ 0x2E ∷ 0x36 ∷ 0x2E ∷ 0x36 ∷ 0x2E ∷ 0x36 ∷ 0x2C ∷ 0x20 ∷ 0x31 ∷ 0x2E ∷ 0x32 ∷ 0x2E
          ∷ 0x33 ∷ 0x2E ∷ 0x34 ∷ 0x2C ∷ 0x20 ∷ 0x31 ∷ 0x30 ∷ 0x2E ∷ 0x30 ∷ 0x2E ∷ 0x30 ∷ 0x2E ∷ 0x32
          ∷ [],
    )
    ∷ (
      0x58 ∷ 0x2D ∷ 0x46 ∷ 0x6F ∷ 0x72 ∷ 0x77 ∷ 0x61 ∷ 0x72 ∷ 0x64 ∷ 0x65 ∷ 0x64 ∷ 0x2D ∷ 0x50
          ∷ 0x72 ∷ 0x6F ∷ 0x74 ∷ 0x6F ∷ [],
      0x68 ∷ 0x74 ∷ 0x74 ∷ 0x70 ∷ 0x73 ∷ [],
    )
    ∷ []

-- The text of the nearest hop is not that of the client, which has none.
abbrev resolved : ProxyPeer
resolved = record {
  transport_peer = endpoint 10 0 0 1 500;
  client = endpoint 1 2 3 4 0;
  accepted_hops = 2;
  proto = [];
  host = [];
}

options-accepted : create_policy options ≡ value options
unfolding create_policy
options-accepted = refl

resolve-run : resolve options (endpoint 10 0 0 1 500) headers ≡ value resolved
unfolding resolve
resolve-run = refl

untrusted-run :
    resolve options (endpoint 11 0 0 1 500) headers ≡ value (direct (endpoint 11 0 0 1 500))
unfolding resolve
untrusted-run = refl

-- for="10.0.0.9:80";PROTO=https, for=unknown
abbrev forwarded_value : List ℕ
forwarded_value =
    0x66 ∷ 0x6F ∷ 0x72 ∷ 0x3D ∷ 0x22 ∷ 0x31 ∷ 0x30 ∷ 0x2E ∷ 0x30 ∷ 0x2E ∷ 0x30 ∷ 0x2E ∷ 0x39 ∷ 0x3A
    ∷ 0x38 ∷ 0x30 ∷ 0x22 ∷ 0x3B ∷ 0x50 ∷ 0x52 ∷ 0x4F ∷ 0x54 ∷ 0x4F ∷ 0x3D ∷ 0x68 ∷ 0x74 ∷ 0x74
    ∷ 0x70 ∷ 0x73 ∷ 0x2C ∷ 0x20 ∷ 0x66 ∷ 0x6F ∷ 0x72 ∷ 0x3D ∷ 0x75 ∷ 0x6E ∷ 0x6B ∷ 0x6E ∷ 0x6F
    ∷ 0x77 ∷ 0x6E ∷ []

parse_forwarded-run :
    parse_forwarded 2 forwarded_value
    ≡ value (
        record {
          node = 0x31 ∷ 0x30 ∷ 0x2E ∷ 0x30 ∷ 0x2E ∷ 0x30 ∷ 0x2E ∷ 0x39 ∷ 0x3A ∷ 0x38 ∷ 0x30 ∷ [];
          proto = 0x68 ∷ 0x74 ∷ 0x74 ∷ 0x70 ∷ 0x73 ∷ [];
          host = [];
        }
        ∷ record {
          node = 0x75 ∷ 0x6E ∷ 0x6B ∷ 0x6E ∷ 0x6F ∷ 0x77 ∷ 0x6E ∷ [];
          proto = [];
          host = [];
        }
        ∷ [])
unfolding parse_forwarded
parse_forwarded-run = refl

too_many_hops : parse_forwarded 1 forwarded_value ≡ failed ErrorCode.too_large
unfolding parse_forwarded
too_many_hops = refl

twice_named :
    parse_forwarded 2
      (0x66 ∷ 0x6F ∷ 0x72 ∷ 0x3D ∷ 0x61 ∷ 0x3B ∷ 0x46 ∷ 0x6F ∷ 0x72 ∷ 0x3D ∷ 0x62 ∷ [])
    ≡ failed ErrorCode.invalid_format
unfolding parse_forwarded
twice_named = refl

node-run :
    node_of true (0x31 ∷ 0x30 ∷ 0x2E ∷ 0x30 ∷ 0x2E ∷ 0x30 ∷ 0x2E ∷ 0x39 ∷ 0x3A ∷ 0x38 ∷ 0x30 ∷ [])
    ≡ value (some (endpoint 10 0 0 9 80))
unfolding node_of
node-run = refl

authority-run :
    authority (0x5B ∷ 0x3A ∷ 0x3A ∷ 0x31 ∷ 0x5D ∷ 0x3A ∷ 0x38 ∷ 0x30 ∷ 0x38 ∷ 0x30 ∷ []) ≡ true
unfolding authority
authority-run = refl

parse_forwarded-ends_example : parse_forwarded 2 forwarded_value ≢ failed ErrorCode.timeout
parse_forwarded-ends_example = parse_forwarded-ends 2 forwarded_value
