-- ===== src/Web/TrustedProxy.antt =====
-- src/Web/TrustedProxy.cpp. Text is its bytes. Memory is taken to be granted: where it is not, `Resolve`
-- reports PlatformError.
pub mod Chain
use server_core.Base.{
  ℕ, zero, suc, ◌+◌, ◌-◌, ◌*◌, ◌≡◌, Bool, true, false, not, ◌&&◌, ◌||◌, Option, none, some, List,
  [], ◌∷◌, ◌++◌, ltb, leb, ◌==◌, if◌then◌else◌, length, drop,
}
use server_core.Base.Text.{contains_byte, before, behind}
use server_core.Core.Error.{ErrorCode, Result, value, failed, ◌>>=◌}
use server_core.Core.Endpoint.{
  unspecified, v6, same_family, IpAddress, colon, is_empty, parse_address, normalized,
}
use server_core.Core.Endpoint.Printing.{IpEndpoint}
use server_core.Core.Network.{IpNetwork, contains}
use server_core.Web.RoutePattern.{same_bytes}
use server_core.Web.Cookies.{front_is}
use server_core.Web.Policy.{same_text, port_of, port_behind, authority}
use server_core.Web.Forwarded.{Hop, parse_forwarded, parse_list}

pub data ProxyHeaderMode : Type 0 where
  forwarded x_forwarded : ProxyHeaderMode

abbrev pub is_forwarded : ProxyHeaderMode → Bool
is_forwarded forwarded = true
is_forwarded x_forwarded = false

pub record TrustedProxyOptions : Type 0 where
  pub trusted_networks : List IpNetwork
  pub mode : ProxyHeaderMode
  pub max_hops : ℕ
  pub max_header_bytes : ℕ
  pub accept_proto : Bool
  pub accept_host : Bool
  pub normalize_mapped_ipv4 : Bool

pub record ProxyPeer : Type 0 where
  pub transport_peer : IpEndpoint
  pub client : IpEndpoint
  pub accepted_hops : ℕ
  pub proto : List ℕ
  pub host : List ℕ

unfoldable pub create_policy : TrustedProxyOptions → Result TrustedProxyOptions
create_policy o =
    if o.max_hops == 0
      || ltb 256 o.max_hops
      || o.max_header_bytes == 0
      || ltb (1024 * 1024) o.max_header_bytes
      || ltb 256 (length o.trusted_networks)
    then failed ErrorCode.invalid_argument
    else value o

-- `unknown`
abbrev unknown : List ℕ
unknown = 0x75 ∷ 0x6E ∷ 0x6B ∷ 0x6E ∷ 0x6F ∷ 0x77 ∷ 0x6E ∷ []

abbrev node_at : Bool → Bool → Option ℕ → Option IpAddress → Result (Option IpEndpoint)
node_at strict bracketed (some port) (some a) =
    if not (a.scope == 0) || (strict && same_family a.family v6 && not bracketed)
    then failed ErrorCode.invalid_format
    else value (some (record { address = a; port = port }))
node_at strict bracketed _ _ = failed ErrorCode.invalid_format

-- `Node`, with `strict` for the mode Forwarded.
unfoldable pub node_of : Bool → List ℕ → Result (Option IpEndpoint)
unfolding parse_address
node_of strict text =
    if is_empty text || same_text text unknown || front_is 0x5F text
    then value none
    else if front_is 0x5B text
    then if not (contains_byte 0x5D text)
      then failed ErrorCode.invalid_format
      else node_at strict true (port_behind (behind 0x5D text))
          (parse_address (drop 1 (before 0x5D text)))
    else if strict && contains_byte colon text
    then node_at strict false (port_of (behind colon text)) (parse_address (before colon text))
    else node_at strict false (some 0) (parse_address text)

abbrev any_contains : List IpNetwork → IpAddress → Bool
any_contains [] a = false
any_contains (n ∷ networks) a = contains n a || any_contains networks a

-- `TrustedProxyPolicy::Trusted`
unfoldable pub trusted : TrustedProxyOptions → IpAddress → Bool
unfolding contains normalized
trusted o a = any_contains o.trusted_networks (if o.normalize_mapped_ipv4 then normalized a else a)

-- The texts of the headers that the mode reads, and how much of the limit they take.
pub record HeaderTexts : Type 0 where
  pub forwarded_text : List ℕ
  pub for_text : List ℕ
  pub proto_text : List ℕ
  pub host_text : List ℕ
  pub bytes : ℕ

abbrev no_texts : HeaderTexts
no_texts = record { forwarded_text = []; for_text = []; proto_text = []; host_text = []; bytes = 0 }

pub data Destination : Type 0 where
  to_forwarded to_for to_proto to_host : Destination

abbrev forwarded_header : List ℕ
forwarded_header = 0x66 ∷ 0x6F ∷ 0x72 ∷ 0x77 ∷ 0x61 ∷ 0x72 ∷ 0x64 ∷ 0x65 ∷ 0x64 ∷ []

-- The name of a header that begins with "x-forwarded-".
abbrev x_header : List ℕ → List ℕ
x_header name = 0x78 ∷ 0x2D ∷ forwarded_header ++ 0x2D ∷ name

abbrev destination : TrustedProxyOptions → List ℕ → Option Destination
destination o name =
    if is_forwarded o.mode
    then if same_text name forwarded_header then some to_forwarded else none
    else if same_text name (x_header (0x66 ∷ 0x6F ∷ 0x72 ∷ []))
    then some to_for
    else if o.accept_proto && same_text name (x_header (0x70 ∷ 0x72 ∷ 0x6F ∷ 0x74 ∷ 0x6F ∷ []))
    then some to_proto
    else if o.accept_host && same_text name (x_header (0x68 ∷ 0x6F ∷ 0x73 ∷ 0x74 ∷ []))
    then some to_host
    else none

-- A comma between two values, none behind an empty text.
abbrev joined_value : List ℕ → List ℕ → List ℕ
joined_value [] text = text
joined_value (c ∷ front) text = (c ∷ front) ++ 0x2C ∷ text

abbrev append_value : Destination → List ℕ → HeaderTexts → HeaderTexts
append_value to_forwarded text t = record t { forwarded_text = joined_value t.forwarded_text text }
append_value to_for text t = record t { for_text = joined_value t.for_text text }
append_value to_proto text t = record t { proto_text = joined_value t.proto_text text }
append_value to_host text t = record t { host_text = joined_value t.host_text text }

abbrev pub put_value :
    TrustedProxyOptions → Option Destination → List ℕ → HeaderTexts → Result HeaderTexts
put_value o none text t = value t
put_value o (some d) text t =
    if leb (o.max_header_bytes - t.bytes) (length text)
    then failed ErrorCode.too_large
    else value (append_value d text (record t { bytes = t.bytes + (length text + 1) }))

-- The loop over the headers.
abbrev pub collect : TrustedProxyOptions → HeaderTexts → List (List ℕ × List ℕ) → Result HeaderTexts
collect o t [] = value t
collect o t ((name, text) ∷ headers) =
    put_value o (destination o name) text t >>= (λ more. collect o more headers)

-- Out of range is not reached.
abbrev text_at : List (List ℕ) → ℕ → List ℕ
text_at [] index = []
text_at (text ∷ texts) zero = text
text_at (text ∷ texts) (suc index) = text_at texts index

-- `aligned`
abbrev pub aligned : ℕ → List (List ℕ) → ℕ → List ℕ
aligned count texts index =
    if ltb (index + length texts) count then [] else text_at texts (index + length texts - count)

abbrev pub align_hops : ℕ → ℕ → List (List ℕ) → List (List ℕ) → List (List ℕ) → List Hop
align_hops count index [] protocols hosts = []
align_hops count index (node ∷ nodes) protocols hosts =
    record { node = node; proto = aligned count protocols index; host = aligned count hosts index }
    ∷ align_hops count (index + 1) nodes protocols hosts

abbrev pub x_forwarded_hops : ℕ → HeaderTexts → Result (List Hop)
x_forwarded_hops max t = parse_list t.for_text max >>= (λ nodes.
    parse_list t.proto_text max >>= (λ protocols.
      parse_list t.host_text max
      >>= (λ hosts. value (align_hops (length nodes) 0 nodes protocols hosts))))

-- The hops in the order of the headers.
unfoldable pub hops_of : TrustedProxyOptions → List (List ℕ × List ℕ) → Result (List Hop)
unfolding parse_forwarded parse_list
hops_of o headers = collect o no_texts headers >>= (λ t.
    if is_forwarded o.mode
    then parse_forwarded o.max_hops t.forwarded_text
    else x_forwarded_hops o.max_hops t)

abbrev valid_proto : List ℕ → Bool
valid_proto proto =
    is_empty proto
    || same_bytes proto (0x68 ∷ 0x74 ∷ 0x74 ∷ 0x70 ∷ [])
    || same_bytes proto (0x68 ∷ 0x74 ∷ 0x74 ∷ 0x70 ∷ 0x73 ∷ [])

abbrev pub accept_hop : TrustedProxyOptions → ProxyPeer → Hop → IpEndpoint → ProxyPeer
accept_hop o p hop node = record p {
  client = node;
  accepted_hops = p.accepted_hops + 1;
  proto = if o.accept_proto then hop.proto else [];
  host = if o.accept_host then hop.host else [];
}

unfoldable pub refused_hop : TrustedProxyOptions → Hop → Bool
unfolding authority
refused_hop o hop =
    (o.accept_proto && not (valid_proto hop.proto))
    || (o.accept_host && not (is_empty hop.host) && not (authority hop.host))

-- A hop that a trusted client reports; `none` stops the walk.
abbrev pub take_hop :
    TrustedProxyOptions → ProxyPeer → Hop → Result (Option IpEndpoint) → Result (Option ProxyPeer)
take_hop o p hop (failed e) = failed ErrorCode.invalid_format
take_hop o p hop (value none) = value none
take_hop o p hop (value (some node)) =
    if refused_hop o hop
    then failed ErrorCode.invalid_format
    else value (some (accept_hop o p hop node))

abbrev pub go_on :
    (ProxyPeer → Result ProxyPeer) → ProxyPeer → Result (Option ProxyPeer) → Result ProxyPeer
go_on next p (failed e) = failed e
go_on next p (value none) = value p
go_on next p (value (some q)) = next q

-- The loop from the nearest hop on.
unfoldable pub walk : TrustedProxyOptions → List Hop → ProxyPeer → Result ProxyPeer
unfolding trusted node_of refused_hop
walk o [] p = value p
walk o (hop ∷ hops) p =
    if not (trusted o p.client.address)
    then value p
    else go_on (λ q. walk o hops q) p (take_hop o p hop (node_of (is_forwarded o.mode) hop.node))

abbrev pub nearest_first : List Hop → List Hop → List Hop
nearest_first [] seen = seen
nearest_first (hop ∷ hops) seen = nearest_first hops (hop ∷ seen)

abbrev pub direct : IpEndpoint → ProxyPeer
direct peer = record {
  transport_peer = peer;
  client = peer;
  accepted_hops = 0;
  proto = [];
  host = [];
}

-- `TrustedProxyPolicy::Resolve`
unfoldable pub resolve :
    TrustedProxyOptions → IpEndpoint → List (List ℕ × List ℕ) → Result ProxyPeer
unfolding hops_of walk
resolve o peer headers =
    if same_family peer.address.family unspecified
    then failed ErrorCode.invalid_argument
    else if not (trusted o peer.address)
    then value (direct peer)
    else hops_of o headers >>= (λ hops. walk o (nearest_first hops []) (direct peer))
