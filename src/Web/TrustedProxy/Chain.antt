-- ===== src/Web/TrustedProxy/Chain.antt =====
-- The client of a request is reached from the peer through trusted nodes alone.
use server_core.Base.{
  ℕ, ◌+◌, ◌≡◌, ◌⊎◌, Bool, true, false, Option, none, some, List, [], ◌∷◌, ◌++◌, if◌then◌else◌,
  length, map,
}
use server_core.Core.Error.{ErrorCode, Result, value, failed}
use server_core.Core.Endpoint.{unspecified}
use server_core.Core.Endpoint.Printing.{IpEndpoint}
use server_core.Web.Forwarded.{Hop}
use server_core.Web.TrustedProxy.{
  is_forwarded, TrustedProxyOptions, ProxyPeer, node_of, trusted, refused_hop, nearest_first,
  direct,
}

-- Each hop is reported by a trusted node, the first one by `from`, and names the next node.
abbrev pub TrustedPath :
    TrustedProxyOptions → IpEndpoint → List (Hop × IpEndpoint) → IpEndpoint → Type 0
TrustedPath o from [] last = last ≡ from
TrustedPath o from ((hop, node) ∷ path) last =
    (trusted o from.address ≡ true)
    × (node_of (is_forwarded o.mode) hop.node ≡ value (some node))
    × TrustedPath o node path last

-- What lies behind the last accepted node: nothing, a hop that an untrusted node reports, or an unknown
-- node.
abbrev pub Stops : TrustedProxyOptions → IpEndpoint → List Hop → Type 0
Stops o last [] = Unit
Stops o last (hop ∷ rest) =
    (trusted o last.address ≡ false) ⊎ (node_of (is_forwarded o.mode) hop.node ≡ value none)

abbrev pub hop_part : Hop × IpEndpoint → Hop
hop_part (hop, node) = hop

-- The text of the last hop of the path, if it is accepted, and `text` if there is no hop.
abbrev pub last_text : Bool → (Hop → List ℕ) → List (Hop × IpEndpoint) → List ℕ → List ℕ
last_text accepts part [] text = text
last_text accepts part ((hop, node) ∷ path) text =
    last_text accepts part path (if accepts then part hop else [])

-- `p` is the state of the walk in front of the hops, `q` what it gives.
pub record IsWalk (o : TrustedProxyOptions) (hops : List Hop) (p q : ProxyPeer) : Type 0 where
  pub path : List (Hop × IpEndpoint)
  pub rest : List Hop
  pub hops_split : hops ≡ map hop_part path ++ rest
  pub trusted_path : TrustedPath o p.client path q.client
  pub stops : Stops o q.client rest
  pub counted : q.accepted_hops ≡ p.accepted_hops + length path
  pub peer_kept : q.transport_peer ≡ p.transport_peer
  pub proto_last : q.proto ≡ last_text o.accept_proto (λ hop. hop.proto) path p.proto
  pub host_last : q.host ≡ last_text o.accept_host (λ hop. hop.host) path p.host

-- A hop whose node is no address, or whose texts are accepted and are none.
abbrev pub IsBad : TrustedProxyOptions → Hop → Result (Option IpEndpoint) → Type 0
IsBad o hop n =
    ((e : ErrorCode) × (n ≡ failed e))
    ⊎ ((node : IpEndpoint) × (n ≡ value (some node)) × (refused_hop o hop ≡ true))

-- Behind a path of accepted hops a trusted node reports a bad one.
pub record IsRefusal (o : TrustedProxyOptions) (hops : List Hop) (from : IpEndpoint) : Type 0 where
  pub path : List (Hop × IpEndpoint)
  pub last : IpEndpoint
  pub hop : Hop
  pub rest : List Hop
  pub hops_split : hops ≡ map hop_part path ++ hop ∷ rest
  pub trusted_path : TrustedPath o from path last
  pub trusted_last : trusted o last.address ≡ true
  pub bad : IsBad o hop (node_of (is_forwarded o.mode) hop.node)

-- What comes of a peer that is trusted, by what its headers list: an error of the headers, an error of a
-- hop that the walk takes, or the end of a walk from the nearest hop on.
abbrev Walked : TrustedProxyOptions → ProxyPeer → Result (List Hop) → Result ProxyPeer → Type 0
Walked o p hops out =
    ((e : ErrorCode) × (hops ≡ failed e) × (out ≡ failed e))
    ⊎ ((listed : List Hop) × (hops ≡ value listed)
        × (((out ≡ failed ErrorCode.invalid_format)
              × IsRefusal o (nearest_first listed []) p.client)
            ⊎ ((q : ProxyPeer) × (out ≡ value q) × IsWalk o (nearest_first listed []) p q)))

-- The three outcomes of `Resolve`.
abbrev pub Resolved :
    TrustedProxyOptions → IpEndpoint → Result (List Hop) → Result ProxyPeer → Type 0
Resolved o peer hops out =
    ((peer.address.family ≡ unspecified) × (out ≡ failed ErrorCode.invalid_argument))
    ⊎ ((trusted o peer.address ≡ false) × (out ≡ value (direct peer)))
    ⊎ ((trusted o peer.address ≡ true) × Walked o (direct peer) hops out)
