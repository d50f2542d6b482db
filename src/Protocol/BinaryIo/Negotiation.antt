-- ===== src/Protocol/BinaryIo/Negotiation.antt =====
-- `NegotiateProtocol` of src/Protocol/BinaryIO.cpp.
use server_core.Base.{
  ℕ, ◌≡◌, refl, ap, ◌∙◌, ◌⊎◌, inl, inr, Bool, true, false, not, ◌&&◌, ◌||◌, Option, none, some,
  List, [], ◌∷◌, ◌++◌, length, All, if◌then◌else◌, ltb, ◌==◌, bit_and, Bool-cases,
}
use server_core.Core.Error.{ErrorCode, Result, value, failed}

pub record ProtocolOffer : Type 0 where
  pub version : ℕ
  pub features : ℕ

abbrev pub has_version : ℕ → List ProtocolOffer → Bool
has_version version [] = false
has_version version (offer ∷ offers) = offer.version == version || has_version version offers

-- The loops of `valid`, past the offers `before`.
abbrev pub is_valid_from : List ProtocolOffer → List ProtocolOffer → Bool
is_valid_from before [] = true
is_valid_from before (offer ∷ offers) =
    not (offer.version == 0)
    && not (has_version offer.version before)
    && is_valid_from (before ++ offer ∷ []) offers

abbrev pub is_valid_offers : List ProtocolOffer → Bool
is_valid_offers offers =
    not (length offers == 0 || ltb 64 (length offers)) && is_valid_from [] offers

abbrev pub is_compatible : ℕ → ProtocolOffer → ProtocolOffer → Bool
is_compatible required local remote =
    local.version == remote.version
    && bit_and (bit_and local.features remote.features) required == required

abbrev pub common : ProtocolOffer → ProtocolOffer → ProtocolOffer
common local remote = record {
  version = local.version;
  features = bit_and local.features remote.features;
}

-- The inner and the outer loop.
unfoldable pub match_remote : ℕ → ProtocolOffer → List ProtocolOffer → Option ProtocolOffer
match_remote required local [] = none
match_remote required local (remote ∷ peer) =
    let rest = match_remote required local peer in
    if is_compatible required local remote then some (common local remote) else rest

abbrev pub or_else : {A : Type 0} → Option A → Option A → Option A
or_else (some a) other = some a
or_else none other = other

unfoldable pub match_local : ℕ → List ProtocolOffer → List ProtocolOffer → Option ProtocolOffer
match_local required [] peer = none
match_local required (local ∷ server) peer =
    or_else (match_remote required local peer) (match_local required server peer)

abbrev pub or_unimplemented : Option ProtocolOffer → Result ProtocolOffer
or_unimplemented (some offer) = value offer
or_unimplemented none = failed ErrorCode.unimplemented

unfoldable pub negotiate_protocol :
    List ProtocolOffer → List ProtocolOffer → ℕ → Result ProtocolOffer
negotiate_protocol server peer required =
    if not (is_valid_offers server) || not (is_valid_offers peer)
    then failed ErrorCode.invalid_argument
    else or_unimplemented (match_local required server peer)

module _ (required : ℕ) where
  -- No offer of `peer` suits `local`.
  abbrev pub Unsuited : List ProtocolOffer → ProtocolOffer → Type 0
  Unsuited peer local = All (λ remote. is_compatible required local remote ≡ false) peer

  -- `offer` is what the first server offer that suits a peer offer has in common with the first
  -- such peer offer.
  pub record IsFirst (server peer : List ProtocolOffer) (offer : ProtocolOffer) : Type 0 where
    pub locals : List ProtocolOffer
    pub local : ProtocolOffer
    pub later_locals : List ProtocolOffer
    pub remotes : List ProtocolOffer
    pub remote : ProtocolOffer
    pub later_remotes : List ProtocolOffer
    pub server_split : server ≡ locals ++ local ∷ later_locals
    pub peer_split : peer ≡ remotes ++ remote ∷ later_remotes
    pub earlier_locals : All (Unsuited peer) locals
    pub earlier_remotes : Unsuited remotes local
    pub suits : is_compatible required local remote ≡ true
    pub agreed : offer ≡ common local remote

  record IsFirstRemote (local : ProtocolOffer) (peer : List ProtocolOffer) (offer : ProtocolOffer)
      : Type 0 where
    remotes : List ProtocolOffer
    remote : ProtocolOffer
    later : List ProtocolOffer
    split : peer ≡ remotes ++ remote ∷ later
    earlier : Unsuited remotes local
    suits : is_compatible required local remote ≡ true
    agreed : offer ≡ common local remote

  match_remote-cases :
      (local : ProtocolOffer) (peer : List ProtocolOffer)
      → ((match_remote required local peer ≡ none) × Unsuited peer local)
        ⊎ ((offer : ProtocolOffer) × (match_remote required local peer ≡ some offer)
            × IsFirstRemote local peer offer)
  unfolding match_remote
  match_remote-cases local [] = inl (refl, tt)
  match_remote-cases local (remote ∷ peer) =
      elim (Bool-cases (is_compatible required local remote)) [
        | inl good ↦ inr (
          common local remote,
          rw good refl,
          record {
            remotes = [];
            remote = remote;
            later = peer;
            split = refl;
            earlier = tt;
            suits = good;
            agreed = refl;
          },
        )
        | inr bad ↦ elim (match_remote-cases local peer) [
          | inl (e, u) ↦ inl (rw bad e, (bad, u))
          | inr (offer, e, f) ↦ inr (
            offer,
            rw bad e,
            record {
              remotes = remote ∷ f.remotes;
              remote = f.remote;
              later = f.later;
              split = ap (λ t. remote ∷ t) f.split;
              earlier = (bad, f.earlier);
              suits = f.suits;
              agreed = f.agreed;
            },
          )
        ]
      ]

  match_local-cases :
      (server peer : List ProtocolOffer)
      → ((match_local required server peer ≡ none) × All (Unsuited peer) server)
        ⊎ ((offer : ProtocolOffer) × (match_local required server peer ≡ some offer)
            × IsFirst server peer offer)
  unfolding match_local
  match_local-cases [] peer = inl (refl, tt)
  match_local-cases (local ∷ server) peer = elim (match_remote-cases local peer) [
    | inr (offer, e, f) ↦ inr (
      offer,
      ap (λ o. or_else o (match_local required server peer)) e,
      record {
        locals = [];
        local = local;
        later_locals = server;
        remotes = f.remotes;
        remote = f.remote;
        later_remotes = f.later;
        server_split = refl;
        peer_split = f.split;
        earlier_locals = tt;
        earlier_remotes = f.earlier;
        suits = f.suits;
        agreed = f.agreed;
      },
    )
    | inl (e, u) ↦
        let skip : match_local required (local ∷ server) peer ≡ match_local required server peer =
          ap (λ o. or_else o (match_local required server peer)) e in
        elim (match_local-cases server peer) [
          | inl (n, us) ↦ inl (skip ∙ n, (u, us))
          | inr (offer, o, f) ↦ inr (
            offer,
            skip ∙ o,
            record {
              locals = local ∷ f.locals;
              local = f.local;
              later_locals = f.later_locals;
              remotes = f.remotes;
              remote = f.remote;
              later_remotes = f.later_remotes;
              server_split = ap (λ t. local ∷ t) f.server_split;
              peer_split = f.peer_split;
              earlier_locals = (u, f.earlier_locals);
              earlier_remotes = f.earlier_remotes;
              suits = f.suits;
              agreed = f.agreed;
            },
          )
        ]
  ]

  -- For two valid lists the server's order decides: the result is what the first server offer that
  -- suits some peer offer has in common with it, and `Unimplemented` if none suits any.
  pub negotiate_protocol-IsFirst :
      (server peer : List ProtocolOffer)
      → is_valid_offers server ≡ true
      → is_valid_offers peer ≡ true
      → ((negotiate_protocol server peer required ≡ failed ErrorCode.unimplemented)
          × All (Unsuited peer) server)
        ⊎ ((offer : ProtocolOffer) × (negotiate_protocol server peer required ≡ value offer)
            × IsFirst server peer offer)
  unfolding negotiate_protocol
  negotiate_protocol-IsFirst server peer h k = elim (match_local-cases server peer) [
    | inl (e, u) ↦ inl (rw (h, k) (ap or_unimplemented e), u)
    | inr (offer, e, f) ↦ inr (offer, rw (h, k) (ap or_unimplemented e), f)
  ]
