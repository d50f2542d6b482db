-- ===== src/Protocol/FrameCodec/Room.antt =====
-- The store of a reader: room for new bytes after a compaction, and copies into it.
use server_core.Base.{
  ℕ, zero, suc, ◌+◌, ◌-◌, ◌≤◌, ◌<◌, ◌≡◌, sym, ap, ◌∙◌, inl, inr, List, ◌++◌, arith, length,
}
use server_core.Base.Store.{
  range, range_empty, length-overwrite, range-overwrite, range-overwrite_front,
}
use server_core.Protocol.FrameCodec.{no_error, header_size, Reader, compact_unread_bytes, copy_in}
use server_core.Protocol.FrameCodec.Stream.{
  incomplete, cut, parse, Cut-cases, cut-shorter, parse-incomplete, parse-oversized, parse-frame,
}
use server_core.Protocol.FrameCodec.Pump.{unread, IsReady, length-unread}

incomplete_bounded : (m : ℕ) (u : List ℕ) → cut m u ≡ incomplete → length u < header_size + m
unfolding cut
incomplete_bounded m u h = ground arith

-- What is left of a parse without error begins with an incomplete frame.
rest-incomplete_fuel :
    (m fuel : ℕ) (u : List ℕ)
    → length u ≤ fuel
    → (parse m u).error ≡ no_error
    → cut m (parse m u).rest ≡ incomplete
rest-incomplete_fuel m zero u h e = elim (Cut-cases m u) [
  | inl c ↦ rw (parse-incomplete m u c) c
  | inr (inl c) ↦ absurd (cc (parse-oversized m u c, e))
  | inr (inr (body, rest, c)) ↦ absurd (omega (arith, cut-shorter m u body rest c))
]
rest-incomplete_fuel m (suc fuel) u h e = elim (Cut-cases m u) [
  | inl c ↦ rw (parse-incomplete m u c) c
  | inr (inl c) ↦ absurd (cc (parse-oversized m u c, e))
  | inr (inr (body, rest, c)) ↦
      let shorter = cut-shorter m u body rest c in
      let p = parse-frame m u body rest c in
      rw p (rest-incomplete_fuel m fuel rest (omega arith) (sym (ap (λ q. q.error) p) ∙ e))
]

pub rest-incomplete :
    (m : ℕ) (u : List ℕ) → (parse m u).error ≡ no_error → cut m (parse m u).rest ≡ incomplete
rest-incomplete m u e = rest-incomplete_fuel m (length u) u (omega arith) e

pub rest_bounded :
    (m : ℕ) (u : List ℕ) → (parse m u).error ≡ no_error → length (parse m u).rest < header_size + m
rest_bounded m u e = incomplete_bounded m (parse m u).rest (rest-incomplete m u e)

module _ (r : Reader) (v : IsReady r) where
  pub compact-IsReady : IsReady (compact_unread_bytes r)
  unfolding compact_unread_bytes
  compact-IsReady =
      ground
        (arith, length-overwrite r.storage 0 (range r.start r.end r.storage), length-unread r v)

  pub length-compact : length (compact_unread_bytes r).storage ≡ length r.storage
  unfolding compact_unread_bytes
  length-compact =
      ground
        (arith, length-overwrite r.storage 0 (range r.start r.end r.storage), length-unread r v)

  pub unread-compact : unread (compact_unread_bytes r) ≡ unread r
  unfolding compact_unread_bytes
  unread-compact = ground (
    arith,
    range-overwrite_front r.storage (range r.start r.end r.storage) (r.end - r.start),
    length-unread r v,
    range_empty r.start r.end r.storage,
    range_empty 0 (r.end - r.start) r.storage,
  )

  pub kept-compact :
      ((compact_unread_bytes r).max_body_size ≡ r.max_body_size)
      × ((compact_unread_bytes r).terminal_error ≡ r.terminal_error)
      × ((compact_unread_bytes r).end ≡ r.end - r.start)
  unfolding compact_unread_bytes
  kept-compact = ground arith

  pub copy-IsReady :
      (bytes : List ℕ) → r.end + length bytes ≤ length r.storage → IsReady (copy_in r bytes)
  unfolding copy_in
  copy-IsReady bytes h = ground (arith, length-overwrite r.storage r.end bytes)

  pub unread-copy :
      (bytes : List ℕ)
      → r.end + length bytes ≤ length r.storage
      → unread (copy_in r bytes) ≡ unread r ++ bytes
  unfolding copy_in
  unread-copy bytes h = range-overwrite r.storage r.start r.end bytes v.ordered h
