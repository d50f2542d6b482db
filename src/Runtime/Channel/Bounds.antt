-- ===== src/Runtime/Channel/Bounds.antt =====
-- The limits of a channel, and its byte counter, which never wraps around.
use server_core.Base.{
  ℕ, ◌+◌, ◌^◌, ◌≤◌, ◌<◌, ◌≡◌, ◌↔◌, ◌∙◌, ap, inl, inr, Bool, true, List, [], ◌∷◌, ◌++◌, arith,
  length, length-append,
}
use server_core.Base.Words.{size_add-exact, size_sub-exact}
use server_core.Runtime.Channel.Steps.{
  send_locked-cases, popped, free_room-cases, receive_locked-cases,
}
use server_core.Runtime.Channel.{push, Channel, can_send, send_locked, free_room, receive_locked}

module _ {V : Type 0} where
  abbrev pub weight : List (V × ℕ) → ℕ
  weight [] = 0
  weight ((v, n) ∷ queue) = n + weight queue

  weight-append : (xs ys : List (V × ℕ)) → weight (xs ++ ys) ≡ weight xs + weight ys
  weight-append [] ys = omega arith
  weight-append ((v, n) ∷ xs) ys = omega (arith, weight-append xs ys)

  pub record IsBounded (c : Channel V) : Type 0 where
    pub counted : c.bytes ≡ weight c.queue
    pub within : c.bytes ≤ c.options.max_retained_bytes
    pub few : length c.queue ≤ c.options.max_messages
    pub fits : c.options.max_retained_bytes < 2 ^ 64

  -- What the test on the room means while the counter is right.
  pub can_send_iff :
      (n : ℕ) (c : Channel V)
      → IsBounded c
      → (can_send n c ≡ true)
        ↔ ((length c.queue < c.options.max_messages) × (c.bytes + n ≤ c.options.max_retained_bytes))
  unfolding can_send
  can_send_iff n c b =
      ground (arith, size_sub-exact c.options.max_retained_bytes c.bytes b.within b.fits)

  pub push-IsBounded :
      (v : V) (n : ℕ) (c : Channel V) → can_send n c ≡ true → IsBounded c → IsBounded (push v n c)
  push-IsBounded v n c h b =
      let (short, light) = (can_send_iff n c b).0 h in
      record {
        counted =
            size_add-exact c.bytes n (omega (arith, b.fits, light))
            ∙ omega (arith, b.counted, weight-append c.queue ((v, n) ∷ []));
        within = omega (arith, size_add-exact c.bytes n (omega (arith, b.fits, light)), light);
        few = omega (arith, short, length-append c.queue ((v, n) ∷ []));
        fits = b.fits;
      }

  pub send_locked-IsBounded :
      (v : V) (n : ℕ) (c : Channel V) → IsBounded c → IsBounded (send_locked v n c).2
  send_locked-IsBounded v n c b = elim (send_locked-cases v n c) [
    | inl (e, _) ↦ rw e b
    | inr (inl (e, _)) ↦ rw e b
    | inr (inr (e, h, _)) ↦ rw e (push-IsBounded v n c h b)
  ]

  pub popped-IsBounded :
      (v : V) (n : ℕ) (rest : List (V × ℕ)) (c : Channel V)
      → c.queue ≡ (v, n) ∷ rest
      → IsBounded c
      → IsBounded (popped n rest c)
  popped-IsBounded v n rest c q b =
      let counted = b.counted ∙ ap weight q in
      let exact =
        size_sub-exact c.bytes n (omega (arith, counted)) (omega (arith, b.within, b.fits)) in
      record {
        counted = omega (arith, exact, counted);
        within = omega (arith, exact, b.within);
        few = omega (arith, ap length q, b.few);
        fits = b.fits;
      }

  pub free_room-IsBounded : (v : V) (c : Channel V) → IsBounded c → IsBounded (free_room v c).2
  free_room-IsBounded v c b = elim (free_room-cases v c) [
    | inl (e, _) ↦
        rw e (record { counted = b.counted; within = b.within; few = b.few; fits = b.fits })
    | inr (e, _) ↦ rw e b
  ]

  pub receive_locked-IsBounded :
      (waits stopped : Bool) (c : Channel V)
      → IsBounded c
      → IsBounded (receive_locked waits stopped c).2
  receive_locked-IsBounded waits stopped c b = elim (receive_locked-cases waits stopped c) [
    | inl (_, e) ↦ rw e b
    | inr (v, n, rest, q, e) ↦ rw e (free_room-IsBounded v _ (popped-IsBounded v n rest c q b))
  ]
