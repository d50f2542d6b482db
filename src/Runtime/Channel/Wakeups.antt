-- ===== src/Runtime/Channel/Wakeups.antt =====
-- While the source of a side is pending, there is nothing for that side to do: at any point between two
-- critical sections, in any interleaving of the threads that use a channel.
use server_core.Base.{
  ℕ, ◌^◌, ◌<◌, ◌≡◌, refl, sym, subst, ◌∙◌, inl, inr, Bool, true, false, Option, some, List, [], ◌∷◌,
  arith, length-append, Bool-cases,
}
use server_core.Base.Words.{size_add-exact}
use server_core.Core.Error.{value}
use server_core.Core.Completion.{Outcome, Subscriptions, settle, source_is_pending}
use server_core.Core.Completion.Settling.{source-settle, source-issue}
use server_core.Runtime.Channel.Steps.{
  send_locked-cases, popped, free_room-cases, receive_locked-cases, subscribe_read-cases,
  subscribe_write-cases,
}
use server_core.Runtime.Channel.Bounds.{IsBounded, can_send_iff, push-IsBounded, popped-IsBounded}
use server_core.Runtime.Channel.{
  Options, Channel, World, create_channel, fresh, can_send, push, send_locked, free_room,
  receive_locked, close_locked, subscribe_read, subscribe_write,
}

module _ {V : Type 0} where
  -- What one thread does at once: a critical section, or the end of a subscription.
  pub data Step (w : World V) : World V → Type 0 where
    lock_send : (v : V) (n : ℕ) → Step w (record w { channel = (send_locked v n w.channel).2 })
    lock_receive :
        (waits stopped : Bool)
        → Step w (record w { channel = (receive_locked waits stopped w.channel).2 })
    lock_close : Step w (record w { channel = close_locked w.channel })
    lock_read :
        (id : ℕ)
        → Step w (record w {
          channel =
              (subscribe_read id (source_is_pending w.channel.read w.subscriptions) w.channel).1;
        })
    lock_write :
        (amount id : ℕ)
        → Step w (record w {
          channel =
              (subscribe_write amount id
                (source_is_pending w.channel.write w.subscriptions)
                w.channel).1;
        })
    end_subscription :
        (id : ℕ) (outcome : Outcome)
        → Step w (record w { subscriptions = (settle id outcome w.subscriptions).1 })
    new_subscription :
        (n : ℕ) → Step w (record w { subscriptions = record w.subscriptions { next = n } })

  pub data Run (w : World V) : World V → Type 0 where
    here : Run w w
    after : {u v : World V} → Run w u → Step u v → Run w v

  pub record IsSettled (w : World V) : Type 0 where
    pub bounded : IsBounded w.channel
    pub reader :
        source_is_pending w.channel.read w.subscriptions ≡ true
        → (w.channel.queue ≡ []) × (w.channel.closed ≡ false)
    pub writer :
        source_is_pending w.channel.write w.subscriptions ≡ true
        → (can_send w.channel.write_bytes w.channel ≡ false) × (w.channel.closed ≡ false)

  push-full :
      (v : V) (n m : ℕ) (c : Channel V)
      → IsBounded c
      → can_send n c ≡ true
      → can_send m c ≡ false
      → can_send m (push v n c) ≡ false
  push-full v n m c b h k = elim (Bool-cases (can_send m (push v n c))) [
    | inl p ↦
        let (_, light) = (can_send_iff n c b).0 h in
        let (short, room) = (can_send_iff m (push v n c) (push-IsBounded v n c h b)).0 p in
        cc (
          (can_send_iff m c b).1 (
            omega (arith, short, length-append c.queue ((v, n) ∷ [])),
            omega (arith, room, size_add-exact c.bytes n (omega (arith, light, b.fits))),
          ),
          k,
        )
    | inr p ↦ p
  ]

  -- The room does not depend on the registrations.
  can_send-registered :
      (m a : ℕ) (x : Option ℕ) (c : Channel V)
      → can_send m (record c { write_bytes = a; write = x }) ≡ can_send m c
  unfolding can_send
  can_send-registered m a x c = refl

  free_room-IsSettled :
      (v : V) (c : Channel V) (s : Subscriptions)
      → IsBounded c
      → (source_is_pending c.read s ≡ false)
      → (source_is_pending c.write s ≡ true → c.closed ≡ false)
      → IsSettled (record { channel = (free_room v c).2; subscriptions = s })
  free_room-IsSettled v c s b quiet live = elim (free_room-cases v c) [
    | inl (e, _) ↦ rw e (record {
      bounded = record { counted = b.counted; within = b.within; few = b.few; fits = b.fits };
      reader = λ p. cc;
      writer = λ p. cc;
    })
    | inr (e, full) ↦ rw e (record { bounded = b; reader = λ p. cc; writer = λ p. (full, live p) })
  ]

  quiet-reader :
      (w : World V) (x : V × ℕ) (rest : List (V × ℕ))
      → IsSettled w
      → w.channel.queue ≡ x ∷ rest
      → source_is_pending w.channel.read w.subscriptions ≡ false
  quiet-reader w x rest t q = elim (Bool-cases (source_is_pending w.channel.read w.subscriptions)) [
    | inl p ↦ let (nothing, _) = t.reader p in cc (nothing, q)
    | inr p ↦ p
  ]

  registered-IsBounded :
      (a : ℕ) (x : Option ℕ) (c : Channel V)
      → IsBounded c
      → IsBounded (record c { write_bytes = a; write = x })
  registered-IsBounded a x c b = record {
    counted = b.counted;
    within = b.within;
    few = b.few;
    fits = b.fits;
  }

  lock_read-IsSettled :
      (id : ℕ) (w : World V)
      → IsSettled w
      → IsSettled (record w {
        channel =
            (subscribe_read id (source_is_pending w.channel.read w.subscriptions) w.channel).1;
      })
  unfolding can_send
  lock_read-IsSettled id w t =
      elim (subscribe_read-cases id (source_is_pending w.channel.read w.subscriptions) w.channel) [
        | inl (_, _, e) ↦ rw e t
        | inr (e, _, nothing, live) ↦ rw e (record {
          bounded = record {
            counted = t.bounded.counted;
            within = t.bounded.within;
            few = t.bounded.few;
            fits = t.bounded.fits;
          };
          reader = λ p. (nothing, live);
          writer = t.writer;
        })
      ]

  lock_write-IsSettled :
      (amount id : ℕ) (w : World V)
      → IsSettled w
      → IsSettled (record w {
        channel =
            (subscribe_write amount id
              (source_is_pending w.channel.write w.subscriptions)
              w.channel).1;
      })
  lock_write-IsSettled amount id w t =
      elim (subscribe_write-cases amount id (source_is_pending w.channel.write w.subscriptions)
        w.channel) [
          | inl (_, e) ↦ rw e t
          | inr (inl (idle, _, _, e)) ↦ rw e (record {
            bounded = registered-IsBounded amount w.channel.write w.channel t.bounded;
            reader = t.reader;
            writer = λ p. cc;
          })
          | inr (inr (_, e, full, live)) ↦ rw e (record {
            bounded = registered-IsBounded amount (some id) w.channel t.bounded;
            reader = t.reader;
            writer = λ p. (can_send-registered amount amount (some id) w.channel ∙ full, live);
          })
        ]

  lock_close-IsSettled :
      (w : World V) → IsSettled w → IsSettled (record w { channel = close_locked w.channel })
  unfolding close_locked
  lock_close-IsSettled w t = record {
    bounded = record {
      counted = t.bounded.counted;
      within = t.bounded.within;
      few = t.bounded.few;
      fits = t.bounded.fits;
    };
    reader = λ p. cc;
    writer = λ p. cc;
  }

  Step-IsSettled : {w u : World V} → Step w u → IsSettled w → IsSettled u
  Step-IsSettled {w} (lock_send v n) t = elim (send_locked-cases v n w.channel) [
    | inl (e, _) ↦ rw e t
    | inr (inl (e, _)) ↦ rw e t
    | inr (inr (e, h, _)) ↦ rw e (record {
      bounded = push-IsBounded v n w.channel h t.bounded;
      reader = λ p. cc;
      writer = λ p.
          let (full, still) = t.writer p in
          (push-full v n w.channel.write_bytes w.channel t.bounded h full, still);
    })
  ]
  Step-IsSettled {w} (lock_receive waits stopped) t =
      elim (receive_locked-cases waits stopped w.channel) [
        | inl (_, e) ↦ rw e t
        | inr (v, n, rest, q, e) ↦ rw e (
            free_room-IsSettled v (popped n rest w.channel) w.subscriptions
              (popped-IsBounded v n rest w.channel q t.bounded) (quiet-reader w (v, n) rest t q)
              (λ p. (t.writer p).1))
      ]
  Step-IsSettled {w} lock_close t = lock_close-IsSettled w t
  Step-IsSettled {w} (lock_read id) t = lock_read-IsSettled id w t
  Step-IsSettled {w} (lock_write amount id) t = lock_write-IsSettled amount id w t
  Step-IsSettled {w} (end_subscription id outcome) t = record {
    bounded = t.bounded;
    reader = λ p. t.reader (source-settle w.channel.read id outcome w.subscriptions p);
    writer = λ p. t.writer (source-settle w.channel.write id outcome w.subscriptions p);
  }
  Step-IsSettled {w} (new_subscription n) t = record {
    bounded = t.bounded;
    reader = λ p. t.reader (rw (← source-issue w.channel.read n w.subscriptions) p);
    writer = λ p. t.writer (rw (← source-issue w.channel.write n w.subscriptions) p);
  }

  pub Run-IsSettled : {w u : World V} → Run w u → IsSettled w → IsSettled u
  Run-IsSettled here t = t
  Run-IsSettled (after r st) t = Step-IsSettled st (Run-IsSettled r t)

  pub fresh-IsSettled :
      (o : Options) (s : Subscriptions)
      → o.max_retained_bytes < 2 ^ 64
      → IsSettled (record { channel = fresh o; subscriptions = s })
  fresh-IsSettled o s h = record {
    bounded = record { counted = refl; within = omega arith; few = omega arith; fits = h };
    reader = λ p. cc;
    writer = λ p. cc;
  }

  pub created-fresh :
      (granted : Bool) (o : Options) (c : Channel V)
      → create_channel granted o ≡ value c
      → c ≡ fresh o
  unfolding create_channel
  created-fresh granted o c e = ground (arith, e)

  -- However the threads interleave, from the creation of a channel on: its byte counter is what the
  -- waiting values weigh, both limits hold, a reader is pending only while the channel is open and
  -- empty, and a writer only while it is open and has no room for the bytes asked for.
  pub create_channel-IsSettled :
      (granted : Bool) (o : Options) (c : Channel V) (s : Subscriptions) (u : World V)
      → o.max_retained_bytes < 2 ^ 64
      → create_channel granted o ≡ value c
      → Run (record { channel = c; subscriptions = s }) u
      → IsSettled u
  create_channel-IsSettled granted o c s u h e r = Run-IsSettled r (
      subst (λ d. IsSettled (record { channel = d; subscriptions = s }))
        (sym (created-fresh granted o c e)) (fresh-IsSettled o s h))
