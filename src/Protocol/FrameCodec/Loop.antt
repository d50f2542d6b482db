-- ===== src/Protocol/FrameCodec/Loop.antt =====
-- The loop of `Append` against the parse of the unread bytes and the new ones.
use server_core.Base.{
  ℕ, zero, suc, ◌+◌, ◌-◌, ◌≤◌, ◌<◌, ◌≡◌, refl, sym, ap, ap₂, subst, subst₂, ◌∙◌, inl, inr, true,
  false, List, [], ◌∷◌, ◌++◌, arith, length, take, drop, drop_all, foldl, ◌==◌, Bool-cases,
  if◌then◌else◌, length-take, length-drop, take-append-drop, drop-drop, append_assoc, append-nil,
}
use mathlib.Core.List.{foldl-append}
use server_core.Protocol.FrameCodec.{
  Error, no_error, header_size, Reader, pump, compact_unread_bytes, AppendResult, copy_in,
  copy_count, is_full, append_loop, is_none,
}
use server_core.Protocol.FrameCodec.Stream.{Parsed, prepend, parse}
use server_core.Protocol.FrameCodec.Chunks.{parse-append, resume_stop, resume_on, Error-cases}
use server_core.Protocol.FrameCodec.Pump.{unread, IsReady, length-unread, Pumped, pump-Pumped}
use server_core.Protocol.FrameCodec.Room.{
  rest_bounded, compact-IsReady, length-compact, unread-compact, kept-compact, copy-IsReady,
  unread-copy,
}

-- What a call leaves, by the parse `p` of the unread bytes and the new ones: `taken` of the new
-- bytes are in the store or handed over, all of them if there was no error.
pub record Appended {S : Type 0} (callback : S → List ℕ → S) (r : Reader) (context : S)
    (bytes : List ℕ) (consumed : ℕ) (p : Parsed) (out : AppendResult × Reader × S) : Type 0 where
  pub taken : ℕ
  pub error : out.0.error ≡ p.error
  pub count : out.0.consumed ≡ consumed + taken
  pub within : taken ≤ length bytes
  pub all_taken : p.error ≡ no_error → taken ≡ length bytes
  pub delivered : out.2 ≡ foldl callback context p.frames
  pub left : unread out.1 ++ drop taken bytes ≡ p.rest
  pub terminal : out.1.terminal_error ≡ p.error
  pub ready : IsReady out.1
  pub max_kept : out.1.max_body_size ≡ r.max_body_size

-- Without an error the reader holds what the parse leaves.
pub Appended-left :
    {S : Type 0} (callback : S → List ℕ → S) (r : Reader) (context : S) (bytes : List ℕ)
    (consumed : ℕ) (p : Parsed) (out : AppendResult × Reader × S)
    → Appended callback r context bytes consumed p out
    → p.error ≡ no_error
    → unread out.1 ≡ p.rest
Appended-left callback r context bytes consumed p out a ok =
    sym (
      ap (λ d. unread out.1 ++ d) (drop_all a.taken bytes (omega (arith, a.all_taken ok)))
      ∙ append-nil (unread out.1))
    ∙ a.left

module _ {S : Type 0} (callback : S → List ℕ → S) where
  Pumped-IsReady :
      (r : Reader) (context : S) (p : Parsed) (out : Error × Reader × S)
      → IsReady r
      → Pumped callback r context p out
      → IsReady out.1
  Pumped-IsReady r context p out v h =
      ground
        (arith, v.ordered, v.inside, v.roomy, h.kept, h.end_kept, h.max_kept, h.ordered, h.idle)

  -- The first pump of a round, and the reader that the copy goes to.
  abbrev pumped : Reader → S → Error × Reader × S
  pumped r context = pump callback (suc (r.end - r.start)) r context

  abbrev with_room : Reader → Reader
  with_room r = if is_full r then compact_unread_bytes r else r

  module _ (fuel : ℕ) (r : Reader) (context : S) (bytes : List ℕ) (consumed : ℕ) where
    loop_error :
        is_none (pumped r context).0 ≡ false
        → append_loop callback (suc fuel) r context bytes consumed ≡ (
          record { error = (pumped r context).0; consumed = consumed },
          (pumped r context).1,
          (pumped r context).2,
        )
    unfolding append_loop
    loop_error e = rw e

    loop_done :
        is_none (pumped r context).0 ≡ true
        → (length bytes == 0) ≡ true
        → append_loop callback (suc fuel) r context bytes consumed ≡ (
          record { error = no_error; consumed = consumed },
          (pumped r context).1,
          (pumped r context).2,
        )
    unfolding append_loop
    loop_done e h = rw (e, h)

    loop_more :
        is_none (pumped r context).0 ≡ true
        → (length bytes == 0) ≡ false
        → is_full (with_room (pumped r context).1) ≡ false
        → let r2 = with_room (pumped r context).1 in
          let n = copy_count r2 bytes in
          append_loop callback (suc fuel) r context bytes consumed
          ≡ append_loop callback fuel
              (copy_in r2 (take n bytes))
              (pumped r context).2
              (drop n bytes)
              (consumed + n)
    unfolding append_loop
    loop_more e h k = rw (e, h, k)

  -- A reader that holds less than the largest frame has room once it is compacted.
  with_room_lem :
      (r : Reader)
      → IsReady r
      → length (unread r) < header_size + r.max_body_size
      → IsReady (with_room r)
        × (unread (with_room r) ≡ unread r)
        × ((with_room r).max_body_size ≡ r.max_body_size)
        × ((with_room r).terminal_error ≡ r.terminal_error)
        × ((with_room r).end < length (with_room r).storage)
  with_room_lem r v h = elim (Bool-cases (is_full r)) [
    | inl full ↦
        let (m, t, e) = kept-compact r v in
        rw full (
          compact-IsReady r v,
          unread-compact r v,
          m,
          t,
          omega (arith, length-compact r v, length-unread r v, v.roomy),
        )
    | inr free ↦ rw free (v, refl, refl, refl, ground (arith, v.inside))
  ]

  Appended-stop :
      (r : Reader) (context : S) (bytes : List ℕ) (consumed : ℕ) (p : Parsed)
      (out : Error × Reader × S)
      → IsReady r
      → is_none p.error ≡ false
      → Pumped callback r context p out
      → Appended callback r context bytes consumed
          (record p { rest = p.rest ++ bytes })
          (record { error = out.0; consumed = consumed }, out.1, out.2)
  Appended-stop r context bytes consumed p out v e h = record {
    taken = 0;
    error = h.error;
    count = omega arith;
    within = omega arith;
    all_taken = λ n. absurd (cc (e, ap is_none n));
    delivered = h.delivered;
    left = ap (λ t. t ++ bytes) h.left;
    terminal = h.terminal;
    ready = Pumped-IsReady r context p out v h;
    max_kept = h.max_kept;
  }

  Appended-done :
      (r : Reader) (context : S) (consumed : ℕ) (p : Parsed) (out : Error × Reader × S)
      → IsReady r
      → out.0 ≡ no_error
      → Pumped callback r context p out
      → Appended callback r context [] consumed p
          (record { error = no_error; consumed = consumed }, out.1, out.2)
  Appended-done r context consumed p out v e h = record {
    taken = 0;
    error = sym e ∙ h.error;
    count = omega arith;
    within = omega arith;
    all_taken = λ n. refl;
    delivered = h.delivered;
    left = append-nil _ ∙ h.left;
    terminal = h.terminal;
    ready = Pumped-IsReady r context p out v h;
    max_kept = h.max_kept;
  }

  -- The rest of the call, after `n` bytes were copied.
  Appended-more :
      (r r3 : Reader) (context context1 : S) (bytes : List ℕ) (consumed n : ℕ)
      (frames : List (List ℕ)) (q : Parsed) (out : AppendResult × Reader × S)
      → r3.max_body_size ≡ r.max_body_size
      → context1 ≡ foldl callback context frames
      → n ≤ length bytes
      → Appended callback r3 context1 (drop n bytes) (consumed + n) q out
      → Appended callback r context bytes consumed (prepend frames q) out
  Appended-more r r3 context context1 bytes consumed n frames q out m c le h = record {
    taken = n + h.taken;
    error = h.error;
    count = omega (arith, h.count);
    within = omega (arith, h.within, length-drop n bytes);
    all_taken = λ e. omega (arith, h.all_taken e, length-drop n bytes);
    delivered =
        h.delivered
        ∙ ap (λ t. foldl callback t q.frames) c
        ∙ sym (foldl-append callback context frames q.frames);
    left = ap (λ t. unread out.1 ++ t) (sym (drop-drop h.taken n bytes)) ∙ h.left;
    terminal = h.terminal;
    ready = h.ready;
    max_kept = h.max_kept ∙ m;
  }

  copy_count_bounds :
      (r : Reader) (b : ℕ) (bs : List ℕ)
      → r.end < length r.storage
      → (0 < copy_count r (b ∷ bs))
        × (copy_count r (b ∷ bs) ≤ suc (length bs))
        × (r.end + copy_count r (b ∷ bs) ≤ length r.storage)
  copy_count_bounds r b bs h = ground arith

  not_full : (r : Reader) → r.end < length r.storage → is_full r ≡ false
  not_full r h = ground arith

  -- A round that copies, with the rest of the call as `ih`.
  round-Appended :
      (fuel : ℕ) (r : Reader) (context : S) (b : ℕ) (bs : List ℕ) (consumed : ℕ)
      → IsReady r
      → r.terminal_error ≡ no_error
      → (pumped r context).0 ≡ no_error
      → ((r3 : Reader) (context1 : S) (n : ℕ)
          → IsReady r3
          → r3.terminal_error ≡ no_error
          → 0 < n
          → Appended callback r3 context1
              (drop n (b ∷ bs))
              (consumed + n)
              (parse r3.max_body_size (unread r3 ++ drop n (b ∷ bs)))
              (append_loop callback fuel r3 context1 (drop n (b ∷ bs)) (consumed + n)))
      → Appended callback r context
          (b ∷ bs)
          consumed
          (parse r.max_body_size (unread r ++ b ∷ bs))
          (append_loop callback (suc fuel) r context (b ∷ bs) consumed)
  round-Appended fuel r context b bs consumed v e go ih =
      let m : ℕ = r.max_body_size in
      let p : Parsed = parse m (unread r) in
      let P : Error × Reader × S = pumped r context in
      let h = pump-Pumped callback (suc (r.end - r.start)) r context v e (omega arith) in
      let ok : p.error ≡ no_error = sym h.error ∙ go in
      let v1 = Pumped-IsReady r context p P v h in
      let small = rest_bounded m (unread r) ok in
      let (v2, u2, m2, t2, room) =
        with_room_lem P.1 v1 (omega (arith, ap length h.left, h.max_kept)) in
      let r2 : Reader = with_room P.1 in
      let n : ℕ = copy_count r2 (b ∷ bs) in
      let (pos, le, fits) = copy_count_bounds r2 b bs room in
      let front : List ℕ = take n (b ∷ bs) in
      let front_fits : r2.end + length front ≤ length r2.storage =
        omega (arith, length-take n (b ∷ bs)) in
      let r3 : Reader = copy_in r2 front in
      let m3 : r3.max_body_size ≡ m = unfold copy_in in m2 ∙ h.max_kept in
      let t3 : r3.terminal_error ≡ no_error = unfold copy_in in t2 ∙ h.terminal ∙ ok in
      let stream : unread r3 ++ drop n (b ∷ bs) ≡ p.rest ++ b ∷ bs =
        ap (λ t. t ++ drop n (b ∷ bs))
          (unread-copy r2 v2 front front_fits ∙ ap (λ t. t ++ front) (u2 ∙ h.left))
        ∙ append_assoc p.rest front (drop n (b ∷ bs))
        ∙ ap (λ t. p.rest ++ t) (take-append-drop n (b ∷ bs)) in
      let rest = ih r3 P.2 n (copy-IsReady r2 v2 front front_fits) t3 pos in
      let rest' =
        subst
          (λ q.
            Appended callback r3 P.2 (drop n (b ∷ bs)) (consumed + n) q
              (append_loop callback fuel r3 P.2 (drop n (b ∷ bs)) (consumed + n)))
          (ap₂ (λ k t. parse k t) m3 stream) rest in
      subst₂ (Appended callback r context (b ∷ bs) consumed)
        (sym (parse-append m (unread r) (b ∷ bs) ∙ resume_on m p (b ∷ bs) ok))
        (sym (
          loop_more fuel r context (b ∷ bs) consumed (ap is_none go) (ground arith)
            (not_full r2 room)))
        (Appended-more r r3 context P.2 (b ∷ bs) consumed n p.frames _ _ m3 h.delivered le rest')

  -- A round whose pump fails ends the call.
  stop-Appended :
      (fuel : ℕ) (r : Reader) (context : S) (bytes : List ℕ) (consumed : ℕ)
      → IsReady r
      → r.terminal_error ≡ no_error
      → is_none (pumped r context).0 ≡ false
      → Appended callback r context bytes consumed
          (parse r.max_body_size (unread r ++ bytes))
          (append_loop callback (suc fuel) r context bytes consumed)
  stop-Appended fuel r context bytes consumed v e stop =
      let h = pump-Pumped callback (suc (r.end - r.start)) r context v e (omega arith) in
      let stop' : is_none (parse r.max_body_size (unread r)).error ≡ false =
        ap is_none (sym h.error) ∙ stop in
      subst₂ (Appended callback r context bytes consumed)
        (sym (
          parse-append r.max_body_size (unread r) bytes
          ∙ resume_stop r.max_body_size _ bytes stop'))
        (sym (loop_error fuel r context bytes consumed stop))
        (Appended-stop r context bytes consumed _ _ v stop' h)

  -- A round with nothing left to copy.
  done-Appended :
      (fuel : ℕ) (r : Reader) (context : S) (consumed : ℕ)
      → IsReady r
      → r.terminal_error ≡ no_error
      → (pumped r context).0 ≡ no_error
      → Appended callback r context [] consumed
          (parse r.max_body_size (unread r ++ []))
          (append_loop callback (suc fuel) r context [] consumed)
  done-Appended fuel r context consumed v e go =
      let h = pump-Pumped callback (suc (r.end - r.start)) r context v e (omega arith) in
      subst₂ (Appended callback r context [] consumed)
        (ap (parse r.max_body_size) (sym (append-nil (unread r))))
        (sym (loop_done fuel r context [] consumed (ap is_none go) refl))
        (Appended-done r context consumed _ _ v go h)

  pub append_loop-Appended :
      (fuel : ℕ) (r : Reader) (context : S) (bytes : List ℕ) (consumed : ℕ)
      → IsReady r
      → r.terminal_error ≡ no_error
      → length bytes < fuel
      → Appended callback r context bytes consumed
          (parse r.max_body_size (unread r ++ bytes))
          (append_loop callback fuel r context bytes consumed)
  append_loop-Appended zero r context bytes consumed v e l = absurd (omega arith)
  append_loop-Appended (suc fuel) r context [] consumed v e l =
      elim (Error-cases (pumped r context).0) [
        | inr stop ↦ stop-Appended fuel r context [] consumed v e stop
        | inl go ↦ done-Appended fuel r context consumed v e go
      ]
  append_loop-Appended (suc fuel) r context (b ∷ bs) consumed v e l =
      elim (Error-cases (pumped r context).0) [
        | inr stop ↦ stop-Appended fuel r context (b ∷ bs) consumed v e stop
        | inl go ↦ round-Appended fuel r context b bs consumed v e go λ r3 c3 n v3 e3 pos.
            append_loop-Appended fuel r3 c3 (drop n (b ∷ bs)) (consumed + n) v3 e3
              (omega (arith, length-drop n (b ∷ bs)))
      ]
