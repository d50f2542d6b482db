-- ===== src/Protocol/FrameCodec/RoundTrip.antt =====
-- Streams cut into chunks, and frames that are encoded, sent in any chunks and read back.
use mathlib.Core.List.{flatten, foldl-append}
use server_core.Base.{
  ℕ, ◌+◌, ◌^◌, ◌≤◌, ◌<◌, ◌≡◌, refl, sym, ap, subst, ◌∙◌, inl, inr, true, false, some, List, [], ◌∷◌,
  ◌++◌, arith, length, take, drop, drop-append_self, length-take, ◌⊎◌, subst₂, foldl, append_assoc,
  append-nil, All, if◌then◌else◌,
}
use server_core.Base.Store.{overwrite}
use server_core.Protocol.FrameCodec.{
  no_error, header_size, size_max, Reader, AppendResult, create, append, is_none, finish, header,
  encode_to, required_storage_size,
}
use server_core.Protocol.FrameCodec.Stream.{Parsed, parse, cut, incomplete, parse-incomplete}
use server_core.Protocol.FrameCodec.Length.{length-header}
use server_core.Protocol.FrameCodec.Chunks.{
  resume, wire, wires, parse-append, parse-wires, resume_stop, resume_on, Error-cases,
}
use server_core.Protocol.FrameCodec.Pump.{unread, IsReady, length-unread}
use server_core.Protocol.FrameCodec.Reading.{append-Appended}
use server_core.Protocol.FrameCodec.Loop.{Appended, Appended-left}
use server_core.Protocol.FrameCodec.Room.{rest-incomplete}

module _ {S : Type 0} (callback : S → List ℕ → S) where
  -- A connection that appends what arrives, chunk by chunk, until a call fails.
  pub receive : Reader → S → List (List ℕ) → Reader × S
  receive r context [] = (r, context)
  receive r context (chunk ∷ chunks) =
      let out = append (some callback) r context chunk in
      let rest = receive out.1 out.2 chunks in if is_none out.0.error then rest else (out.1, out.2)

  -- The frames of a parse, handed over, and its error in the reader.
  pub record Received (context : S) (p : Parsed) (out : Reader × S) : Type 0 where
    pub delivered : out.1 ≡ foldl callback context p.frames
    pub terminal : out.0.terminal_error ≡ p.error
    pub left : p.error ≡ no_error → unread out.0 ≡ p.rest

  receive-stop :
      (r : Reader) (context : S) (chunk : List ℕ) (chunks : List (List ℕ))
      → is_none (append (some callback) r context chunk).0.error ≡ false
      → receive r context (chunk ∷ chunks)
        ≡ ((append (some callback) r context chunk).1, (append (some callback) r context chunk).2)
  unfolding receive
  receive-stop r context chunk chunks e = rw e

  receive-on :
      (r : Reader) (context : S) (chunk : List ℕ) (chunks : List (List ℕ))
      → is_none (append (some callback) r context chunk).0.error ≡ true
      → receive r context (chunk ∷ chunks)
        ≡ receive
            (append (some callback) r context chunk).1
            (append (some callback) r context chunk).2
            chunks
  unfolding receive
  receive-on r context chunk chunks e = rw e

  -- What is received once a call has failed, and what is when it has not.
  Received-stop :
      (m : ℕ) (context : S) (p : Parsed) (more : List ℕ) (out : Reader × S)
      → is_none p.error ≡ false
      → out.1 ≡ foldl callback context p.frames
      → out.0.terminal_error ≡ p.error
      → Received context (resume m p more) out
  Received-stop m context p more out e d t =
      subst (λ q. Received context q out) (sym (resume_stop m p more e))
        (record {
          delivered = d;
          terminal = t;
          left = λ n. absurd (ground (arith, sym e ∙ ap is_none n));
        })

  Received-on :
      (m : ℕ) (context : S) (p : Parsed) (more : List ℕ) (out : Reader × S)
      → p.error ≡ no_error
      → Received (foldl callback context p.frames) (parse m (p.rest ++ more)) out
      → Received context (resume m p more) out
  Received-on m context p more out e h =
      subst (λ q. Received context q out) (sym (resume_on m p more e))
        (record {
          delivered =
              h.delivered
              ∙ sym (foldl-append callback context p.frames (parse m (p.rest ++ more)).frames);
          terminal = h.terminal;
          left = h.left;
        })

  -- The reader stands after all chunks where a parse of all their bytes would.
  pub receive-Received :
      (chunks : List (List ℕ)) (r : Reader) (context : S) (m : ℕ)
      → IsReady r
      → r.max_body_size ≡ m
      → r.terminal_error ≡ no_error
      → cut m (unread r) ≡ incomplete
      → Received context (parse m (unread r ++ flatten chunks)) (receive r context chunks)
  unfolding flatten
  receive-Received [] r context m v k e w =
      subst (λ p. Received context p (receive r context []))
        (sym (ap (parse m) (append-nil (unread r)) ∙ parse-incomplete m (unread r) w))
        (unfold receive in record { delivered = refl; terminal = e; left = λ n. refl })
  receive-Received (chunk ∷ chunks) r context m v k e w =
      let p : Parsed = parse m (unread r ++ chunk) in
      let out : AppendResult × Reader × S = append (some callback) r context chunk in
      let a : Appended callback r context chunk 0 p out =
        subst (λ n. Appended callback r context chunk 0 (parse n (unread r ++ chunk)) out) k
          (append-Appended callback r context chunk v e) in
      let split : parse m (unread r ++ (chunk ++ flatten chunks)) ≡ resume m p (flatten chunks) =
        ap (parse m) (sym (append_assoc (unread r) chunk (flatten chunks)))
        ∙ parse-append m (unread r ++ chunk) (flatten chunks) in
      subst (λ q. Received context q (receive r context (chunk ∷ chunks))) (sym split)
        (elim (Error-cases p.error) [
          | inl ok ↦
              let all : unread out.1 ≡ p.rest =
                Appended-left callback r context chunk 0 p out a ok in
              subst (Received context (resume m p (flatten chunks)))
                (sym (receive-on r context chunk chunks (ap is_none (a.error ∙ ok))))
                (Received-on m context p (flatten chunks) (receive out.1 out.2 chunks) ok (
                  subst₂
                    (λ d u. Received d (parse m (u ++ flatten chunks)) (receive out.1 out.2 chunks))
                    a.delivered all
                    (receive-Received chunks out.1 out.2 m a.ready (a.max_kept ∙ k)
                      (a.terminal ∙ ok)
                      (ap (cut m) all ∙ rest-incomplete m (unread r ++ chunk) ok))))
          | inr bad ↦
              subst (Received context (resume m p (flatten chunks)))
                (sym (receive-stop r context chunk chunks (ap is_none a.error ∙ bad)))
                (Received-stop m context p (flatten chunks) (out.1, out.2) bad a.delivered
                  a.terminal)
        ])

pub create-IsReady :
    (storage : List ℕ) (m : ℕ)
    → header_size + m ≤ length storage
    → m + header_size ≤ size_max
    → IsReady (create storage m)
      × ((create storage m).terminal_error ≡ no_error)
      × (unread (create storage m) ≡ [])
unfolding create required_storage_size
create-IsReady storage m h k = (
  record { ordered = omega arith; inside = omega arith; roomy = h; idle = refl },
  ground arith,
  refl,
)

finish_lem :
    (r : Reader) → IsReady r → r.terminal_error ≡ no_error → unread r ≡ [] → finish r ≡ no_error
unfolding finish
finish_lem r v e h =
    let same : r.start ≡ r.end = omega (arith, length-unread r v, ap length h, v.ordered) in
    ground (arith, same)

-- Frames with bodies of at most `m` bytes, sent one after another and received in any chunks by a
-- reader with room for one frame, are handed to the callback one by one, whole and in order, and no
-- error is left.
pub receive-wires :
    {S : Type 0} (callback : S → List ℕ → S) (storage : List ℕ) (m : ℕ) (context : S)
    (bodies chunks : List (List ℕ))
    → header_size + m ≤ length storage
    → m < 2 ^ 32
    → All (λ body. length body ≤ m) bodies
    → flatten chunks ≡ wires bodies
    → ((receive callback (create storage m) context chunks).1 ≡ foldl callback context bodies)
      × ((receive callback (create storage m) context chunks).0.terminal_error ≡ no_error)
      × (unread (receive callback (create storage m) context chunks).0 ≡ [])
receive-wires callback storage m context bodies chunks h k fits sent =
    let (v, e, none_left) = create-IsReady storage m h (omega arith) in
    let stream : parse m (unread (create storage m) ++ flatten chunks)
        ≡ record { frames = bodies; rest = []; error = no_error } =
      ap (λ u. parse m (u ++ flatten chunks)) none_left
      ∙ ap (parse m) sent
      ∙ parse-wires m k bodies fits in
    let got =
      receive-Received callback chunks (create storage m) context m v (unfold create in refl) e
        (ap (cut m) none_left ∙ (unfold cut in refl)) in
    (
      got.delivered ∙ ap (λ p. foldl callback context p.frames) stream,
      got.terminal ∙ ap (λ p. p.error) stream,
      got.left (ap (λ p. p.error) stream) ∙ ap (λ p. p.rest) stream,
    )

overwrite-overwrite :
    (dst front back : List ℕ)
    → length front + length back ≤ length dst
    → overwrite (overwrite dst (length front) back) 0 front
      ≡ front ++ (back ++ drop (length front + length back) dst)
unfolding overwrite
overwrite-overwrite dst front back h =
    ap
      (λ n.
        front
        ++ drop n (take (length front) dst ++ (back ++ drop (length front + length back) dst)))
      {y = length front} (omega arith)
    ∙ ap (λ t. front ++ t)
        (drop-append_self (length front) (take (length front) dst) _
          (omega (arith, length-take (length front) dst)))

-- A body that is small enough and has room is written behind its length, the rest of the output
-- stays, and all bytes of the frame are counted.
pub encode_to-wire :
    (body output : List ℕ) (m : ℕ)
    → length body ≤ m
    → length body < 2 ^ 32
    → header_size + length body ≤ length output
    → encode_to body output m ≡ (
      record {
        error = no_error;
        required = header_size + length body;
        written = header_size + length body;
      },
      wire body ++ drop (header_size + length body) output,
    )
unfolding encode_to
encode_to-wire body output m h k room =
    let whole =
      overwrite-overwrite output (header (length body)) body
        (omega (arith, length-header (length body))) in
    ground (
      arith,
      whole,
      length-header (length body),
      append_assoc (header (length body)) body (drop (header_size + length body) output),
    )

-- A call of the encoder that fails leaves the output as it was and counts no byte, and it fails
-- only for a body over the limit or an output without room.
pub encode_to_fails :
    (body output : List ℕ) (m : ℕ)
    → is_none (encode_to body output m).0.error ≡ false
    → ((encode_to body output m).1 ≡ output)
      × ((encode_to body output m).0.written ≡ 0)
      × ((m < length body)
          ⊎ (size_max < length body + header_size)
          ⊎ (length output < header_size + length body))
unfolding encode_to
encode_to_fails body output m h = ground arith
