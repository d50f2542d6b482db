-- ===== src/Core/ByteBuffer/Contract.antt =====
-- The contract of the buffer, against which `Write`, `Consume` and `Peek` are refined.
use mathlib.Core.Option
use server_core.Base.{
  ℕ, ◌-◌, ◌≡◌, refl, ap, ap₂, ◌∙◌, ◌⊎◌, inl, inr, Option, none, some, List, [], ◌∷◌, ◌++◌, arith,
  length, take, drop, min, Option-cases, length-replicate, ltb, if◌then◌else◌,
}
use server_core.Core.ByteBuffer.{ByteBuffer, IsValid, create, size, capacity, peek, write, consume}
use server_core.Core.ByteBuffer.Fifo.{
  write-count, write-IsValid, capacity-write, peek-write_count, length-peek, consume-IsValid,
  peek-consume,
}

-- The contract of the buffer: a queue of bytes that holds `cap` of them at most.
pub data Call : Type 0 where
  writes : List ℕ → Call
  consumes : ℕ → Call

-- The count that the call returns and what `Peek` shows next; `none` is a failed assertion.
abbrev pub Reply : Type 0
Reply = Option (ℕ × List ℕ)

abbrev pub queue_call : ℕ → List ℕ → Call → Reply
queue_call cap q (writes bytes) =
    let n = min (length bytes) (cap - length q) in some (n, q ++ take n bytes)
queue_call cap q (consumes n) = if ltb (length q) n then none else some (n, drop n q)

-- A history of calls, which an assertion ends.
unfoldable pub queue_run : ℕ → List ℕ → List Call → List Reply
queue_run cap q [] = []
queue_run cap q (c ∷ cs) = elim (queue_call cap q c) [
  | none ↦ none ∷ []
  | some (n, q') ↦ some (n, q') ∷ queue_run cap q' cs
]

abbrev pub buffer_call : ByteBuffer → Call → Option (ℕ × ByteBuffer)
buffer_call b (writes bytes) = some (write bytes b)
buffer_call b (consumes n) = Option.map (λ c. (n, c)) (consume n b)

pub buffer_run : ByteBuffer → List Call → List Reply
buffer_run b [] = []
buffer_run b (c ∷ cs) = elim (buffer_call b c) [
  | none ↦ none ∷ []
  | some (n, b') ↦ some (n, peek b') ∷ buffer_run b' cs
]

-- One call of the buffer and of the queue that it stands for.
abbrev Agree : ByteBuffer → Option (ℕ × ByteBuffer) → Reply → Type 0
Agree b r s =
    ((r ≡ none) × (s ≡ none))
    ⊎ ((n : ℕ) × (b' : ByteBuffer) × (r ≡ some (n, b'))
        × (s ≡ some (n, peek b'))
        × IsValid b'
        × (capacity b' ≡ capacity b))

write-Agree :
    (b : ByteBuffer) (bytes : List ℕ)
    → IsValid b
    → Agree b (buffer_call b (writes bytes)) (queue_call (capacity b) (peek b) (writes bytes))
unfolding capacity size
write-Agree b bytes v = inr (
  (write bytes b).0,
  (write bytes b).1,
  refl,
  same,
  write-IsValid bytes b v,
  capacity-write bytes b v,
)
  where
    same :
        queue_call (capacity b) (peek b) (writes bytes)
        ≡ some ((write bytes b).0, peek (write bytes b).1)
    same = ground (arith, write-count bytes b v, peek-write_count bytes b v, length-peek b v)

consume-Agree :
    (b : ByteBuffer) (n : ℕ)
    → IsValid b
    → Agree b (buffer_call b (consumes n)) (queue_call (capacity b) (peek b) (consumes n))
consume-Agree b n v = elim (Option-cases (consume n b)) [
  | inl e ↦ inl (ground (arith, e), ground (arith, e, peek-consume n b v, length-peek b v))
  | inr (c, e) ↦
      let w = consume-IsValid n b c v e in
      inr
        (n, c, ground (arith, e), ground (arith, e, peek-consume n b v, length-peek b v), w.0, w.1)
]

call-Agree :
    (b : ByteBuffer) (c : Call)
    → IsValid b
    → Agree b (buffer_call b c) (queue_call (capacity b) (peek b) c)
call-Agree b (writes bytes) v = write-Agree b bytes v
call-Agree b (consumes n) v = consume-Agree b n v

run_refines_from :
    (cs : List Call) (b : ByteBuffer)
    → IsValid b
    → buffer_run b cs ≡ queue_run (capacity b) (peek b) cs
unfolding buffer_run queue_run
run_refines_from [] b v = refl
run_refines_from (c ∷ cs) b v = elim (call-Agree b c v) [
  | inl (r, s) ↦ rw (r, s, buffer_run, queue_run)
  | inr (n, b', r, s, v', k) ↦
      rw (r, s, buffer_run, queue_run)
        (ap (λ t. some (n, peek b') ∷ t)
          (run_refines_from cs b' v' ∙ ap (λ m. queue_run m (peek b') cs) k))
]

create-IsValid :
    (cap : ℕ) (b : ByteBuffer)
    → create cap ≡ some b
    → IsValid b × (capacity b ≡ cap) × (peek b ≡ [])
unfolding create capacity peek
create-IsValid cap b h = ground (arith, length-replicate {A = ℕ} cap 0)

-- Whatever calls a client makes of a new buffer, the counts it is returned, what `Peek` shows
-- after each call and the call at which an assertion fails are those of a queue that holds at most
-- `cap` bytes: compaction, the two positions and the reset of an empty buffer never show.
pub run_refines :
    (cap : ℕ) (b : ByteBuffer) (cs : List Call)
    → create cap ≡ some b
    → buffer_run b cs ≡ queue_run cap [] cs
run_refines cap b cs h =
    let (v, k, e) = create-IsValid cap b h in
    run_refines_from cs b v ∙ ap₂ (λ m q. queue_run m q cs) k e
