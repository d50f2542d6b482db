-- ===== src/Runtime/Ticks/Counting.antt =====
-- The ticks that a timer runs: none twice, none before its time, and all counted.
use server_core.Base.{
  ℕ, zero, suc, ◌+◌, ◌-◌, ◌*◌, ◌≤◌, ◌<◌, ◌≡◌, refl, ap, inl, inr, List, [], ◌∷◌, ◌++◌, arith, min,
  max, length, length-append, ltb, ltb→le, subst₂, leb, leb→gt, ◌==◌, if◌then◌else◌, Bool-cases,
  All,
}
use native.Mathlib.Nat.{le-div_iff_mul-le, mul_comm}
use server_core.Core.Error.{is_ok}
use server_core.Runtime.Ticks.{
  TickInfo, Ticks, Round, tick_of, ticked, run_ticks, skipping, due_at, fire, fire_all,
}

-- Every interval up to `next` was run or skipped.
pub record IsCounted (t : Ticks) : Type 0 where
  pub all : t.metrics.executed + t.metrics.skipped ≡ t.next
  pub paced : 0 < t.interval

-- The ticks have the numbers of the intervals behind `start` and up to `end`, in ascending order.
abbrev pub IsAscending : ℕ → List TickInfo → ℕ → Type 0
IsAscending start [] end = start ≤ end
IsAscending start (tick ∷ ticks) end = (start < tick.index) × IsAscending tick.index ticks end

IsAscending-append :
    (a b c : ℕ) (xs ys : List TickInfo)
    → IsAscending a xs b
    → IsAscending b ys c
    → IsAscending a (xs ++ ys) c
IsAscending-append a b c [] ys h k = weaken ys h k
  where
    weaken : (ys : List TickInfo) → a ≤ b → IsAscending b ys c → IsAscending a ys c
    weaken [] h k = omega (arith, h, k)
    weaken (y ∷ ys) h k = (omega (arith, h, k.0), k.1)
IsAscending-append a b c (x ∷ xs) ys h k = (h.0, IsAscending-append x.index b c xs ys h.1 k)

-- What a run of ticks leaves.
pub record IsRun (t : Ticks) (limit : ℕ) (ticks : List TickInfo) (u : Ticks) : Type 0 where
  pub same_interval : u.interval ≡ t.interval
  pub same_epoch : u.epoch ≡ t.epoch
  pub same_calls : u.max_calls ≡ t.max_calls
  pub kept : IsCounted t → IsCounted u
  pub executed : u.metrics.executed ≡ t.metrics.executed + length ticks
  pub ascending : IsAscending t.next ticks u.next
  pub bounded : u.next ≤ limit

nothing-IsRun : (t : Ticks) (limit : ℕ) → t.next ≤ limit → IsRun t limit [] t
nothing-IsRun t limit h = record {
  same_interval = refl;
  same_epoch = refl;
  same_calls = refl;
  kept = λ k. k;
  executed = omega arith;
  ascending = omega arith;
  bounded = h;
}

-- One tick, and what follows it.
tick-IsRun :
    (started skipped limit : ℕ) (t : Ticks) (ticks : List TickInfo) (u : Ticks)
    → IsRun (ticked started t) limit ticks u
    → IsRun t limit (tick_of started skipped t ∷ ticks) u
tick-IsRun started skipped limit t ticks u h = record {
  same_interval = h.same_interval;
  same_epoch = h.same_epoch;
  same_calls = h.same_calls;
  kept = λ k. h.kept (record { all = omega (arith, k.all); paced = k.paced });
  executed = omega (arith, h.executed);
  ascending = (omega arith, h.ascending);
  bounded = h.bounded;
}

run_ticks-IsRun :
    (count call actual skipped limit : ℕ) (r : Round) (t : Ticks)
    → t.next + count ≤ limit
    → let out = run_ticks count call actual skipped r t in IsRun t limit out.1 out.2
unfolding run_ticks
run_ticks-IsRun zero call actual skipped limit r t h = nothing-IsRun t limit (omega (arith, h))
run_ticks-IsRun (suc count) call actual skipped limit r t h =
    let started = actual + r.delay call in
    let late = if call == 0 then skipped else 0 in
    elim (Bool-cases (r.stopped call)) [
      | inl s ↦ rw s (nothing-IsRun t limit (omega (arith, h)))
      | inr s ↦ elim (Bool-cases (is_ok (r.work (tick_of started late t)))) [
        | inl k ↦
            rw (s, k)
              (tick-IsRun started late limit t _ _ (
                run_ticks-IsRun count (call + 1) actual skipped limit r (ticked started t)
                  (omega (arith, h))))
        | inr k ↦
            rw (s, k)
              (tick-IsRun started late limit t [] (ticked started t)
                (nothing-IsRun (ticked started t) limit (omega (arith, h))))
      ]
    ]

-- Before the ticks of a run, the intervals that are too many are skipped.
skipped-IsRun :
    (n limit : ℕ) (t : Ticks) (ticks : List TickInfo) (u : Ticks)
    → IsRun (skipping n t) limit ticks u
    → IsRun t limit ticks u
skipped-IsRun n limit t ticks u h = record {
  same_interval = h.same_interval;
  same_epoch = h.same_epoch;
  same_calls = h.same_calls;
  kept = λ k. h.kept (record { all = omega (arith, k.all); paced = k.paced });
  executed = h.executed;
  ascending = IsAscending-append t.next (t.next + n) u.next [] ticks (omega arith) h.ascending;
  bounded = h.bounded;
}

pub fire-IsRun :
    (actual : ℕ) (r : Round) (t : Ticks)
    → let out = fire actual r t in IsRun t (max t.next (due_at actual t)) out.1 out.2
unfolding fire
fire-IsRun actual r t =
    let due = due_at actual t in
    let count = min (due - t.next) t.max_calls in
    let n = due - t.next - count in
    elim (Bool-cases (ltb actual t.epoch)) [
      | inl e ↦ rw e (nothing-IsRun t _ (omega arith))
      | inr e ↦ elim (Bool-cases (leb due t.next)) [
        | inl d ↦ rw (e, d) (nothing-IsRun t _ (omega arith))
        | inr d ↦
            rw (e, d)
              (skipped-IsRun n _ t _ _ (
                run_ticks-IsRun count 0 actual n (max t.next due) r (skipping n t)
                  (omega (arith, leb→gt due t.next d))))
      ]
    ]

-- A tick does not start before its time.
abbrev pub IsPunctual : ℕ → ℕ → TickInfo → Type 0
IsPunctual epoch interval tick =
    (suc (tick.index - 1) ≡ tick.index)
    × (tick.scheduled ≡ epoch + interval * (tick.index - 1))
    × (tick.scheduled + tick.lateness ≡ tick.actual)

run_ticks-IsPunctual :
    (count call actual skipped : ℕ) (r : Round) (t : Ticks)
    → ((n : ℕ) → n < t.next + count → t.epoch + t.interval * n ≤ actual)
    → All (IsPunctual t.epoch t.interval) (run_ticks count call actual skipped r t).1
unfolding run_ticks
run_ticks-IsPunctual zero call actual skipped r t h = tt
run_ticks-IsPunctual (suc count) call actual skipped r t h =
    let started = actual + r.delay call in
    let late = if call == 0 then skipped else 0 in
    let punctual : IsPunctual t.epoch t.interval (tick_of started late t) = (
      omega arith,
      ap (λ n. t.epoch + t.interval * n) {x = t.next} {y = t.next + 1 - 1} (omega arith),
      omega (arith, h t.next (omega arith)),
    ) in
    elim (Bool-cases (r.stopped call)) [
      | inl s ↦ rw s tt
      | inr s ↦ elim (Bool-cases (is_ok (r.work (tick_of started late t)))) [
        | inl k ↦
            rw (s, k)
              (
                punctual,
                run_ticks-IsPunctual count (call + 1) actual skipped r (ticked started t)
                    (λ n b. h n (omega (arith, b))),
              )
        | inr k ↦ rw (s, k) (punctual, tt)
      ]
    ]

-- The intervals that are due have begun.
due_at-begun :
    (actual n : ℕ) (t : Ticks)
    → 0 < t.interval
    → t.epoch ≤ actual
    → n < due_at actual t
    → t.epoch + t.interval * n ≤ actual
due_at-begun actual n t p e h =
    let room =
      (le-div_iff_mul-le {k = t.interval} {x = n} {y = actual - t.epoch} p).0 (omega (arith, h)) in
    omega (arith, e, room, mul_comm t.interval n)

fire-IsPunctual :
    (actual : ℕ) (r : Round) (t : Ticks)
    → 0 < t.interval
    → All (IsPunctual t.epoch t.interval) (fire actual r t).1
unfolding fire
fire-IsPunctual actual r t p =
    let due = due_at actual t in
    let count = min (due - t.next) t.max_calls in
    let n = due - t.next - count in
    elim (Bool-cases (ltb actual t.epoch)) [
      | inl e ↦ rw e tt
      | inr e ↦ elim (Bool-cases (leb due t.next)) [
        | inl d ↦ rw (e, d) tt
        | inr d ↦
            rw (e, d)
              (run_ticks-IsPunctual count 0 actual n r (skipping n t) (λ m b.
                due_at-begun actual m t p (ltb→le actual t.epoch e)
                  (omega (arith, b, leb→gt due t.next d))))
      ]
    ]

All-append :
    (P : TickInfo → Type 0) (xs ys : List TickInfo) → All P xs → All P ys → All P (xs ++ ys)
All-append P [] ys h k = k
All-append P (x ∷ xs) ys h k = (h.0, All-append P xs ys h.1 k)

-- However often and whenever the timer fires, the ticks that are run are numbered in ascending order,
-- none twice; each one starts at its time or later, its lateness being the difference; they are all
-- counted; and every interval up to the next one was run or skipped.
pub fire_all-counts :
    (rounds : List (ℕ × Round)) (t : Ticks)
    → IsCounted t
    → let (ticks, u) = fire_all rounds t in
      IsAscending t.next ticks u.next
      × All (IsPunctual t.epoch t.interval) ticks
      × (u.metrics.executed ≡ t.metrics.executed + length ticks)
      × (u.metrics.executed + u.metrics.skipped ≡ u.next)
unfolding fire_all
fire_all-counts [] t k = (omega arith, tt, omega arith, k.all)
fire_all-counts ((actual, r) ∷ rounds) t k =
    let (_, ticks, next) = fire actual r t in
    let h = fire-IsRun actual r t in
    let (ascending, punctual, executed, all) = fire_all-counts rounds next (h.kept k) in
    let (more, u) = fire_all rounds next in
    (
      IsAscending-append t.next next.next u.next ticks more h.ascending ascending,
      All-append (IsPunctual t.epoch t.interval) ticks more (fire-IsPunctual actual r t k.paced)
          (subst₂ (λ e i. All (IsPunctual e i) more) h.same_epoch h.same_interval punctual),
      omega (arith, executed, h.executed, length-append ticks more),
      all,
    )
