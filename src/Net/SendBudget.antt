-- ===== src/Net/SendBudget.antt =====
-- src/Core/AtomicBudgetInternal.h and the accounting of src/Net/SendBudgetInternal.cpp. The other
-- threads are the values that they store: each one makes a compare-exchange of this thread fail,
-- which then goes on with that value (a spurious failure is the same value again).
use server_core.Base.{
  ℕ, ◌+◌, ◌-◌, ◌≤◌, ◌≡◌, refl, ◌⊎◌, Bool, true, false, Option, none, some, List, [], ◌∷◌, arith,
  ltb, ◌==◌, ==_iff, ◌||◌, if◌then◌else◌,
}

-- The loop of `TryReserveBudget`: whether it reserved, and the value of the counter afterwards.
unfoldable pub reserve_loop : ℕ → ℕ → ℕ → List ℕ → Bool × ℕ
reserve_loop limit amount current [] =
    if ltb limit current || ltb (limit - current) amount
    then (false, current)
    else (true, current + amount)
reserve_loop limit amount current (seen ∷ others) =
    let rest = reserve_loop limit amount seen others in
    if ltb limit current || ltb (limit - current) amount then (false, current) else rest

unfoldable pub try_reserve_budget : ℕ → ℕ → ℕ → List ℕ → Bool × ℕ
unfolding reserve_loop
try_reserve_budget used limit amount others =
    if amount == 0 then (true, used) else reserve_loop limit amount used others

-- `ReleaseBudget`; `none` is the assertion on the amount.
unfoldable pub release_loop : ℕ → ℕ → List ℕ → Option ℕ
release_loop amount current [] = if ltb current amount then none else some (current - amount)
release_loop amount current (seen ∷ others) =
    let rest = release_loop amount seen others in if ltb current amount then none else rest

unfoldable pub release_budget : ℕ → ℕ → List ℕ → Option ℕ
unfolding release_loop
release_budget used amount others =
    if amount == 0 then some used else release_loop amount used others

pub record SendBudget : Type 0 where
  pub limit_bytes : ℕ
  pub connection_limit_bytes : ℕ
  pub used_bytes : ℕ
  pub changed : Bool

-- The constructor, which asserts that neither limit is zero.
abbrev pub create : ℕ → ℕ → SendBudget
create limit_bytes connection_limit_bytes = record {
  limit_bytes = limit_bytes;
  connection_limit_bytes = connection_limit_bytes;
  used_bytes = 0;
  changed = false;
}

unfoldable pub try_reserve : ℕ → SendBudget → Bool × SendBudget
unfolding try_reserve_budget
try_reserve byte_count b =
    let out = try_reserve_budget b.used_bytes b.limit_bytes byte_count [] in
    (out.0, record b { used_bytes = out.1 })

abbrev pub set_used : SendBudget → ℕ → Option ℕ → Option SendBudget
set_used b byte_count none = none
set_used b byte_count (some used) =
    some (record b { used_bytes = used; changed = if byte_count == 0 then b.changed else true })

unfoldable pub release : ℕ → SendBudget → Option SendBudget
unfolding release_budget
release byte_count b = set_used b byte_count (release_budget b.used_bytes byte_count [])

-- The value that a call works on at last: its own reading, or the last that it was shown.
abbrev pub last_seen : ℕ → List ℕ → ℕ
last_seen current [] = current
last_seen current (seen ∷ others) = last_seen seen others

reserve_loop_lem :
    (limit amount current : ℕ) (others : List ℕ)
    → let out = reserve_loop limit amount current others in
      (out.0 ≡ true → (out.1 ≡ last_seen current others + amount) × (out.1 ≤ limit))
unfolding reserve_loop
reserve_loop_lem limit amount current [] h = ground (arith, h)
reserve_loop_lem limit amount current (seen ∷ others) h =
    ground (arith, h, reserve_loop_lem limit amount seen others)

-- However the other threads interfere, a reservation of a positive amount that is granted adds all
-- of it to the value that the counter had last, and the counter stays within the limit.
pub try_reserve_budget-within :
    (used limit amount : ℕ) (others : List ℕ)
    → (try_reserve_budget used limit amount others).0 ≡ true
    → (amount ≡ 0)
      ⊎ (((try_reserve_budget used limit amount others).1 ≡ last_seen used others + amount)
          × ((try_reserve_budget used limit amount others).1 ≤ limit))
unfolding try_reserve_budget
try_reserve_budget-within used limit amount others h =
    ground (arith, h, reserve_loop_lem limit amount used others, ==_iff amount 0)

-- One step of the accounting.
pub try_reserve_lem :
    (n : ℕ) (b : SendBudget)
    → b.used_bytes ≤ b.limit_bytes
    → let out = try_reserve n b in
      (out.1.limit_bytes ≡ b.limit_bytes)
      × (out.1.connection_limit_bytes ≡ b.connection_limit_bytes)
      × (((out.0 ≡ true)
            × (out.1.used_bytes ≡ b.used_bytes + n)
            × (b.used_bytes + n ≤ b.limit_bytes))
          ⊎ ((out.0 ≡ false) × (out.1 ≡ b)))
unfolding try_reserve reserve_loop
try_reserve_lem n b h = ground (arith, ==_iff n 0)

pub release_lem :
    (n : ℕ) (b : SendBudget)
    → n ≤ b.used_bytes
    → (c : SendBudget) × (release n b ≡ some c)
      × (c.used_bytes ≡ b.used_bytes - n)
      × (c.limit_bytes ≡ b.limit_bytes)
      × (c.connection_limit_bytes ≡ b.connection_limit_bytes)
unfolding release release_loop
release_lem n b h = (
  record b { used_bytes = b.used_bytes - n; changed = if n == 0 then b.changed else true },
  ground (arith, ==_iff n 0),
  refl,
  refl,
  refl,
)
