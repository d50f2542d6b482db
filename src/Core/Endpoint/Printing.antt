-- ===== src/Core/Endpoint/Printing.antt =====
-- `ToString` of the addresses and endpoints of src/Core/Endpoint.cpp.
use server_core.Base.{
  ℕ, zero, suc, ◌+◌, ◌-◌, ◌*◌, ◌/◌, ◌%◌, Bool, true, false, ◌&&◌, Option, none, some, List, [], ◌∷◌,
  ◌++◌, ltb, leb, ◌==◌, if◌then◌else◌, take,
}
use server_core.Core.Error.{ErrorCode, Result, value, failed}
use server_core.Core.Endpoint.{unspecified, v4, v6, IpAddress, dot, colon, parse_address}

-- `std::to_string` of a byte or a port, and `std::to_chars` of a word.
abbrev pub decimal_text : ℕ → ℕ → List ℕ
decimal_text zero n = []
decimal_text (suc fuel) n =
    let front = decimal_text fuel (n / 10) in
    if ltb n 10 then (0x30 + n) ∷ [] else front ++ (0x30 + n % 10) ∷ []

abbrev pub hex_of : ℕ → ℕ
hex_of n = if ltb n 10 then 0x30 + n else 0x61 + (n - 10)

abbrev pub hex_text : ℕ → ℕ → List ℕ
hex_text zero n = []
hex_text (suc fuel) n =
    let front = hex_text fuel (n / 16) in
    if ltb n 16 then hex_of n ∷ [] else front ++ hex_of (n % 16) ∷ []

-- A byte has three digits, a port or a scope ten at most.
abbrev pub v4_text : List ℕ → List ℕ
v4_text [] = []
v4_text (byte ∷ []) = decimal_text 3 byte
v4_text (byte ∷ next ∷ bytes) = decimal_text 3 byte ++ dot ∷ v4_text (next ∷ bytes)

-- The eight words.
abbrev pub words_of : List ℕ → List ℕ
words_of [] = []
words_of (high ∷ []) = []
words_of (high ∷ low ∷ bytes) = (high * 256 + low) ∷ words_of bytes

abbrev pub zero_run : List ℕ → ℕ
zero_run [] = 0
zero_run (w ∷ ws) = let more = zero_run ws in if w == 0 then suc more else 0

-- The first of the longest runs of two zeros or more: where it begins and how long it is. The scan
-- stands at `index`, and `skip` words belong to the run that was seen last.
unfoldable pub best_from : ℕ → ℕ → ℕ → ℕ → List ℕ → ℕ × ℕ
best_from skip index best size [] = (best, size)
best_from (suc skip) index best size (w ∷ ws) = best_from skip (index + 1) best size ws
best_from zero index best size (w ∷ ws) =
    let run = zero_run (w ∷ ws) in
    let better = best_from (run - 1) (index + 1) index run ws in
    let same = best_from (run - 1) (index + 1) best size ws in
    if leb 2 run && ltb size run then better else same

-- The loop that writes the words; `divide` is whether a colon is still due in front of a word.
unfoldable pub words_text : ℕ → ℕ → ℕ → ℕ → Bool → List ℕ → List ℕ
words_text skip index best size divide [] = []
words_text (suc skip) index best size divide (w ∷ ws) =
    words_text skip (index + 1) best size divide ws
words_text zero index best size divide (w ∷ ws) =
    let behind_gap = words_text (size - 1) (index + 1) best size false ws in
    let plain = words_text 0 (index + 1) best size true ws in
    if index == best
    then colon ∷ colon ∷ behind_gap
    else if divide
    then colon ∷ hex_text 4 w ++ plain
    else hex_text 4 w ++ plain

abbrev pub scope_text : ℕ → List ℕ
scope_text zero = []
scope_text (suc scope) = 0x25 ∷ decimal_text 10 (suc scope)

abbrev pub v6_text : List ℕ → ℕ × ℕ → ℕ → List ℕ
v6_text ws (best, size) scope = words_text 0 0 best size false ws ++ scope_text scope

-- `IpAddress::ToString`
unfoldable pub address_text : IpAddress → List ℕ
unfolding best_from words_text
address_text a = elim a.family [
  | unspecified ↦ []
  | v4 ↦ v4_text (take 4 a.bytes)
  | v6 ↦ v6_text (words_of a.bytes) (best_from 0 0 8 0 (words_of a.bytes)) a.scope
]

pub record IpEndpoint : Type 0 where
  pub address : IpAddress
  pub port : ℕ

abbrev pub endpoint_of : ℕ → Option IpAddress → Result IpEndpoint
endpoint_of port none = failed ErrorCode.invalid_argument
endpoint_of port (some a) = value (record { address = a; port = port })

-- `IpEndpoint::Parse` and `IpEndpoint::ToString`.
unfoldable pub parse_endpoint : List ℕ → ℕ → Result IpEndpoint
unfolding parse_address
parse_endpoint text port = endpoint_of port (parse_address text)

unfoldable pub endpoint_text : IpEndpoint → List ℕ
unfolding address_text
endpoint_text e = elim e.address.family [
  | unspecified ↦ []
  | v4 ↦ address_text e.address ++ colon ∷ decimal_text 5 e.port
  | v6 ↦ 0x5B ∷ address_text e.address ++ 0x5D ∷ colon ∷ decimal_text 5 e.port
]
