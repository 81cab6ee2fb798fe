-- ===== src/Billing/Contract/Signature.antt =====
-- `verify_signature` of apps/api/app/billing/contract.py, on code points. The characters that `strip`
-- takes for spaces, and HMAC-SHA-256 in hexadecimal, are parameters; the time is in microseconds.
use procure_delta.Prelude.{
  ℕ, ◌+◌, ◌-◌, ◌*◌, String, Bool, true, false, not, ◌&&◌, ◌||◌, Option, none, some, List, [], ◌∷◌,
  ◌++◌, ◌==◌, leb, length, if◌then◌else◌,
}
use procure_delta.Billing.Contract.{codes, all, is_digit, is_upper}
use procure_delta.Billing.Contract.Event.{max_body_bytes}

abbrev pub max_signature_length : ℕ
max_signature_length = 4096

abbrev pub same_codes : List ℕ → List ℕ → Bool
same_codes [] [] = true
same_codes [] (d ∷ ds) = false
same_codes (c ∷ cs) [] = false
same_codes (c ∷ cs) (d ∷ ds) = (c == d) && same_codes cs ds

-- A code in front of the first of the parts.
abbrev pub put_first : ℕ → List (List ℕ) → List (List ℕ)
put_first c [] = (c ∷ []) ∷ []
put_first c (part ∷ parts) = (c ∷ part) ∷ parts

-- `header.split(",")`
unfoldable pub split_commas : List ℕ → List (List ℕ)
split_commas [] = [] ∷ []
split_commas (c ∷ cs) =
    let parts = split_commas cs in if c == b',' then [] ∷ parts else put_first c parts

-- `partition("=")`; nothing where there is no separator.
unfoldable pub partition : List ℕ → Option (List ℕ × List ℕ)
partition [] = none
partition (c ∷ cs) =
    let rest = partition cs in
    if c == b'=' then some ([], cs) else elim rest [ none ↦ none | some p ↦ some (c ∷ p.0, p.1) ]

-- `[a-fA-F0-9]{64}`
abbrev pub is_hex : ℕ → Bool
is_hex c = is_digit c || (leb b'a' c && leb c b'f') || (leb b'A' c && leb c b'F')

unfoldable pub is_hex_digest : List ℕ → Bool
is_hex_digest cs = (length cs == 64) && all is_hex cs

-- `value.lower()` of a hexadecimal text
abbrev pub lower : List ℕ → List ℕ
lower [] = []
lower (c ∷ cs) = (if is_upper c then c + 32 else c) ∷ lower cs

-- `[0-9]{1,12}`
unfoldable pub is_timestamp : List ℕ → Bool
is_timestamp cs = leb 1 (length cs) && leb (length cs) 12 && all is_digit cs

-- `int` of digits, after a number that is read already
abbrev pub decimal : ℕ → List ℕ → ℕ
decimal n [] = n
decimal n (c ∷ cs) = decimal (n * 10 + (c - b'0')) cs

pub record Scanned : Type 0 where
  pub timestamps : List (List ℕ)
  pub signatures : List (List ℕ)

abbrev pub t_key : List ℕ
t_key = codes "t"

abbrev pub v1_key : List ℕ
v1_key = codes "v1"

-- One component of the header.
abbrev pub scan_pair : List ℕ → List ℕ → Scanned → Scanned
scan_pair key value found =
    if same_codes key t_key
    then record found { timestamps = found.timestamps ++ (value ∷ []) }
    else if same_codes key v1_key && is_hex_digest value
    then record found { signatures = found.signatures ++ (lower value ∷ []) }
    else found

-- `abs(now - timestamp) > 300`
abbrev pub is_stale : ℕ → ℕ → Bool
is_stale now timestamp =
    let at = timestamp * 1000000 in not (leb ((now - at) + (at - now)) 300000000)

abbrev pub any_match : List ℕ → List (List ℕ) → Bool
any_match expected [] = false
any_match expected (s ∷ ss) = same_codes expected s || any_match expected ss

module _ (is_space : ℕ → Bool) where
  abbrev pub strip_start : List ℕ → List ℕ
  strip_start [] = []
  strip_start (c ∷ cs) = let rest = strip_start cs in if is_space c then rest else c ∷ cs

  abbrev pub add_unless_last : ℕ → List ℕ → List ℕ
  add_unless_last c [] = if is_space c then [] else c ∷ []
  add_unless_last c (d ∷ ds) = c ∷ d ∷ ds

  abbrev pub strip_end : List ℕ → List ℕ
  strip_end [] = []
  strip_end (c ∷ cs) = add_unless_last c (strip_end cs)

  abbrev pub strip : List ℕ → List ℕ
  strip cs = strip_end (strip_start cs)

  -- The loop over the components; nothing where one has no separator.
  unfoldable pub scan : List (List ℕ) → Scanned → Option Scanned
  scan [] found = some found
  scan (component ∷ components) found = elim (partition (strip component)) [
    | none ↦ none
    | some (key, value) ↦ scan components (scan_pair key value found)
  ]

module _ (hmac : String → List ℕ → List ℕ) where
  abbrev pub expected_digest : String → List ℕ → List ℕ → List ℕ
  expected_digest secret timestamp body = hmac secret (timestamp ++ (b'.' ∷ body))

  -- The checks after the loop.
  abbrev pub verify_timestamps : List ℕ → String → ℕ → List (List ℕ) → List (List ℕ) → Bool
  verify_timestamps body secret now [] signatures = false
  verify_timestamps body secret now (t ∷ t' ∷ ts) signatures = false
  verify_timestamps body secret now (t ∷ []) signatures =
      is_timestamp t
      && not (is_stale now (decimal 0 t))
      && any_match (expected_digest secret t body) signatures

  abbrev pub verify_scanned : List ℕ → String → ℕ → Option Scanned → Bool
  verify_scanned body secret now none = false
  verify_scanned body secret now (some found) =
      verify_timestamps body secret now found.timestamps found.signatures

  -- Whether the call returns; it raises BillingInputError otherwise.
  unfoldable pub verify_signature : (ℕ → Bool) → List ℕ → List ℕ → String → ℕ → Bool
  verify_signature is_space body header secret now =
      leb (length body) max_body_bytes
      && leb 1 (length header)
      && leb (length header) max_signature_length
      && leb 1 (length (codes secret))
      && verify_scanned body secret now
          (scan is_space (split_commas header) (record { timestamps = []; signatures = [] }))
