-- ===== src/Billing/Contract.antt =====
-- The checks of identifiers and integers in apps/api/app/billing/contract.py. A text is walked as
-- its code points; the patterns are ASCII.
pub mod Parsing
pub mod Event
pub mod Steps
pub mod Paid
pub mod Signature
pub mod Accepted
pub mod Authentic
use Prim.Native.Char.{code}
use procure_delta.Prelude.{
  ℕ, String, Bool, true, false, ◌&&◌, ◌||◌, List, [], ◌∷◌, leb, ◌==◌, length, if◌then◌else◌,
}

abbrev pub codes : String → List ℕ
codes String.[] = []
codes (String.◌∷◌ c s) = code c ∷ codes s

abbrev pub is_lower : ℕ → Bool
is_lower c = leb b'a' c && leb c b'z'

abbrev pub is_upper : ℕ → Bool
is_upper c = leb b'A' c && leb c b'Z'

abbrev pub is_digit : ℕ → Bool
is_digit c = leb b'0' c && leb c b'9'

abbrev pub is_alnum : ℕ → Bool
is_alnum c = is_lower c || is_upper c || is_digit c

abbrev pub all : (ℕ → Bool) → List ℕ → Bool
all p [] = true
all p (c ∷ cs) = p c && all p cs

-- `[a-zA-Z0-9][a-zA-Z0-9_-]{0,63}`
scope_pattern : List ℕ → Bool
scope_pattern [] = false
scope_pattern (c ∷ cs) =
    is_alnum c && leb (length cs) 63 && all (λ d. is_alnum d || (d == b'_') || (d == b'-')) cs

unfoldable pub valid_scope : String → Bool
unfolding scope_pattern
valid_scope s = scope_pattern (codes s)

-- `[a-z0-9]*_[A-Za-z0-9_]{1,190}`, after the first letter.
id_rest : List ℕ → Bool
id_rest [] = false
id_rest (c ∷ cs) =
    let rest = id_rest cs in
    if c == b'_'
    then leb 1 (length cs) && leb (length cs) 190 && all (λ d. is_alnum d || (d == b'_')) cs
    else (is_lower c || is_digit c) && rest

id_pattern : List ℕ → Bool
unfolding id_rest
id_pattern [] = false
id_pattern (c ∷ cs) = is_lower c && id_rest cs

-- `value.startswith(prefix + "_")`
starts : List ℕ → List ℕ → Bool
starts [] cs = true
starts (p ∷ ps) [] = false
starts (p ∷ ps) (c ∷ cs) = (p == c) && starts ps cs

-- `require_id(value, prefix)`; the prefix comes with its underscore.
unfoldable pub valid_id : String → String → Bool
unfolding id_pattern starts
valid_id prefix s =
    leb (length (codes s)) 200 && id_pattern (codes s) && starts (codes prefix) (codes s)

-- `[a-z]{3}`
unfoldable pub valid_currency : String → Bool
valid_currency s = (length (codes s) == 3) && all is_lower (codes s)
