-- ===== src/Billing/Contract/Steps.antt =====
-- The steps of the checks in apps/api/app/billing/contract.py, read backwards from a value that was
-- accepted.
use procure_delta.Prelude.{
  arith, ℕ, suc, ◌≤◌, ◌<◌, ◌≡◌, refl, inl, inr, String, Bool, true, false, not, ◌&&◌, ◌||◌, ◌==◌,
  ==→eq, eq_iff, leb, Bool-cases,
}
use procure_delta.Prelude.Int.{ℤ, pos, negsuc, eq_ℤ}
use procure_delta.Prelude.Json.{
  Json, JsonFields, null, bool, integer, real, text, array, object, text_is,
}
use procure_delta.Billing.Contract.{valid_id, valid_currency}
use procure_delta.Billing.Contract.Parsing.{
  Checked, accepted, reviewed, rejected, ◌>>=◌, reject_if, review_if, max_value, require_natural,
  require_signed, require_currency, require_id, require_object,
}

-- A block that accepts, step by step.
pub bind_accepted :
    {A B : Type 0} (m : Checked A) (f : A → Checked B) {b : B}
    → (m >>= f) ≡ accepted b
    → (a : A) × (m ≡ accepted a) × (f a ≡ accepted b)
unfolding ◌>>=◌
bind_accepted (accepted a) f e = (a, refl, e)
bind_accepted (reviewed why) f e = cc
bind_accepted rejected f e = cc

pub review_accepted :
    {B : Type 0} (b : Bool) (why : String) (k : Unit {0} → Checked B) {r : B}
    → (review_if b why >>= k) ≡ accepted r
    → (b ≡ false) × (k tt ≡ accepted r)
unfolding ◌>>=◌ review_if
review_accepted true why k e = cc
review_accepted false why k e = (refl, e)

pub reject_accepted :
    {B : Type 0} (b : Bool) (k : Unit {0} → Checked B) {r : B}
    → (reject_if b >>= k) ≡ accepted r
    → (b ≡ false) × (k tt ≡ accepted r)
unfolding ◌>>=◌ reject_if
reject_accepted true k e = cc
reject_accepted false k e = (refl, e)

pub require_natural_lem :
    (low high : ℕ) (j : Json) {n : ℕ}
    → require_natural low high j ≡ accepted n
    → (j ≡ integer (pos n)) × (low ≤ n) × (n ≤ high)
unfolding ◌>>=◌ reject_if
require_natural_lem low high (integer (pos k)) e = elim (Bool-cases (leb low k && leb k high)) [
  | inl good ↦ ground (arith, e)
  | inr bad ↦ let e' = rw bad at e in cc
]
require_natural_lem low high (integer (negsuc k)) e = cc
require_natural_lem low high null e = cc
require_natural_lem low high (bool _) e = cc
require_natural_lem low high (real _ _) e = cc
require_natural_lem low high (text _) e = cc
require_natural_lem low high (array _) e = cc
require_natural_lem low high (object _) e = cc

pub require_signed_lem : (j : Json) {n : ℤ} → require_signed j ≡ accepted n → j ≡ integer n
unfolding ◌>>=◌ reject_if
require_signed_lem (integer (pos k)) e = elim (Bool-cases (leb k max_value)) [
  | inl good ↦ ground (arith, e)
  | inr bad ↦ let e' = rw bad at e in cc
]
require_signed_lem (integer (negsuc k)) e = elim (Bool-cases (leb (suc k) max_value)) [
  | inl good ↦ ground (arith, e)
  | inr bad ↦ let e' = rw bad at e in cc
]
require_signed_lem null e = cc
require_signed_lem (bool _) e = cc
require_signed_lem (real _ _) e = cc
require_signed_lem (text _) e = cc
require_signed_lem (array _) e = cc
require_signed_lem (object _) e = cc

pub require_currency_lem : (j : Json) {s : String} → require_currency j ≡ accepted s → j ≡ text s
unfolding ◌>>=◌ reject_if
require_currency_lem (text k) e = elim (Bool-cases (valid_currency k)) [
  | inl good ↦ let e' = rw good at e in cc
  | inr bad ↦ let e' = rw bad at e in cc
]
require_currency_lem null e = cc
require_currency_lem (bool _) e = cc
require_currency_lem (integer _) e = cc
require_currency_lem (real _ _) e = cc
require_currency_lem (array _) e = cc
require_currency_lem (object _) e = cc

pub require_id_lem :
    (prefix : String) (j : Json) {s : String} → require_id prefix j ≡ accepted s → j ≡ text s
unfolding ◌>>=◌ reject_if
require_id_lem prefix (text k) e = elim (Bool-cases (valid_id prefix k)) [
  | inl good ↦ let e' = rw good at e in cc
  | inr bad ↦ let e' = rw bad at e in cc
]
require_id_lem prefix null e = cc
require_id_lem prefix (bool _) e = cc
require_id_lem prefix (integer _) e = cc
require_id_lem prefix (real _ _) e = cc
require_id_lem prefix (array _) e = cc
require_id_lem prefix (object _) e = cc

pub require_object_lem :
    (j : Json) (fs : JsonFields) → require_object j ≡ accepted fs → j ≡ object fs
require_object_lem (object x) fs e = cc
require_object_lem (array _) fs e = cc
require_object_lem null fs e = cc
require_object_lem (bool _) fs e = cc
require_object_lem (integer _) fs e = cc
require_object_lem (real _ _) fs e = cc
require_object_lem (text _) fs e = cc

pub or_false : (a b : Bool) → (a || b) ≡ false → (a ≡ false) × (b ≡ false)
or_false a b e = ground arith

pub or3_false : (a b c : Bool) → (a || b || c) ≡ false → (a ≡ false) × (b ≡ false) × (c ≡ false)
or3_false a b c e = ground arith

pub not_zero : (a : ℕ) → (a == 0) ≡ false → 0 < a
not_zero a e = ground arith

pub before_end : (start finish : ℕ) → leb finish start ≡ false → start < finish
before_end start finish e = ground arith

pub not-false : (b : Bool) → not b ≡ false → b ≡ true
not-false b e = ground arith

pub text_is_lem : (t : String) (j : Json) → text_is t j ≡ true → j ≡ text t
text_is_lem t (text s) e = rw ((eq_iff s t).0 e) refl
text_is_lem t null e = cc
text_is_lem t (bool _) e = cc
text_is_lem t (integer _) e = cc
text_is_lem t (real _ _) e = cc
text_is_lem t (array _) e = cc
text_is_lem t (object _) e = cc

pub eq_ℤ_lem : (n : ℤ) (k : ℕ) → eq_ℤ n (pos k) ≡ true → n ≡ pos k
eq_ℤ_lem (pos m) k e = rw (==→eq m k e) refl
eq_ℤ_lem (negsuc m) k e = cc
