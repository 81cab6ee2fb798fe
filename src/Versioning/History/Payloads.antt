-- ===== src/Versioning/History/Payloads.antt =====
-- The unique constraint on the raw records of apps/api/app/models/schema.py: which row a payload
-- stands for.
use procure_delta.Prelude.{
  arith, ℕ, ◌≤◌, ◌<◌, ◌≡◌, refl, String, Bool, true, ◌&&◌, Option, none, some, List, [], ◌∷◌, ◌==◌,
  str_eq, if◌then◌else◌, find, find-test, put_row, Bool-cases, inl, inr, eq_iff, ==_refl, ==→eq,
}
use procure_delta.Versioning.Schema.{RawRecord, VersionDb, has_raw_id}
use procure_delta.Versioning.Upsert.{same_payload}

-- What the unique constraint on raw records is about: the source, its record and the digest.
abbrev pub Payload : Type 0
Payload = ℕ × String × String

abbrev pub payload_of : RawRecord → Payload
payload_of r = (r.source_id, r.source_record_id, r.payload_sha256)

-- The primary key and the payload of each raw record.
unfoldable pub names : List RawRecord → List (ℕ × Payload)
names [] = []
names (r ∷ rs) = (r.id, payload_of r) ∷ names rs

-- The primary keys fall from the newest row to the oldest, all below the counter.
abbrev pub Falling : ℕ → List (ℕ × Payload) → Type 0
Falling n [] = Unit
Falling n (x ∷ xs) = (x.0 < n) × Falling x.0 xs

-- Each raw record has a primary key of its own.
abbrev pub IsKeyed : VersionDb → Type 0
IsKeyed db = Falling db.next_id (names db.raws)

pub Falling-mono : (n m : ℕ) (xs : List (ℕ × Payload)) → n ≤ m → Falling n xs → Falling m xs
Falling-mono n m [] le d = tt
Falling-mono n m (x ∷ xs) le d = (omega arith, d.1)

pub payload_at : ℕ → List (ℕ × Payload) → Option Payload
payload_at id [] = none
payload_at id (x ∷ xs) = if x.0 == id then some x.1 else payload_at id xs

abbrev pub is_payload : Payload → Payload → Bool
is_payload (s, r, c) (source, record', checksum) =
    (s == source) && str_eq r record' && str_eq c checksum

unfoldable pub id_of : Payload → List (ℕ × Payload) → Option ℕ
id_of p [] = none
id_of p (x ∷ xs) = if is_payload x.1 p then some x.0 else id_of p xs

pub find-payload_at :
    (id : ℕ) (r : RawRecord) (rs : List RawRecord)
    → find (has_raw_id id) rs ≡ some r
    → payload_at r.id (names rs) ≡ some (payload_of r)
unfolding names payload_at
find-payload_at id r [] h = cc
find-payload_at id r (x ∷ rs) h =
    ground (arith, ==_refl r.id, find-test (has_raw_id id) (x ∷ rs) r h, find-payload_at id r rs)

names-put_above :
    (n : ℕ) (r : RawRecord) (rs : List RawRecord)
    → Falling n (names rs)
    → n ≤ r.id
    → names (put_row (λ (x : RawRecord). x.id) r rs) ≡ names rs
unfolding names
names-put_above n r [] d h = refl
names-put_above n r (x ∷ rs) d h = ground (arith, names-put_above x.id r rs)

-- An update of a raw record under its own payload changes no key.
pub names-put_row :
    (n : ℕ) (r : RawRecord) (rs : List RawRecord)
    → Falling n (names rs)
    → payload_at r.id (names rs) ≡ some (payload_of r)
    → names (put_row (λ (x : RawRecord). x.id) r rs) ≡ names rs
unfolding names payload_at
names-put_row n r [] d h = refl
names-put_row n r (x ∷ rs) d h = ground (arith, names-put_above x.id r rs, names-put_row x.id r rs)

pub no_payload :
    (source : ℕ) (record' checksum : String) (rs : List RawRecord)
    → find (same_payload source record' checksum) rs ≡ none
    → id_of (source, record', checksum) (names rs) ≡ none
unfolding names id_of
no_payload source record' checksum [] h = refl
no_payload source record' checksum (r ∷ rs) h =
    ground (arith, no_payload source record' checksum rs)

pub find-id_of :
    (source : ℕ) (record' checksum : String) (r : RawRecord) (rs : List RawRecord)
    → find (same_payload source record' checksum) rs ≡ some r
    → id_of (source, record', checksum) (names rs) ≡ some r.id
unfolding names id_of
find-id_of source record' checksum r [] h = cc
find-id_of source record' checksum r (x ∷ rs) h =
    ground (arith, find-id_of source record' checksum r rs)

-- A payload that stands for a raw record finds it.
pub id_of-find :
    (source : ℕ) (record' checksum : String) (id : ℕ) (rs : List RawRecord)
    → id_of (source, record', checksum) (names rs) ≡ some id
    → (r : RawRecord) × (find (same_payload source record' checksum) rs ≡ some r) × (r.id ≡ id)
unfolding names id_of
id_of-find source record' checksum id [] h = cc
id_of-find source record' checksum id (x ∷ rs) h =
    elim (Bool-cases (same_payload source record' checksum x)) [
      | inl e ↦ (x, rw e refl, (let p = rw e at h in cc))
      | inr e ↦
          let (y, f, same) = id_of-find source record' checksum id rs (rw e at h) in
          (y, rw e f, same)
    ]

same_payload-eq : (p q : Payload) → is_payload p q ≡ true → p ≡ q
same_payload-eq (s, r, c) (s', r', c') h = ground (arith, ==→eq s s', eq_iff r r', eq_iff c c')

-- A new raw record, whose payload had none.
pub new_payload :
    (next : ℕ) (fresh p : Payload) (id : ℕ) (rs : List RawRecord)
    → id_of p (names rs) ≡ some id
    → id_of fresh (names rs) ≡ none
    → (if is_payload fresh p then some next else id_of p (names rs)) ≡ some id
new_payload next fresh p id rs h nothing = elim (Bool-cases (is_payload fresh p)) [
  | inl e ↦ let same = same_payload-eq fresh p e in cc
  | inr e ↦ rw e h
]
