-- ===== src/Billing/Contract/Authentic.antt =====
-- What `verify_signature` of apps/api/app/billing/contract.py ensures of a header that it accepts.
use procure_delta.Prelude.{
  arith, ℕ, ◌+◌, ◌*◌, ◌≡◌, ◌≤◌, ◌⊎◌, refl, sym, ap, ◌∙◌, inl, inr, String, Bool, true, false, not,
  ◌&&◌, Option, none, some, List, [], ◌∷◌, ◌++◌, ◌==◌, ==→eq, leb, length, Bool-cases, Option-cases,
}
use procure_delta.Billing.Contract.{codes}
use procure_delta.Billing.Contract.Event.{max_body_bytes}
use procure_delta.Billing.Contract.Signature.{
  max_signature_length, same_codes, split_commas, partition, is_hex_digest, lower, is_timestamp,
  decimal, Scanned, t_key, v1_key, scan_pair, is_stale, any_match, strip, scan, expected_digest,
  verify_timestamps, verify_scanned, verify_signature,
}

-- Some component satisfies P.
abbrev pub Any : (List ℕ → Type 0) → List (List ℕ) → Type 0
Any P [] = ⊥
Any P (x ∷ xs) = P x ⊎ Any P xs

both : (a b : Bool) → (a && b) ≡ true → (a ≡ true) × (b ≡ true)
both a b e = ground arith

not-true : (b : Bool) → not b ≡ true → b ≡ false
not-true b e = ground arith

same_codes_lem : (cs ds : List ℕ) → same_codes cs ds ≡ true → cs ≡ ds
same_codes_lem [] [] e = refl
same_codes_lem [] (d ∷ ds) e = cc
same_codes_lem (c ∷ cs) [] e = cc
same_codes_lem (c ∷ cs) (d ∷ ds) e =
    let (first, rest) = both (c == d) (same_codes cs ds) e in
    rw (==→eq c d first, same_codes_lem cs ds rest) refl

module _ (is_space : ℕ → Bool) where
  -- The component is `key=value`.
  abbrev pub Names : List ℕ → List ℕ → List ℕ → Type 0
  Names key value component = partition (strip is_space component) ≡ some (key, value)

  -- The values of one key, in the order of the header.
  abbrev pub value_if : Bool → List ℕ → List (List ℕ) → List (List ℕ)
  value_if true v vs = v ∷ vs
  value_if false v vs = vs

  abbrev pub value_of : List ℕ → Option (List ℕ × List ℕ) → List (List ℕ) → List (List ℕ)
  value_of key none vs = vs
  value_of key (some (k, v)) vs = value_if (same_codes k key) v vs

  abbrev pub values : List ℕ → List (List ℕ) → List (List ℕ)
  values key [] = []
  values key (c ∷ cs) = value_of key (partition (strip is_space c)) (values key cs)

  -- The component carries the signature.
  abbrev pub Signs : List ℕ → List ℕ → Type 0
  Signs expected component =
      (s : List ℕ) × Names v1_key s component × (is_hex_digest s ≡ true) × (lower s ≡ expected)

  append_one :
      (xs : List (List ℕ)) (y : List ℕ) (ys : List (List ℕ))
      → (xs ++ (y ∷ [])) ++ ys ≡ xs ++ (y ∷ ys)
  append_one [] y ys = refl
  append_one (x ∷ xs) y ys = ap (λ zs. x ∷ zs) (append_one xs y ys)

  append_none : (xs : List (List ℕ)) → xs ++ [] ≡ xs
  append_none [] = refl
  append_none (x ∷ xs) = ap (λ zs. x ∷ zs) (append_none xs)

  match_last :
      (expected : List ℕ) (xs : List (List ℕ)) (y : List ℕ)
      → any_match expected (xs ++ (y ∷ [])) ≡ true
      → (any_match expected xs ≡ true) ⊎ (same_codes expected y ≡ true)
  match_last expected [] y e = ground arith
  match_last expected (x ∷ xs) y e = elim (Bool-cases (same_codes expected x)) [
    | inl here ↦ inl (rw here refl)
    | inr other ↦ rw other (match_last expected xs y (rw other at e))
  ]

  -- What one component adds.
  pair_timestamps :
      (key v : List ℕ) (found : Scanned) (vs : List (List ℕ))
      → (scan_pair key v found).timestamps ++ vs
        ≡ found.timestamps ++ value_if (same_codes key t_key) v vs
  pair_timestamps key v found vs = elim (Bool-cases (same_codes key t_key)) [
    | inl t ↦ rw t (append_one found.timestamps v vs)
    | inr other ↦ elim (Bool-cases (same_codes key v1_key && is_hex_digest v)) [
      | inl s ↦ rw (other, s) refl
      | inr neither ↦ rw (other, neither) refl
    ]
  ]

  pair_match :
      (expected key v component : List ℕ) (found : Scanned)
      → Names key v component
      → any_match expected (scan_pair key v found).signatures ≡ true
      → (any_match expected found.signatures ≡ true) ⊎ Signs expected component
  pair_match expected key v component found named e = elim (Bool-cases (same_codes key t_key)) [
    | inl t ↦ inl (rw t at e)
    | inr other ↦ elim (Bool-cases (same_codes key v1_key && is_hex_digest v)) [
      | inr neither ↦ inl (rw (other, neither) at e)
      | inl s ↦
          let (k, hex) = both (same_codes key v1_key) (is_hex_digest v) s in
          let key' : key ≡ v1_key = same_codes_lem key v1_key k in
          elim (match_last expected found.signatures (lower v) (rw (other, s) at e)) [
            | inl old ↦ inl old
            | inr new ↦
                inr (v, rw named (rw key' refl), hex, sym (same_codes_lem expected (lower v) new))
          ]
    ]
  ]

  scan_lem :
      (expected : List ℕ) (components : List (List ℕ)) (found last : Scanned)
      → scan is_space components found ≡ some last
      → (last.timestamps ≡ found.timestamps ++ values t_key components)
        × (any_match expected last.signatures ≡ true
            → (any_match expected found.signatures ≡ true) ⊎ Any (Signs expected) components)
  unfolding scan
  scan_lem expected [] found last e =
      let same : found ≡ last = cc in
      (rw (← same) (sym (append_none found.timestamps)), λ m. inl (rw same m))
  scan_lem expected (c ∷ cs) found last e = elim (Option-cases (partition (strip is_space c))) [
    | inl nothing ↦ let bad = rw (scan, nothing) at e in cc
    | inr ((key, v), named) ↦
        let (times, matches) =
          scan_lem expected cs (scan_pair key v found) last (rw (scan, named) at e) in
        (
          rw named (times ∙ pair_timestamps key v found (values t_key cs)),
          λ m. elim (matches m) [
            | inr later ↦ inr (inr later)
            | inl early ↦ elim (pair_match expected key v c found named early) [
              | inl old ↦ inl old
              | inr here ↦ inr (inl here)
            ]
          ],
        )
  ]

-- The header names one timestamp, of at most twelve digits and within 300 seconds of now, and one of
-- its components carries the digest, under the secret, of the timestamp and the body.
pub record IsAuthentic (is_space : ℕ → Bool) (hmac : String → List ℕ → List ℕ)
    (body header : List ℕ) (secret : String) (now : ℕ) : Type 0 where
  pub body_bound : length body ≤ max_body_bytes
  pub header_bound : length header ≤ max_signature_length
  pub timestamp : List ℕ
  pub only : values is_space t_key (split_commas header) ≡ timestamp ∷ []
  pub digits : is_timestamp timestamp ≡ true
  pub not_early : decimal 0 timestamp * 1000000 ≤ now + 300000000
  pub not_late : now ≤ decimal 0 timestamp * 1000000 + 300000000
  pub signed :
      Any (Signs is_space (expected_digest hmac secret timestamp body)) (split_commas header)

module _ (is_space : ℕ → Bool) (hmac : String → List ℕ → List ℕ) (body header : List ℕ)
    (secret : String) (now : ℕ) where
  in_time :
      (t : ℕ)
      → is_stale now t ≡ false
      → (t * 1000000 ≤ now + 300000000) × (now ≤ t * 1000000 + 300000000)
  in_time t e = (ground arith, ground arith)

  abbrev found : Option Scanned
  found = scan is_space (split_commas header) (record { timestamps = []; signatures = [] })

  verify_timestamps_lem :
      (timestamps signatures : List (List ℕ))
      → verify_timestamps hmac body secret now timestamps signatures ≡ true
      → (t : List ℕ) × (timestamps ≡ t ∷ [])
        × (is_timestamp t ≡ true)
        × (is_stale now (decimal 0 t) ≡ false)
        × (any_match (expected_digest hmac secret t body) signatures ≡ true)
  verify_timestamps_lem [] signatures e = cc
  verify_timestamps_lem (t ∷ t' ∷ ts) signatures e = cc
  verify_timestamps_lem (t ∷ []) signatures e =
      let (early, matches) =
        both (is_timestamp t && not (is_stale now (decimal 0 t)))
          (any_match (expected_digest hmac secret t body) signatures) e in
      let (digits, fresh) = both (is_timestamp t) (not (is_stale now (decimal 0 t))) early in
      (t, refl, digits, not-true (is_stale now (decimal 0 t)) fresh, matches)

  verify_scanned_lem :
      (found : Option Scanned)
      → verify_scanned hmac body secret now found ≡ true
      → (last : Scanned) × (found ≡ some last)
        × (verify_timestamps hmac body secret now last.timestamps last.signatures ≡ true)
  verify_scanned_lem none e = cc
  verify_scanned_lem (some last) e = (last, refl, e)

  -- A header that is accepted is authentic.
  pub verify_signature-IsAuthentic :
      verify_signature hmac is_space body header secret now ≡ true
      → IsAuthentic is_space hmac body header secret now
  unfolding verify_signature
  verify_signature-IsAuthentic e =
      let body_fits = leb (length body) max_body_bytes in
      let present = leb 1 (length header) in
      let header_fits = leb (length header) max_signature_length in
      let (h, scanned) =
        both (body_fits && present && header_fits && leb 1 (length (codes secret)))
          (verify_scanned hmac body secret now found) e in
      let (h1, _) = both (body_fits && present && header_fits) (leb 1 (length (codes secret))) h in
      let (h2, length_test) = both (body_fits && present) header_fits h1 in
      let (body_test, _) = both body_fits present h2 in
      let (last, there, verified) = verify_scanned_lem found scanned in
      let (t, one, digits, fresh, matches) =
        verify_timestamps_lem last.timestamps last.signatures verified in
      let (times, signed) =
        scan_lem is_space (expected_digest hmac secret t body) (split_commas header)
          (record { timestamps = []; signatures = [] }) last there in
      let (early, late) = in_time (decimal 0 t) fresh in
      record {
        body_bound = ground arith;
        header_bound = ground arith;
        timestamp = t;
        only = sym times ∙ one;
        digits = digits;
        not_early = early;
        not_late = late;
        signed = elim (signed matches) [ inl nothing ↦ cc | inr some_component ↦ some_component ];
      }
