-- ===== src/Versioning/History/Redelivery.antt =====
-- A payload that is delivered again to apps/api/app/services/ingest.py, after any ingests and
-- normalizations.
use procure_delta.Prelude.{
  arith, ℕ, suc, ◌≤◌, ◌≡◌, refl, String, Bool, true, false, not, ◌||◌, Option, none, some, List, [],
  ◌∷◌, ◌==◌, str_eq, find, put_row, Bool-cases, Option-cases, inl, inr, eq_refl, ==_refl,
}
use procure_delta.Prelude.Actions.{ok, err}
use procure_delta.Versioning.Schema.{
  RawRecord, NormalizedOpportunityInput, Opportunity, VersionDb, Clocks, has_raw_id, has_version_id,
  has_canonical_key, Versioned,
}
use procure_delta.Versioning.Upsert.{
  RawSourceRecord, same_payload, ingest_raw_record, mark_normalized, keep_version, current_version,
  unchanged, new_opportunity, retract_replaced, place_version, add_version, upsert_known,
  upsert_found, upsert_unprocessed, upsert_raw, upsert_opportunity_version,
}
use procure_delta.Versioning.History.{
  VersionStep, ingesting, normalizing, committed_state, version_step, version_history,
}
use procure_delta.Versioning.History.Payloads.{
  Payload, names, IsKeyed, Falling-mono, id_of, find-payload_at, names-put_row, no_payload,
  find-id_of, id_of-find, new_payload,
}

-- What a normalization that returns writes to the raw records: the mark on its own one.
abbrev Marks : Clocks → RawRecord → VersionDb → Versioned → Type 0
Marks c raw db (ok _, db') =
    (version : Option ℕ) × (db'.raws
      ≡ put_row (λ (x : RawRecord). x.id) (mark_normalized c version raw) db.raws)
    × (db.next_id ≤ db'.next_id)
Marks c raw db (err _, db') = Unit

module _ (c : Clocks) (raw : RawRecord) (n : NormalizedOpportunityInput) where
  place_version-Marks :
      (now_current : Bool) (o : Opportunity) (db : VersionDb)
      → Marks c raw db (place_version now_current c raw n o db)
  place_version-Marks true o db =
      elim (Option-cases (retract_replaced o.current_version_id c.observed_at o.id db.links)) [
        | inl nothing ↦ rw nothing tt
        | inr (links, there) ↦ rw there (some db.next_id, refl, omega arith)
      ]
  place_version-Marks false o db = (some db.next_id, refl, omega arith)

  upsert_known-Marks :
      (o : Opportunity) (db : VersionDb) → Marks c raw db (upsert_known c raw n o db)
  unfolding upsert_known keep_version add_version
  upsert_known-Marks o db = elim (Option-cases (unchanged n (current_version o db))) [
    | inl new ↦ rw new (place_version-Marks _ o db)
    | inr (v, same) ↦ rw same (some v.id, refl, omega arith)
  ]

  grown-Marks :
      (db db' : VersionDb) (r : Versioned)
      → db'.raws ≡ db.raws
      → db.next_id ≤ db'.next_id
      → Marks c raw db' r
      → Marks c raw db r
  grown-Marks db db' (ok o, s) same le (v, rows, le') = (v, rw (← same) rows, omega arith)
  grown-Marks db db' (err e, s) same le m = tt

  upsert_unprocessed-Marks :
      (version : Option ℕ) (db : VersionDb) → Marks c raw db (upsert_unprocessed c raw n version db)
  unfolding upsert_found
  upsert_unprocessed-Marks (some id) db =
      elim (Option-cases (find (has_version_id id) db.versions)) [
        | inl nothing ↦ rw nothing tt
        | inr (v, there) ↦ rw there (some v.id, refl, omega arith)
      ]
  upsert_unprocessed-Marks none db =
      elim (Option-cases (find (has_canonical_key n.canonical_key) db.opportunities)) [
        | inl new ↦ rw new (
            let o = new_opportunity db.next_id n in
            let db' = record db {
              opportunities = o ∷ db.opportunities;
              next_id = suc db.next_id;
            } in
            grown-Marks db db' _ refl (omega arith) (upsert_known-Marks o db'))
        | inr (o, known) ↦ rw known (upsert_known-Marks o db)
      ]

  upsert_raw-Marks : (db : VersionDb) → Marks c raw db (upsert_raw c n (some raw) db)
  upsert_raw-Marks db =
      elim (Bool-cases (
        not (raw.source_id == n.source_id)
        || not (str_eq raw.source_record_id n.source_record_id))) [
          | inl differs ↦ rw differs tt
          | inr same ↦ rw same (upsert_unprocessed-Marks raw.normalized_version_id db)
        ]

-- The keys stay apart, and a payload that stands for a raw record stands for it ever after.
record Stays (db db' : VersionDb) : Type 0 where
  keyed : IsKeyed db'
  same :
      (p : Payload) (id : ℕ)
      → id_of p (names db.raws) ≡ some id
      → id_of p (names db'.raws) ≡ some id

Stays-refl : {db : VersionDb} → IsKeyed db → Stays db db
Stays-refl d = record { keyed = d; same = λ _ _ h. h }

Marks-Stays :
    (c : Clocks) (id : ℕ) (raw : RawRecord) (db : VersionDb) (r : Versioned)
    → IsKeyed db
    → find (has_raw_id id) db.raws ≡ some raw
    → Marks c raw db r
    → Stays db (committed_state db r)
Marks-Stays c id raw db (err e, db') d found m = Stays-refl d
Marks-Stays c id raw db (ok o, db') d found (v, rows, le) =
    let listed = find-payload_at id raw db.raws found in
    let kept = names-put_row db.next_id (mark_normalized c v raw) db.raws d listed in
    record {
      keyed = rw (rows, kept) (Falling-mono db.next_id db'.next_id (names db.raws) le d);
      same = λ p i h. rw (rows, kept) h;
    }

normalizing-Stays :
    (c : Clocks) (id : Option ℕ) (n : NormalizedOpportunityInput) (db : VersionDb)
    → IsKeyed db
    → Stays db (committed_state db (upsert_opportunity_version c id n db))
unfolding upsert_opportunity_version
normalizing-Stays c none n db d = Stays-refl d
normalizing-Stays c (some id) n db d = elim (Option-cases (find (has_raw_id id) db.raws)) [
  | inl nothing ↦ rw nothing (Stays-refl d)
  | inr (raw, found) ↦
      rw found (
        Marks-Stays c id raw db (upsert_raw c n (some raw) db) d found
          (upsert_raw-Marks c raw n db))
]

module _ (now source : ℕ) (checksum : String) (r : RawSourceRecord) (db : VersionDb)
    (d : IsKeyed db) where
  ingesting-Stays : Stays db (ingest_raw_record now source checksum r db).1
  unfolding ingest_raw_record names id_of
  ingesting-Stays =
      elim (Option-cases (find (same_payload source r.source_record_id checksum) db.raws)) [
        | inr (x, there) ↦ rw there (Stays-refl d)
        | inl new ↦ rw new (record {
          keyed = (omega arith, d);
          same = λ p id h.
              new_payload db.next_id (source, r.source_record_id, checksum) p id db.raws h
                (no_payload source r.source_record_id checksum db.raws new);
        })
      ]

  ingest-id_of :
      let (outcome, db') = ingest_raw_record now source checksum r db in
      id_of (source, r.source_record_id, checksum) (names db'.raws) ≡ some outcome.raw_record_id
  unfolding ingest_raw_record names id_of
  ingest-id_of =
      elim (Option-cases (find (same_payload source r.source_record_id checksum) db.raws)) [
        | inr (x, there) ↦ rw there (find-id_of source r.source_record_id checksum x db.raws there)
        | inl new ↦ rw (new, ==_refl source, eq_refl r.source_record_id, eq_refl checksum) refl
      ]

step-Stays : (s : VersionStep) (db : VersionDb) → IsKeyed db → Stays db (version_step s db)
unfolding version_step
step-Stays (ingesting now source checksum r) db d = ingesting-Stays now source checksum r db d
step-Stays (normalizing c id n) db d = normalizing-Stays c id n db d

history-Stays :
    (steps : List VersionStep) (db : VersionDb) → IsKeyed db → Stays db (version_history steps db)
unfolding version_history
history-Stays [] db d = Stays-refl d
history-Stays (s ∷ steps) db d =
    let first = step-Stays s db d in
    let rest = history-Stays steps (version_step s db) first.keyed in
    record { keyed = rest.keyed; same = λ p id h. rest.same p id (first.same p id h) }

-- In tables whose raw records have primary keys of their own: a payload that a source delivers again,
-- whatever comes with it and whatever was ingested and normalized since the first delivery, is
-- answered as not created, with the key of the row that the first delivery left, and nothing is
-- written: the row keeps the state that its normalization gave it.
pub ingest_raw_record_again :
    (now later source : ℕ) (checksum : String) (r r' : RawSourceRecord) (steps : List VersionStep)
    (db : VersionDb)
    → IsKeyed db
    → r'.source_record_id ≡ r.source_record_id
    → let (first, db') = ingest_raw_record now source checksum r db in
      let db'' = version_history steps db' in
      ingest_raw_record later source checksum r' db'' ≡ (
        record { created = false; payload_sha256 = checksum; raw_record_id = first.raw_record_id },
        db'',
      )
ingest_raw_record_again now later source checksum r r' steps db d same =
    let db' = (ingest_raw_record now source checksum r db).1 in
    let listed =
      (history-Stays steps db' (ingesting-Stays now source checksum r db d).keyed).same _ _
        (ingest-id_of now source checksum r db d) in
    let (x, found, id) =
      id_of-find source r.source_record_id checksum _ (version_history steps db').raws listed in
    unfold ingest_raw_record in (rw (same, found) (rw id refl))
