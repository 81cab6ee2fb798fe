-- ===== src/Notification/Schedule/Rows.antt =====
-- The rows of the outbox that a step of apps/api/app/workers/notifications.py writes.
use procure_delta.Prelude.{
  arith, ℕ, suc, ◌≤◌, ◌<◌, ◌≡◌, refl, ◌∙◌, Bool, true, false, List, [], ◌∷◌, ◌==◌, leb,
  if◌then◌else◌, is_some, All, Bool-cases, inl, inr,
}
use procure_delta.Notification.Schema.{
  Status, sending, sent, NotificationEvent, NotificationDb, put_event,
}
use procure_delta.Notification.Delivery.{
  DeliveryResult, finished, finish, claimed, max_attempts, is_final,
}

abbrev pub count : ℕ → List ℕ → ℕ
count k [] = 0
count k (x ∷ xs) = if x == k then suc (count k xs) else count k xs

abbrev pub is_sending : Status → Bool
is_sending sending = true
is_sending _ = false

abbrev pub is_sent : Status → Bool
is_sent sent = true
is_sent _ = false

-- An event, against the sends so far and the next primary key.
pub record IsSound (sends : List ℕ) (next : ℕ) (e : NotificationEvent) : Type 0 where
  pub counted : count e.id sends ≤ e.attempt_count
  pub limited : e.attempt_count ≤ 3
  pub known : e.id < next
  -- It holds a lease just while it is being sent.
  pub leased_while_sending : is_some e.lease_token ≡ is_sending e.status
  -- It has a time of delivery just when it was sent.
  pub dated_when_sent : is_some e.sent_at ≡ is_sent e.status

pub put_event-All :
    (P Q : NotificationEvent → Type 0) (e : NotificationEvent)
    → Q e
    → ((x : NotificationEvent) → P x → (x.id == e.id) ≡ false → Q x)
    → (xs : List NotificationEvent) → All P xs
    → All Q (put_event e xs)
put_event-All P Q e this other [] h = tt
put_event-All P Q e this other (x ∷ xs) h = elim (Bool-cases (x.id == e.id)) [
  | inl a ↦ rw a (this, put_event-All P Q e this other xs h.1)
  | inr a ↦ rw a (other x h.0 a, put_event-All P Q e this other xs h.1)
]

module _ (sends : List ℕ) (next : ℕ) where
  finished-IsSound :
      (now jitter : ℕ) (e : NotificationEvent) (result : DeliveryResult)
      → IsSound sends next e
      → is_sent e.status ≡ false
      → IsSound sends next (finished now jitter e result)
  unfolding finished
  finished-IsSound now jitter e result v unsent = elim (Bool-cases result.success) [
    | inl done ↦ rw done (record {
      counted = v.counted;
      limited = v.limited;
      known = v.known;
      leased_while_sending = refl;
      dated_when_sent = refl;
    })
    | inr bad ↦ elim (Bool-cases (is_final e result)) [
      | inl last ↦
          rw (bad, last)
            (record {
              counted = v.counted;
              limited = v.limited;
              known = v.known;
              leased_while_sending = refl;
              dated_when_sent = v.dated_when_sent ∙ unsent;
            })
      | inr more ↦
          rw (bad, more)
            (record {
              counted = v.counted;
              limited = v.limited;
              known = v.known;
              leased_while_sending = refl;
              dated_when_sent = v.dated_when_sent ∙ unsent;
            })
    ]
  ]

  pub finish-events :
      (now jitter : ℕ) (e : NotificationEvent) (result : DeliveryResult) (db : NotificationDb)
      → IsSound sends next e
      → is_sent e.status ≡ false
      → All (IsSound sends next) db.events
      → All (IsSound sends next) (finish now jitter e result db).events
  unfolding finish
  finish-events now jitter e result db v unsent h =
      put_event-All (IsSound sends next) (IsSound sends next) (finished now jitter e result)
        (finished-IsSound now jitter e result v unsent) (λ x p _. p) db.events h

  pub claimed-IsSound :
      (now token : ℕ) (e : NotificationEvent) (sends' : List ℕ)
      → IsSound sends next e
      → count e.id sends' ≤ suc (count e.id sends)
      → leb max_attempts e.attempt_count ≡ false
      → is_sent e.status ≡ false
      → IsSound sends' next (claimed now token e)
  claimed-IsSound now token e sends' v more few unsent = record {
    counted = ground (arith, v.counted);
    limited = ground arith;
    known = v.known;
    leased_while_sending = refl;
    dated_when_sent = v.dated_when_sent ∙ unsent;
  }

  -- The rows after an attempt has begun.
  pub claimed-events :
      (now token : ℕ) (e : NotificationEvent) (sends' : List ℕ) (events : List NotificationEvent)
      → IsSound sends' next (claimed now token e)
      → ((k : ℕ) → (k == e.id) ≡ false → count k sends' ≡ count k sends)
      → All (IsSound sends next) events
      → All (IsSound sends' next) (put_event (claimed now token e) events)
  claimed-events now token e sends' events v same h =
      put_event-All (IsSound sends next) (IsSound sends' next) (claimed now token e) v
        (λ x p other. record {
          counted = rw (same x.id other) p.counted;
          limited = p.limited;
          known = p.known;
          leased_while_sending = p.leased_while_sending;
          dated_when_sent = p.dated_when_sent;
        })
        events h
