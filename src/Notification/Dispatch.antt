-- ===== src/Notification/Dispatch.antt =====
-- The page of outbox rows that `dispatch_pending_notifications` of
-- apps/api/app/workers/notifications.py hands to the queue, each with its attempt. The queue is not
-- modelled.
use procure_delta.Prelude.{
  ℕ, zero, suc, Bool, true, false, not, ◌&&◌, ◌||◌, none, some, List, [], ◌∷◌, ltb, leb, ◌==◌,
  if◌then◌else◌, select, map,
}
use procure_delta.Notification.Schema.{NotificationEvent, NotificationDb, is_terminal}
use procure_delta.Notification.Delivery.{is_later}

-- The rows that wait and are due.
abbrev pub is_due : ℕ → NotificationEvent → Bool
is_due now e = not (is_terminal e.status) && not (is_later e.next_attempt_at now)

-- `order_by(next_attempt_at.asc().nullsfirst(), id)`
abbrev pub comes_before : NotificationEvent → NotificationEvent → Bool
comes_before a b = elim a.next_attempt_at [
  | none ↦ elim b.next_attempt_at [ none ↦ leb a.id b.id | some t ↦ true ]
  | some s ↦ elim b.next_attempt_at [
    | none ↦ false
    | some t ↦ ltb s t || ((s == t) && leb a.id b.id)
  ]
]

abbrev pub insert_due : NotificationEvent → List NotificationEvent → List NotificationEvent
insert_due e [] = e ∷ []
insert_due e (x ∷ xs) = if comes_before e x then e ∷ x ∷ xs else x ∷ insert_due e xs

abbrev pub sort_due : List NotificationEvent → List NotificationEvent
sort_due [] = []
sort_due (x ∷ xs) = insert_due x (sort_due xs)

-- `limit(…)`
abbrev pub first_rows : ℕ → List NotificationEvent → List NotificationEvent
first_rows zero xs = []
first_rows (suc n) [] = []
first_rows (suc n) (x ∷ xs) = x ∷ first_rows n xs

unfoldable pub due_page : ℕ → NotificationDb → List NotificationEvent
due_page now db = first_rows 100 (sort_due (select (is_due now) db.events))

abbrev pub pending_jobs : ℕ → NotificationDb → List (ℕ × ℕ)
pending_jobs now db = map (λ e. (e.id, e.attempt_count)) (due_page now db)
