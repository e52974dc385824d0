-- ===== src/Models/Deliveries.antt =====
-- The webhook_deliveries table of internal/models/store.go, which holds off replays. It is a
-- function on its primary key; times are in seconds.
use winify.Common.{
  ℕ, ◌+◌, ◌≡◌, ap, ◌∙◌, Bool, true, false, ◌&&◌, Option, none, some, arith, ltb, if◌then◌else◌,
  Text, text_eq, text_eq_refl,
}

pub record DeliveryKey : Type 0 where
  pub provider : Text
  pub project_id : Text
  pub delivery_id : Text

pub record Delivery : Type 0 where
  pub commit_sha : Text
  pub received_at : ℕ

abbrev pub same_key : DeliveryKey → DeliveryKey → Bool
same_key j k =
    text_eq j.provider k.provider
    && text_eq j.project_id k.project_id
    && text_eq j.delivery_id k.delivery_id

abbrev pub Deliveries : Type 0
Deliveries = DeliveryKey → Option Delivery

-- Thirty days, and ten minutes.
abbrev pub retention : ℕ
retention = 2592000

abbrev pub replay_window : ℕ
replay_window = 600

abbrev pub unless_old : ℕ → Option Delivery → Option Delivery
unless_old now none = none
unless_old now (some d) = if ltb (d.received_at + retention) now then none else some d

abbrev pub purge : ℕ → Deliveries → Deliveries
purge now t k = unless_old now (t k)

abbrev pub put : DeliveryKey → Delivery → Deliveries → Deliveries
put k d t j = if same_key k j then some d else t j

abbrev pub is_fresh : ℕ → Option Delivery → Bool
is_fresh now none = true
is_fresh now (some d) = ltb (d.received_at + replay_window) now

-- The table behind the DELETE, which may fail unnoticed.
abbrev pub after_purge : Bool → ℕ → Deliveries → Deliveries
after_purge purges now t = if purges then purge now t else t

-- RecordWebhookDelivery, when the INSERT succeeds: the boolean says whether the row was written.
unfoldable pub record_webhook_delivery :
    Bool → ℕ → DeliveryKey → Text → Deliveries → Deliveries × Bool
record_webhook_delivery purges now k commit_sha t =
    let t' = after_purge purges now t in
    if is_fresh now (t' k)
    then (put k (record { commit_sha = commit_sha; received_at = now }) t', true)
    else (t', false)

unfoldable pub delete_webhook_delivery : DeliveryKey → Deliveries → Deliveries
delete_webhook_delivery k t j = if same_key k j then none else t j

pub same_key_refl : (k : DeliveryKey) → same_key k k ≡ true
same_key_refl k =
    ground (arith, text_eq_refl k.provider, text_eq_refl k.project_id, text_eq_refl k.delivery_id)

is_fresh-purge :
    (purges : Bool) (now : ℕ) (t : Deliveries) (k : DeliveryKey)
    → is_fresh now (after_purge purges now t k) ≡ is_fresh now (t k)
is_fresh-purge true now t k = go (t k)
  where
    go : (o : Option Delivery) → is_fresh now (unless_old now o) ≡ is_fresh now o
    go none = ground arith
    go (some d) = ground arith
is_fresh-purge false now t k = ground arith

-- Whether a delivery is accepted depends on its row alone.
pub record-accepts :
    (purges : Bool) (now : ℕ) (k : DeliveryKey) (c : Text) (t : Deliveries)
    → (record_webhook_delivery purges now k c t).1 ≡ is_fresh now (t k)
unfolding record_webhook_delivery
record-accepts purges now k c t = ground (arith, is_fresh-purge purges now t k)

-- The row of an accepted delivery.
pub accepted_row :
    (p : Bool) (now : ℕ) (k : DeliveryKey) (c : Text) (t : Deliveries)
    → (record_webhook_delivery p now k c t).1 ≡ true
    → (record_webhook_delivery p now k c t).0 k
      ≡ some (record { commit_sha = c; received_at = now })
unfolding record_webhook_delivery
accepted_row p now k c t h = ground (arith, same_key_refl k)

-- A delivery that was accepted is accepted again exactly when more than ten minutes have passed,
-- whatever commit it names and whether or not old rows are purged.
pub replay_accepted_iff :
    (p p' : Bool) (now later : ℕ) (k : DeliveryKey) (c c' : Text) (t : Deliveries)
    → (record_webhook_delivery p now k c t).1 ≡ true
    → (record_webhook_delivery p' later k c' (record_webhook_delivery p now k c t).0).1
      ≡ ltb (now + replay_window) later
replay_accepted_iff p p' now later k c c' t h =
    let t' = (record_webhook_delivery p now k c t).0 in
    record-accepts p' later k c' t' ∙ ap (is_fresh later) (accepted_row p now k c t h)

-- A delivery that was released is accepted at once.
pub released_is_accepted :
    (p : Bool) (now : ℕ) (k : DeliveryKey) (c : Text) (t : Deliveries)
    → (record_webhook_delivery p now k c (delete_webhook_delivery k t)).1 ≡ true
unfolding delete_webhook_delivery
released_is_accepted p now k c t =
    ground (arith, record-accepts p now k c (delete_webhook_delivery k t), same_key_refl k)
