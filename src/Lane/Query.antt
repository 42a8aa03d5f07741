-- ===== src/Lane/Query.antt =====
-- Orders and filters of the queries on transfer_queue_items.
use copy_s3_to_oci.Base.{
  ℕ, Bool, true, false, ◌&&◌, ◌||◌, Option, none, some, ltb, leb, ◌==◌, List, any,
}
use copy_s3_to_oci.Schema.{QueueItem, Db, is_dispatchable, wave_open}

abbrev pub claim_page : ℕ
claim_page = 256

abbrev pub admission_page : ℕ
admission_page = 1000

abbrev pub refresh_page : ℕ
refresh_page = 1000

-- The next column of an `order_by` decides where the earlier one is level.
abbrev pub lex : ℕ → ℕ → Bool → Bool
lex a b later = ltb a b || a == b && later

-- `restore_expires_at.is_(None), restore_expires_at`: no expiry stands last.
abbrev pub expiry_lex : Option ℕ → Option ℕ → Bool → Bool
expiry_lex none none later = later
expiry_lex none (some b) later = false
expiry_lex (some a) none later = true
expiry_lex (some a) (some b) later = lex a b later

-- Expiry, then descending score, then age, then id.
abbrev pub urgent_before : QueueItem → QueueItem → Bool
urgent_before i j =
    expiry_lex i.restore_expires_at j.restore_expires_at
      (lex j.priority_score i.priority_score (lex i.available_at j.available_at (leb i.id j.id)))

-- `retry_at IS NULL OR retry_at <= now`.
abbrev pub retry_due : Option ℕ → ℕ → Bool
retry_due none now = true
retry_due (some at) now = leb at now

-- The filter of `_continuous_item_query` and `_continuous_ready_item_count`.
abbrev pub is_claimable : Db → ℕ → ℕ → QueueItem → Bool
is_claimable db source now i =
    (i.source_id == source)
    && is_dispatchable i.state
    && retry_due i.retry_at now
    && wave_open db i.wave_id

-- `id.in_(rows)`.
abbrev pub is_among : List QueueItem → QueueItem → Bool
is_among rows i = any (λ j. j.id == i.id) rows
