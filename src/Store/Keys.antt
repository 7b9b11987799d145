-- ===== src/Store/Keys.antt =====
-- The primary keys of the tables of internal/server/schema.go, with their equality.
use token_usage.Prelude.{
  ℕ, ◌≡◌, ◌↔◌, Bool, true, ◌&&◌, Eq, Text, text_beq, text_beq_iff, nat_beq, arith,
}

-- PRIMARY KEY (message_id, request_id) of usage_detail
pub record DetailKey : Type 0 where
  pub message_id : Text
  pub request_id : Text

-- PRIMARY KEY (day, user_id, machine_id, tool, model) of usage_daily, and the same with `lang` of
-- edit_daily: `label` is the last column.
pub record DailyKey : Type 0 where
  pub day : ℕ
  pub user_id : Text
  pub machine_id : Text
  pub tool : Text
  pub label : Text

unfoldable pub detail_key_beq : DetailKey → DetailKey → Bool
detail_key_beq a b = text_beq a.message_id b.message_id && text_beq a.request_id b.request_id

pub detail_key_beq_iff : (a b : DetailKey) → (detail_key_beq a b ≡ true) ↔ (a ≡ b)
unfolding detail_key_beq
detail_key_beq_iff a b =
    ground (arith, text_beq_iff a.message_id b.message_id, text_beq_iff a.request_id b.request_id)

unfoldable pub daily_key_beq : DailyKey → DailyKey → Bool
daily_key_beq a b =
    nat_beq a.day b.day
    && (text_beq a.user_id b.user_id
        && (text_beq a.machine_id b.machine_id
            && (text_beq a.tool b.tool && text_beq a.label b.label)))

pub daily_key_beq_iff : (a b : DailyKey) → (daily_key_beq a b ≡ true) ↔ (a ≡ b)
unfolding daily_key_beq
daily_key_beq_iff a b = ground (
  arith,
  text_beq_iff a.user_id b.user_id,
  text_beq_iff a.machine_id b.machine_id,
  text_beq_iff a.tool b.tool,
  text_beq_iff a.label b.label,
)

instance abbrev pub detail_key_eq : Eq DetailKey
detail_key_eq = record { beq = detail_key_beq; beq_iff = detail_key_beq_iff }

instance abbrev pub daily_key_eq : Eq DailyKey
daily_key_eq = record { beq = daily_key_beq; beq_iff = daily_key_beq_iff }
