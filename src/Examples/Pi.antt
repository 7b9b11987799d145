-- ===== src/Examples/Pi.antt =====
-- internal/watcher/parsers/pi.go on the names of two session files.
use token_usage.Prelude.{◌≡◌, refl, Text, codes, trim_suffix, has_suffix, has_prefix}
use token_usage.Parsers.Lang.{after_last}
use token_usage.Parsers.Pi.{pi_session_id_from_filename, pi_message_id}
use token_usage.Parsers.Pi.Ids.{pi_message_id-injective}

abbrev first_name : Text
first_name = codes "2026-01-02T03_019d.jsonl"

abbrev renamed : Text
renamed = codes "2026-01-02_019d.jsonl"

session_read : pi_session_id_from_filename first_name ≡ codes "019d"
unfolding pi_session_id_from_filename after_last trim_suffix has_suffix has_prefix
session_read = refl

same_message :
    pi_message_id (pi_session_id_from_filename first_name) (codes "a_b")
    ≡ pi_message_id (pi_session_id_from_filename renamed) (codes "a_b")
unfolding pi_session_id_from_filename after_last trim_suffix has_suffix has_prefix
same_message = refl

pi_message_id-injective_example :
    (pi_session_id_from_filename first_name ≡ pi_session_id_from_filename renamed)
    × (codes "a_b" ≡ codes "a_b")
pi_message_id-injective_example =
    pi_message_id-injective first_name renamed (codes "a_b") (codes "a_b") same_message
