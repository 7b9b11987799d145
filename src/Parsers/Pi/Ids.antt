-- ===== src/Parsers/Pi/Ids.antt =====
-- The message ids of pi records: one for each session and line.
use token_usage.Prelude.{
  inl, inr, ℕ, ◌≡◌, [], ◌∷◌, ◌++◌, Text, codes, nat_beq, arith, Lacks, Bool-cases, trim_suffix,
  split_once,
}
use token_usage.Parsers.Lang.{after_last}
use token_usage.Parsers.Pi.{pi_session_id_from_filename, pi_message_id}

Lacks-append : (b : ℕ) (s t : Text) → Lacks b s → Lacks b t → Lacks b (s ++ t)
Lacks-append b [] t h k = k
Lacks-append b (a ∷ s) t (ha, hs) k = (ha, Lacks-append b s t hs k)

after_last-Lacks : (b : ℕ) (s acc : Text) → Lacks b acc → Lacks b (after_last b s acc)
unfolding after_last
after_last-Lacks b [] acc h = h
after_last-Lacks b (a ∷ s) acc h = elim (Bool-cases (nat_beq a b)) [
  | inl e ↦ rw e (after_last-Lacks b s [] tt)
  | inr e ↦
      rw e (
        after_last-Lacks b s (acc ++ a ∷ [])
          (Lacks-append b acc (a ∷ []) h (ground (arith, e), tt)))
]

-- Two records of pi transcripts have the same message id only if they are of one session and of one
-- line id: the session that a file's name gives has no underscore.
pub pi_message_id-injective :
    (name name' id id' : Text)
    → pi_message_id (pi_session_id_from_filename name) id
      ≡ pi_message_id (pi_session_id_from_filename name') id'
    → (pi_session_id_from_filename name ≡ pi_session_id_from_filename name') × (id ≡ id')
unfolding pi_session_id_from_filename
pi_message_id-injective name name' id id' e =
    split_once b'_' (pi_session_id_from_filename name) (pi_session_id_from_filename name') id id'
      (after_last-Lacks b'_' (trim_suffix name (codes ".jsonl")) [] tt)
      (after_last-Lacks b'_' (trim_suffix name' (codes ".jsonl")) [] tt) (cc)
