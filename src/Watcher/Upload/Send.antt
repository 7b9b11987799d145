-- ===== src/Watcher/Upload/Send.antt =====
-- Sending one batch: what an answer without an error means, and which errors are rejections.
use token_usage.Prelude.{
  ◌⊎◌, inl, inr, ◌↔◌, ℕ, zero, suc, ◌+◌, ◌/◌, ◌%◌, ◌<◌, ◌≤◌, ◌≡◌, refl, ap, Bool, true, false, ◌||◌,
  some, [], ◌∷◌, ◌++◌, arith, ltb, nat_beq, Bool-cases, Option-cases, Text, text_eq, ◌==◌, length,
  has_prefix, codes, text_beq,
}
use token_usage.Types.{IngestRequest, IngestResponse}
use token_usage.Parsers.Std.{itoa, itoa_from}
use token_usage.Watcher.Upload.{
  answer, Outside, SendResult, Sent, Uploader, World, reply_result, post, send_request, sent,
  failed, is_http_rejection,
}
use token_usage.Watcher.Upload.Durable.{
  IsClocked, IsFresh, Keeps, Durable, Keeps-refl, Keeps-trans, post-Keeps, post-Delivered,
  send_spooled-Keeps,
}

pub Sent-cases : (s : Sent) → ((res : SendResult) × (s ≡ sent res)) ⊎ ((e : Text) × (s ≡ failed e))
Sent-cases (sent res) = inl (res, refl)
Sent-cases (failed e) = inr (e, refl)

module _ (o : Outside) (c : IsClocked o) where
  -- A request is answered without an error only if its batch is durable: the server took it, or it is
  -- in the spool folder. Whatever the answer, no batch that was durable is lost. Spooled files are to be
  -- older than the clock.
  pub send_request-Durable :
      (u : Uploader) (w : World o) (req : IngestRequest) (edits_batch : Bool)
      → IsFresh o w
      → let v = send_request o u w req edits_batch in
        Keeps o w v.0
        × ((res : SendResult)
            → v.1 ≡ sent res
            → (b : o.Body) × (o.marshal req ≡ some b) × Durable o v.0 b)
  unfolding send_request
  send_request-Durable u w req edits_batch h = elim (Option-cases (o.marshal req)) [
    | inl e ↦ rw (e, send_request) (Keeps-refl o w h, (λ res k. ground (arith, k)))
    | inr (b, e) ↦
        rw (e, send_request)
          (elim (Sent-cases (post o w b).1) [
            | inl (res, k) ↦
                rw k (post-Keeps o c w b h, (λ _ _. (b, refl, inl (post-Delivered o w b res k))))
            | inr (err, k) ↦
                let first = post-Keeps o c w b h in
                let next = send_spooled-Keeps o c (post o w b).0 b first.fresh u err in
                rw k (Keeps-trans o w _ _ first next.0, (λ res l. (b, refl, inr (next.1 res l))))
          ])
  ]

itoa_from_three :
    (f n : ℕ)
    → 100 ≤ n
    → n < 1000
    → itoa_from (suc (suc (suc f))) n []
      ≡ (b'0' + n / 100) ∷ (b'0' + n / 10 % 10) ∷ (b'0' + n % 10) ∷ []
unfolding itoa_from
itoa_from_three f n h k =
    let first : ltb n 10 ≡ false = ground arith in
    let next : ltb (n / 10) 10 ≡ false = ground arith in
    let last : ltb (n / 10 / 10) 10 ≡ true = ground arith in
    let same : n / 10 / 10 ≡ n / 100 = omega arith in rw (first, next, last, same) refl

itoa_three :
    (n : ℕ)
    → 100 ≤ n
    → n < 1000
    → itoa n ≡ (b'0' + n / 100) ∷ (b'0' + n / 10 % 10) ∷ (b'0' + n % 10) ∷ []
unfolding itoa
itoa_three zero h k = absurd (omega arith)
itoa_three (suc zero) h k = absurd (omega arith)
itoa_three (suc (suc f)) h k = itoa_from_three f (suc (suc f)) h k

abbrev is_rejected : ℕ → ℕ → ℕ → Bool
is_rejected a b c =
    let code = a ∷ b ∷ c ∷ [] in
    (code == codes "400")
    || (code == codes "404")
    || (code == codes "410")
    || (code == codes "413")
    || (code == codes "422")

is_rejected_iff :
    (n : ℕ)
    → n < 1000
    → (is_rejected (b'0' + n / 100) (b'0' + n / 10 % 10) (b'0' + n % 10) ≡ true)
      ↔ ((n ≡ 400) ⊎ ((n ≡ 404) ⊎ ((n ≡ 410) ⊎ ((n ≡ 413) ⊎ (n ≡ 422)))))
unfolding text_beq
is_rejected_iff n k = ground arith

abbrev error_text : Sent → Text
error_text (sent res) = []
error_text (failed err) = err

rejection_code :
    (a b c : ℕ) (rest : Text)
    → is_http_rejection (codes "server " ++ a ∷ b ∷ c ∷ rest) ≡ is_rejected a b c
unfolding is_http_rejection has_prefix
rejection_code a b c rest =
    let long : ltb (length (codes "server " ++ a ∷ b ∷ c ∷ rest)) 10 ≡ false = ground arith in
    rw long refl

-- The error that an answer outside 2xx with a status of three digits gives is a rejection for exactly
-- the statuses 400, 404, 410, 413 and 422, whatever the body says.
is_http_rejection-status :
    (status : ℕ) (body err : Text) (ack : IngestResponse)
    → 100 ≤ status
    → status < 1000
    → reply_result (answer status body ack) ≡ failed err
    → (is_http_rejection err ≡ true)
      ↔ ((status ≡ 400) ⊎ ((status ≡ 404) ⊎ ((status ≡ 410) ⊎ ((status ≡ 413) ⊎ (status ≡ 422)))))
unfolding reply_result
is_http_rejection-status status body err ack h k e = elim (Bool-cases (nat_beq (status / 100) 2)) [
  | inl f ↦ absurd (ground (arith, rw f at e))
  | inr f ↦
      let text = ap error_text (rw f at e) in
      rw
        (
          ← text,
          itoa_three status h k,
          rejection_code (b'0' + status / 100) (b'0' + status / 10 % 10) (b'0' + status % 10) _,
        )
        (is_rejected_iff status k)
]
