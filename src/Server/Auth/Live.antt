-- ===== src/Server/Auth/Live.antt =====
-- The life of a key: from its creation until its prefix is revoked, and no longer.
use token_usage.Prelude.{
  inl, inr, ℕ, ◌≡◌, refl, Bool, true, false, not, ◌&&◌, ◌||◌, Option, none, some, List, [], ◌∷◌,
  ◌++◌, append-nil, keep, Text, text_eq, text_beq_iff, ◌==◌, has_prefix, arith, if◌then◌else◌,
  Option-cases,
}
use token_usage.Server.Auth.{
  ApiKey, Accounts, owner, invalid_key, Shown, key_prefix_text, is_live, has_hash, update_keys,
  cut_prefix, is_match, revoke_row, touch, revoke, create_user, hash_key, new_api_key, is_presented,
  first_owner, resolve, create_api_key, new_row,
}

-- The live keys with one hash: whose they are, and their prefixes.
unfoldable live : Text → List ApiKey → List (Text × Text)
live h [] = []
live h (k ∷ keys) =
    let rest = live h keys in
    if k.key_hash == h && is_live k then (k.user_id, k.key_prefix) ∷ rest else rest

abbrev off : Text → (Text × Text) → Bool
off p o = not (p == o.1)

live-append :
    (h : Text) (keys : List ApiKey) (k : ApiKey)
    → live h (keys ++ k ∷ []) ≡ live h keys ++ live h (k ∷ [])
unfolding live
live-append h [] k = refl
live-append h (j ∷ keys) k = ground (arith, live-append h keys k)

live-has_hash : (h : Text) (keys : List ApiKey) → has_hash h keys ≡ false → live h keys ≡ []
unfolding live has_hash
live-has_hash h [] e = refl
live-has_hash h (k ∷ keys) e = ground (arith, live-has_hash h keys)

has_hash-append :
    (h : Text) (keys : List ApiKey) (k : ApiKey)
    → has_hash h (keys ++ k ∷ []) ≡ (has_hash h keys || (k.key_hash == h))
unfolding has_hash
has_hash-append h [] k = ground arith
has_hash-append h (j ∷ keys) k = ground (arith, has_hash-append h keys k)

live-touch :
    (h : Text) (p : ApiKey → Bool) (now : ℕ) (keys : List ApiKey)
    → live h (update_keys p (touch now) keys) ≡ live h keys
unfolding live update_keys
live-touch h p now [] = refl
live-touch h p now (k ∷ keys) = ground (arith, live-touch h p now keys)

live-revoke_row :
    (h p : Text) (now : ℕ) (keys : List ApiKey)
    → live h (update_keys (is_match p) (revoke_row now) keys) ≡ keep (off p) (live h keys)
unfolding live update_keys
live-revoke_row h p now [] = refl
live-revoke_row h p now (k ∷ keys) =
    ground (
      arith,
      text_beq_iff k.key_prefix p,
      text_beq_iff p k.key_prefix,
      live-revoke_row h p now keys,
    )

has_hash-update_keys :
    (h : Text) (p : ApiKey → Bool) (f : ApiKey → ApiKey) (keys : List ApiKey)
    → ((k : ApiKey) → (f k).key_hash ≡ k.key_hash)
    → has_hash h (update_keys p f keys) ≡ has_hash h keys
unfolding has_hash update_keys
has_hash-update_keys h p f [] same = refl
has_hash-update_keys h p f (k ∷ keys) same =
    ground (arith, same k, has_hash-update_keys h p f keys same)

module _ (sha256 : Text → List ℕ) where
  -- The first row that a presented key selects is the first of its live ones.
  first_owner-live :
      (raw : Text) (keys : List ApiKey)
      → first_owner sha256 (keep (is_presented sha256 raw) keys)
        ≡ elim (live (hash_key sha256 raw) keys) [ [] ↦ invalid_key | o ∷ os ↦ owner o.0 ]
  unfolding live
  first_owner-live raw [] = refl
  first_owner-live raw (k ∷ keys) = ground (arith, first_owner-live raw keys)

  live-create_api_key :
      (h : Text) (fault : Bool) (now : ℕ) (random : Option (List ℕ)) (id name : Text) (a : Accounts)
      → has_hash h a.keys ≡ true
      → (live h (create_api_key sha256 fault now random id name a).1.keys ≡ live h a.keys)
        × (has_hash h (create_api_key sha256 fault now random id name a).1.keys ≡ true)
  unfolding create_api_key
  live-create_api_key h fault now random id name a e =
      elim (Option-cases (new_api_key sha256 random)) [
        | inl bad ↦ rw (create_api_key, bad) (refl, e)
        | inr (new, ok) ↦
            unfold live in
            ground (
              arith,
              ok,
              live-append h a.keys (new_row sha256 now id name new),
              has_hash-append h a.keys (new_row sha256 now id name new),
              append-nil (live h a.keys),
              text_beq_iff (hash_key sha256 new.raw) h,
            )
      ]

  new_api_key-has_prefix :
      (random : Option (List ℕ)) {new : Shown}
      → new_api_key sha256 random ≡ some new
      → has_prefix new.raw key_prefix_text ≡ true
  unfolding new_api_key has_prefix
  new_api_key-has_prefix none e = ground arith
  new_api_key-has_prefix (some buf) e = ground arith

  -- What a key that was created is worth at once.
  live-created :
      (fault : Bool) (now : ℕ) (random : Option (List ℕ)) (id name : Text) (a : Accounts)
      {new : Shown}
      → (create_api_key sha256 fault now random id name a).0 ≡ some new
      → (live (hash_key sha256 new.raw) (create_api_key sha256 fault now random id name a).1.keys
          ≡ (id, new.prefix) ∷ [])
        × (has_hash
              (hash_key sha256 new.raw)
              (create_api_key sha256 fault now random id name a).1.keys
            ≡ true)
        × (has_prefix new.raw key_prefix_text ≡ true)
  unfolding create_api_key
  live-created fault now random id name a {new} e =
      elim (Option-cases (new_api_key sha256 random)) [
        | inl bad ↦ ground (arith, bad)
        | inr (made, ok) ↦
            unfold live in
            ground (
              arith,
              ok,
              live-append (hash_key sha256 made.raw) a.keys (new_row sha256 now id name made),
              live-has_hash (hash_key sha256 made.raw) a.keys,
              has_hash-append (hash_key sha256 made.raw) a.keys (new_row sha256 now id name made),
              new_api_key-has_prefix random ok,
              text_beq_iff (hash_key sha256 made.raw) (hash_key sha256 made.raw),
            )
      ]

-- One call of the store, with what the environment contributes to it.
pub data Call : Type 0 where
  new_user : (fault : Bool) (now : ℕ) (id email : Text) → Call
  new_key : (fault : Bool) (now : ℕ) (random : Option (List ℕ)) (id name : Text) → Call
  present : (fault : Bool) (now : ℕ) (raw : Text) → Call
  withdraw : (fault : Bool) (now : ℕ) (prefix : Text) → Call

-- The prefix of a key reaches the store in a revocation.
abbrev withdraws : Text → Call → Bool
withdraws p (new_user fault now id email) = false
withdraws p (new_key fault now random id name) = false
withdraws p (present fault now raw) = false
withdraws p (withdraw fault now prefix) = not fault && (cut_prefix prefix == p)

abbrev pub any_withdraws : Text → List Call → Bool
any_withdraws p [] = false
any_withdraws p (c ∷ calls) = withdraws p c || any_withdraws p calls

module _ (sha256 : Text → List ℕ) where
  abbrev pub call : Call → Accounts → Accounts
  call (new_user fault now id email) a = record a {
    users = elim (create_user fault now id email a.users) [ none ↦ a.users | some users ↦ users ];
  }
  call (new_key fault now random id name) a = (create_api_key sha256 fault now random id name a).1
  call (present fault now raw) a = record a { keys = (resolve sha256 fault now raw a.keys).1 }
  call (withdraw fault now prefix) a = record a { keys = (revoke fault now prefix a.keys).1 }

  abbrev pub calls_after : List Call → Accounts → Accounts
  calls_after [] a = a
  calls_after (c ∷ calls) a = calls_after calls (call c a)

  live-call :
      (h : Text) (c : Call) (a : Accounts) (id p : Text)
      → has_hash h a.keys ≡ true
      → (live h a.keys ≡ (id, p) ∷ []
          → live h (call c a).keys ≡ (if withdraws p c then [] else (id, p) ∷ []))
        × (live h a.keys ≡ [] → live h (call c a).keys ≡ [])
        × (has_hash h (call c a).keys ≡ true)
  unfolding resolve revoke
  live-call h (new_user fault now id' email) a id p e = ground arith
  live-call h (new_key fault now random id' name) a id p e =
      ground (arith, live-create_api_key sha256 h fault now random id' name a e)
  live-call h (present true now raw) a id p e = ground arith
  live-call h (present false now raw) a id p e = ground (
    arith,
    live-touch h (is_presented sha256 raw) now a.keys,
    has_hash-update_keys h (is_presented sha256 raw) (touch now) a.keys (λ k. refl),
  )
  live-call h (withdraw true now prefix) a id p e = ground arith
  live-call h (withdraw false now prefix) a id p e = ground (
    arith,
    text_beq_iff p (cut_prefix prefix),
    text_beq_iff (cut_prefix prefix) p,
    live-revoke_row h (cut_prefix prefix) now a.keys,
    has_hash-update_keys h (is_match (cut_prefix prefix)) (revoke_row now) a.keys (λ k. refl),
  )

  live-calls_after :
      (h : Text) (calls : List Call) (a : Accounts) (id p : Text)
      → has_hash h a.keys ≡ true
      → (live h a.keys ≡ (id, p) ∷ []
          → live h (calls_after calls a).keys
            ≡ (if any_withdraws p calls then [] else (id, p) ∷ []))
        × (live h a.keys ≡ [] → live h (calls_after calls a).keys ≡ [])
  live-calls_after h [] a id p e = ground arith
  live-calls_after h (c ∷ calls) a id p e =
      let step = live-call h c a id p e in
      ground (arith, step, live-calls_after h calls (call c a) id p step.2)

  -- ...
  -- A key that was created belongs to its user after any further calls of the store, whatever fails in
  -- them, until a revocation with its prefix reaches the table; from then on it is invalid (the last
  -- lookup itself does not fail).
  pub create_api_key-lifetime :
      (fault : Bool) (now now' : ℕ) (random : Option (List ℕ)) (id name : Text) (a : Accounts)
      → {new : Shown} (calls : List Call)
      → (create_api_key sha256 fault now random id name a).0 ≡ some new
      → (resolve sha256 false now' new.raw
          (calls_after calls (create_api_key sha256 fault now random id name a).1).keys).0
        ≡ (if any_withdraws new.prefix calls then invalid_key else owner id)
  unfolding resolve
  create_api_key-lifetime fault now now' random id name a {new} calls e =
      let made = live-created sha256 fault now random id name a e in
      let b = (create_api_key sha256 fault now random id name a).1 in
      let final = (calls_after calls b).keys in
      ground (
        arith,
        made,
        live-calls_after (hash_key sha256 new.raw) calls b id new.prefix made.1,
        first_owner-live sha256 new.raw final,
      )
