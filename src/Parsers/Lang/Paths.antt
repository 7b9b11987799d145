-- ===== src/Parsers/Lang/Paths.antt =====
-- The language tag depends on the file's name alone: a directory in front of it changes nothing.
use token_usage.Prelude.{
  ℕ, ◌≡◌, ◌≢◌, refl, false, [], ◌∷◌, ◌++◌, append-nil, append_assoc, Text, ◌==◌, text_eq,
  text_beq_iff, nat_beq, arith, if◌then◌else◌, none, some, Lacks,
}
use token_usage.Parsers.Lang.{
  trim_right, after_last, base, ext, lang_from_path, lang_of_ext, to_lower, trim_dot,
}
use token_usage.Parsers.Lang.Tables.{base_lang}
use token_usage.Table.{lookup}

append-ne-nil : (xs : Text) (a : ℕ) (s : Text) → xs ++ a ∷ s ≢ []
append-ne-nil [] a s = λ e. cc
append-ne-nil (x ∷ xs) a s = λ e. cc

module _ (b : ℕ) where
  trim_right-Lacks : (s : Text) → Lacks b s → trim_right b s ≡ s
  unfolding trim_right
  trim_right-Lacks [] h = refl
  trim_right-Lacks (a ∷ s) (ha, hs) = ground (arith, trim_right-Lacks s hs)

  trim_right-append :
      (xs : Text) (a : ℕ) (s : Text) → Lacks b (a ∷ s) → trim_right b (xs ++ a ∷ s) ≡ xs ++ a ∷ s
  unfolding trim_right
  trim_right-append [] a s h = trim_right-Lacks (a ∷ s) h
  trim_right-append (x ∷ xs) a s h =
      ground
        (arith, trim_right-append xs a s h, text_beq_iff (xs ++ a ∷ s) [], append-ne-nil xs a s)

  after_last-Lacks : (s acc : Text) → Lacks b s → after_last b s acc ≡ acc ++ s
  unfolding after_last
  after_last-Lacks [] acc h = rw append-nil
  after_last-Lacks (a ∷ s) acc (ha, hs) =
      ground (arith, after_last-Lacks s (acc ++ a ∷ []) hs, append_assoc acc (a ∷ []) s)

  after_last-append : (xs ys acc : Text) → after_last b (xs ++ b ∷ ys) acc ≡ after_last b ys []
  unfolding after_last
  after_last-append [] ys acc = ground arith
  after_last-append (x ∷ xs) ys acc =
      after_last-append xs ys (if nat_beq x b then [] else acc ++ x ∷ [])

lang_of_names : Text → Text → Text
lang_of_names name e = elim (lookup (to_lower name) base_lang) [
  | some lang ↦ lang
  | none ↦ lang_of_ext (trim_dot (to_lower e))
]

-- a path that is not empty counts by its base and its extension alone
lang_step :
    (path : Text)
    → (path == []) ≡ false
    → lang_from_path path ≡ lang_of_names (base path) (ext path)
unfolding lang_from_path lang_of_names
lang_step path h = rw h

module _ (dir : Text) (a : ℕ) (name : Text) (file : Lacks b'/' (a ∷ name)) where
  trimmed : trim_right b'/' (dir ++ b'/' ∷ a ∷ name) ≡ dir ++ b'/' ∷ a ∷ name
  trimmed = rw append_assoc at (trim_right-append b'/' (dir ++ b'/' ∷ []) a name file)

  base-append : base (dir ++ b'/' ∷ a ∷ name) ≡ a ∷ name
  unfolding base
  base-append = ground (
    arith,
    trimmed,
    after_last-append b'/' dir (a ∷ name) [],
    after_last-Lacks b'/' (a ∷ name) [] file,
    text_beq_iff (dir ++ b'/' ∷ a ∷ name) [],
    text_beq_iff (a ∷ name) [],
    append-ne-nil dir b'/' (a ∷ name),
  )

  base-name : base (a ∷ name) ≡ a ∷ name
  unfolding base
  base-name = ground (
    arith,
    trim_right-Lacks b'/' (a ∷ name) file,
    after_last-Lacks b'/' (a ∷ name) [] file,
    text_beq_iff (a ∷ name) [],
  )

  ext-append : ext (dir ++ b'/' ∷ a ∷ name) ≡ ext (a ∷ name)
  unfolding ext
  ext-append =
      rw (after_last-append b'/' dir (a ∷ name) [], after_last-Lacks b'/' (a ∷ name) [] file)

  path_not_empty : (dir ++ b'/' ∷ a ∷ name == []) ≡ false
  path_not_empty =
      ground (arith, text_beq_iff (dir ++ b'/' ∷ a ∷ name) [], append-ne-nil dir b'/' (a ∷ name))

  name_not_empty : ((a ∷ name) == []) ≡ false
  name_not_empty = ground (arith, text_beq_iff (a ∷ name) [])

  -- A file has the tag of its name, whatever directory it is in.
  lang_from_path-append : lang_from_path (dir ++ b'/' ∷ a ∷ name) ≡ lang_from_path (a ∷ name)
  lang_from_path-append = rw (
    lang_step (dir ++ b'/' ∷ a ∷ name) path_not_empty,
    lang_step (a ∷ name) name_not_empty,
    base-append,
    base-name,
    ext-append,
  )
