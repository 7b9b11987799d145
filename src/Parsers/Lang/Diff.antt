-- ===== src/Parsers/Lang/Diff.antt =====
-- Counts of a diff that is cut into hunks.
use token_usage.Prelude.{
  ℕ, ◌+◌, ◌≤◌, ◌≡◌, List, [], ◌∷◌, ◌++◌, Text, arith, length, length-append, refl, ap, ◌∙◌,
}
use native.Mathlib.Nat.{add-zero}
use token_usage.Parsers.Lang.{count_line, count_lines_from, diff_line_counts}

count_line-add :
    (l : Text) (n m : ℕ × ℕ)
    → count_line l (n.0 + m.0, n.1 + m.1) ≡ (n.0 + (count_line l m).0, n.1 + (count_line l m).1)
unfolding count_line
count_line-add l n m = ground arith

-- At most one line is counted for each line.
count_line_bound : (l : Text) (n : ℕ × ℕ) → (count_line l n).0 + (count_line l n).1 ≤ n.0 + n.1 + 1
unfolding count_line
count_line_bound l n = ground arith

pub count_lines_from_bound :
    (ls : List Text) (n : ℕ × ℕ)
    → (count_lines_from ls n).0 + (count_lines_from ls n).1 ≤ n.0 + n.1 + length ls
unfolding count_lines_from
count_lines_from_bound [] n = omega arith
count_lines_from_bound (l ∷ ls) n =
    omega (arith, count_line_bound l n, count_lines_from_bound ls (count_line l n))

count_lines_from_add :
    (ls : List Text) (n m : ℕ × ℕ)
    → count_lines_from ls (n.0 + m.0, n.1 + m.1)
      ≡ (n.0 + (count_lines_from ls m).0, n.1 + (count_lines_from ls m).1)
unfolding count_lines_from
count_lines_from_add [] n m = refl
count_lines_from_add (l ∷ ls) n m =
    ap (count_lines_from ls) (count_line-add l n m) ∙ count_lines_from_add ls n (count_line l m)

count_lines_from-append :
    (xs ys : List Text) (n : ℕ × ℕ)
    → count_lines_from (xs ++ ys) n ≡ count_lines_from ys (count_lines_from xs n)
unfolding count_lines_from
count_lines_from-append [] ys n = refl
count_lines_from-append (x ∷ xs) ys n = count_lines_from-append xs ys (count_line x n)

-- Hunks counted one by one and added up are the counts of the whole diff, and together they are at
-- most its number of lines.
diff_line_counts-append :
    (xs ys : List Text)
    → ((diff_line_counts (xs ++ ys)).0 ≡ (diff_line_counts xs).0 + (diff_line_counts ys).0)
      × ((diff_line_counts (xs ++ ys)).1 ≡ (diff_line_counts xs).1 + (diff_line_counts ys).1)
      × ((diff_line_counts (xs ++ ys)).0 + (diff_line_counts (xs ++ ys)).1 ≤ length xs + length ys)
unfolding diff_line_counts
diff_line_counts-append xs ys =
    let n : ℕ × ℕ = count_lines_from xs (0, 0) in
    let add = count_lines_from_add ys n (0, 0) in
    let bound = count_lines_from_bound (xs ++ ys) (0, 0) in
    ground (
      arith,
      add,
      count_lines_from-append xs ys (0, 0),
      bound,
      length-append xs ys,
      add-zero n.0,
      add-zero n.1,
    )
