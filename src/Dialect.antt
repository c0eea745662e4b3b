-- ===== src/Dialect.antt =====
-- internal/app/dbdialect.go: statements in the dialects of three databases. `decimal` writes a number
-- out.
pub mod Marks
use Prim.Native.Nat.{suc, zero, ℕ, ◌+◌, ◌-◌}
use mathlib.Core.Bool.{Bool, false, ◌||◌}
use mathlib.Core.List.{List, [], ◌++◌, ◌∷◌}
use gemini_web2api_go.Base.Int.{int_eq}
use gemini_web2api_go.Base.Lists.{length}
use gemini_web2api_go.Base.Tests.{if◌then◌else◌, nat_eq, ◌==◌}
use gemini_web2api_go.Base.Text.{Text, codes, contains, join, text_eq}

-- `dbDialect`
pub data DbDialect : Type 0 where
  sqlite : DbDialect
  mysql : DbDialect
  postgres : DbDialect

-- The bytes `?` and `$`.
abbrev pub question_mark : ℕ
question_mark = 63

abbrev pub dollar : ℕ
dollar = 36

-- The loop of `rebind`, with `n` placeholders so far.
unfoldable pub rebind_from : (ℕ → Text) → ℕ → Text → Text
rebind_from decimal n [] = []
rebind_from decimal n (b ∷ q) =
    let hit = b == question_mark in
    let m = if hit then n + 1 else n in
    let rest = rebind_from decimal m q in if hit then dollar ∷ (decimal m ++ rest) else b ∷ rest

-- `rebind`
unfoldable pub rebind : (ℕ → Text) → DbDialect → Text → Text
unfolding rebind_from
rebind decimal postgres q = rebind_from decimal 0 q
rebind decimal sqlite q = q
rebind decimal mysql q = q

-- `strings.Repeat(",?", n)`
abbrev pub more_marks : ℕ → Text
more_marks zero = []
more_marks (suc n) = codes ",?" ++ more_marks n

-- `pkset[c]`
abbrev pub in_key : Text → List Text → Bool
in_key c [] = false
in_key c (p ∷ key) = c == p || in_key c key

-- The columns that are not in the key, set from `excluded`.
unfoldable pub column_sets : List Text → List Text → List Text
column_sets key [] = []
column_sets key (c ∷ cols) =
    if in_key c key
    then column_sets key cols
    else (c ++ (codes "=excluded." ++ c)) ∷ column_sets key cols

-- `table(columns) VALUES(marks)`
abbrev pub columns_and_values : Text → List Text → Text
columns_and_values table cols =
    table
    ++ (codes "("
        ++ (join (codes ", ") cols
            ++ (codes ") VALUES(?" ++ (more_marks (length cols - 1) ++ codes ")"))))

-- `upsert`, for at least one column.
unfoldable pub upsert : DbDialect → Text → List Text → List Text → Text
unfolding column_sets
upsert sqlite table cols key = codes "INSERT OR REPLACE INTO " ++ columns_and_values table cols
upsert mysql table cols key = codes "REPLACE INTO " ++ columns_and_values table cols
upsert postgres table cols key =
    codes "INSERT INTO "
    ++ (columns_and_values table cols
        ++ (codes " ON CONFLICT("
            ++ (join (codes ",") key
                ++ (codes ") DO UPDATE SET " ++ join (codes ", ") (column_sets key cols)))))

-- `ensureMySQLParams`
unfoldable pub ensure_mysql_params : Text → Text
ensure_mysql_params dsn =
    if contains dsn (codes "charset=")
    then dsn
    else if contains dsn (codes "?")
    then dsn ++ codes "&charset=utf8mb4"
    else dsn ++ codes "?charset=utf8mb4"
