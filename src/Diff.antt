-- ===== src/Diff.antt =====
-- src/codegen/diff.ts: the line diff of `--check`. A text is the list of its lines, which `split` and `join` turn
-- into one another.
pub mod Edits
pub mod Examples
use actjs.Prelude.{
  false, true, Bool, ℕ, zero, suc, String, Option, none, some, List, [], ◌∷◌, map, length, leb,
  get_or, get_elem?, if◌then◌else◌,
}
use actjs.Prelude.Keys.{Keyed, string_keyed, ◌==◌}
use Prim.Native.String.{◌++◌ as concat}

pub data Op : Type 0 where
  context add del : String → Op

abbrev pub max : ℕ → ℕ → ℕ
max a b = if leb a b then b else a

-- `row[j]`, for an index that is in range
abbrev pub cell : List ℕ → ℕ → ℕ
cell row j = get_or (get_elem? row j) 0

-- `dp[i][j]`
abbrev pub cell_of : List (List ℕ) → ℕ → ℕ → ℕ
cell_of dp i j = cell (get_or (get_elem? dp i) []) j

unfoldable pub zeros : List String → List ℕ
zeros [] = 0 ∷ []
zeros (y ∷ b) = 0 ∷ zeros b

-- One turn of the loop over `i`: the row of the line `x`, from the row below it
unfoldable pub row_of : String → List String → List ℕ → List ℕ
row_of x [] below = 0 ∷ []
row_of x (y ∷ b) [] = 0 ∷ row_of x b []
row_of x (y ∷ b) (d ∷ below) =
    let rest = row_of x b below in
    (if x == y then suc (cell below 0) else max d (cell rest 0)) ∷ rest

-- The table of the lengths of the longest common subsequences of the suffixes
unfoldable pub lcs_table : List String → List String → List (List ℕ)
unfolding zeros row_of
lcs_table [] b = zeros b ∷ []
lcs_table (x ∷ a) b =
    let below = lcs_table a b in row_of x b (get_or (get_elem? below 0) []) ∷ below

-- The walk from line `i` of the old text and line `j` of the new one, whose remaining lines are given
unfoldable pub walk : List (List ℕ) → ℕ → ℕ → List String → List String → List Op
walk dp i j [] b = map Op.add b
walk dp i j (x ∷ a) [] = map Op.del (x ∷ a)
walk dp i j (x ∷ a) (y ∷ b) =
    let both = walk dp (suc i) (suc j) a b in
    let dropped = walk dp (suc i) j a (y ∷ b) in
    let added = walk dp i (suc j) (x ∷ a) b in
    if x == y
    then Op.context x ∷ both
    else if leb (cell_of dp i (suc j)) (cell_of dp (suc i) j)
    then Op.del x ∷ dropped
    else Op.add y ∷ added

unfoldable pub lcs_diff : List String → List String → List Op
unfolding walk lcs_table
lcs_diff a b = walk (lcs_table a b) 0 0 a b

abbrev pub line_of : Op → String
line_of (Op.context line) = concat " " line
line_of (Op.add line) = concat "+" line
line_of (Op.del line) = concat "-" line

unfoldable pub same_lines : List String → List String → Bool
same_lines [] [] = true
same_lines [] (y ∷ b) = false
same_lines (x ∷ a) [] = false
same_lines (x ∷ a) (y ∷ b) = let rest = same_lines a b in if x == y then rest else false

-- `unifiedDiff`, with the lines of its output and `none` for the empty text
unfoldable pub unified_diff :
    List String → List String → Option String → Option String → Option (List String)
unfolding same_lines lcs_diff
unified_diff old_lines new_lines old_name new_name =
    if same_lines old_lines new_lines
    then none
    else some (
        concat "--- " (get_or old_name "committed")
        ∷ concat "+++ " (get_or new_name "generated")
        ∷ map line_of (lcs_diff old_lines new_lines))
