-- ===== src/Diff/Examples.antt =====
-- Runs of src/codegen/diff.ts at concrete inputs.
use actjs.Prelude.{String, ◌≡◌, refl, List, [], ◌∷◌, ◌≤◌, none, some}
use actjs.Diff.{Op, lcs_diff, unified_diff}
use actjs.Diff.Edits.{old_of, new_of, kept, lcs_diff-keeps_most}

abbrev old_lines : List String
old_lines = "a" ∷ "b" ∷ "c" ∷ []

abbrev new_lines : List String
new_lines = "a" ∷ "c" ∷ "d" ∷ []

shown :
    unified_diff old_lines new_lines none none
    ≡ some ("--- committed" ∷ "+++ generated" ∷ " a" ∷ "-b" ∷ " c" ∷ "+d" ∷ [])
unfolding unified_diff
shown = refl

-- Edits that keep one line only
abbrev rewritten : List Op
rewritten = Op.del "a" ∷ Op.add "a" ∷ Op.del "b" ∷ Op.context "c" ∷ Op.add "d" ∷ []

lcs_diff-keeps_most_example :
    (old_of (lcs_diff old_lines new_lines) ≡ old_lines)
    × (new_of (lcs_diff old_lines new_lines) ≡ new_lines)
    × (kept rewritten ≤ kept (lcs_diff old_lines new_lines))
unfolding old_of new_of
lcs_diff-keeps_most_example = lcs_diff-keeps_most old_lines new_lines rewritten refl refl
