-- ===== src/Diff/Edits.antt =====
-- The edits that src/codegen/diff.ts finds turn the old lines into the new ones.
use actjs.Prelude.Map.Laws.{==-refl}
use actjs.Prelude.{
  ◌≤◌, String, ◌≡◌, refl, ap, List, [], ◌∷◌, map, leb, suc, zero, ◌+◌, ℕ, arith, drop, get_elem?,
  some, sym, ◌∙◌, if◌then◌else◌, Bool-cases, inl, inr,
}
use actjs.Diff.{cell, max, some, get_elem?, row_of, zeros, Op, walk, lcs_diff, lcs_table, cell_of}
use actjs.Prelude.Keys.{string_keyed, ◌==◌}

-- The lines before the edits: those that are kept or deleted
unfoldable pub old_of : List Op → List String
old_of [] = []
old_of (Op.context x ∷ ops) = x ∷ old_of ops
old_of (Op.add x ∷ ops) = old_of ops
old_of (Op.del x ∷ ops) = x ∷ old_of ops

-- The lines after the edits: those that are kept or added
unfoldable pub new_of : List Op → List String
new_of [] = []
new_of (Op.context x ∷ ops) = x ∷ new_of ops
new_of (Op.add x ∷ ops) = x ∷ new_of ops
new_of (Op.del x ∷ ops) = new_of ops

old_of-adds : (b : List String) → old_of (map Op.add b) ≡ []
unfolding old_of
old_of-adds [] = refl
old_of-adds (y ∷ b) = old_of-adds b

old_of-dels : (a : List String) → old_of (map Op.del a) ≡ a
unfolding old_of
old_of-dels [] = refl
old_of-dels (x ∷ a) = ap (λ s. x ∷ s) (old_of-dels a)

new_of-adds : (b : List String) → new_of (map Op.add b) ≡ b
unfolding new_of
new_of-adds [] = refl
new_of-adds (y ∷ b) = ap (λ s. y ∷ s) (new_of-adds b)

new_of-dels : (a : List String) → new_of (map Op.del a) ≡ []
unfolding new_of
new_of-dels [] = refl
new_of-dels (x ∷ a) = new_of-dels a

old_of-walk : (dp : List (List ℕ)) (i j : ℕ) (a b : List String) → old_of (walk dp i j a b) ≡ a
unfolding walk old_of
old_of-walk dp i j [] b = old_of-adds b
old_of-walk dp i j (x ∷ a) [] = old_of-dels (x ∷ a)
old_of-walk dp i j (x ∷ a) (y ∷ b) = elim (Bool-cases (x == y)) [
  | inl same ↦ rw same (ap (λ s. x ∷ s) (old_of-walk dp (suc i) (suc j) a b))
  | inr differ ↦ elim (Bool-cases (leb (cell_of dp i (suc j)) (cell_of dp (suc i) j))) [
    | inl drops ↦ rw (differ, drops) (ap (λ s. x ∷ s) (old_of-walk dp (suc i) j a (y ∷ b)))
    | inr adds ↦ rw (differ, adds) (old_of-walk dp i (suc j) (x ∷ a) b)
  ]
]

new_of-walk : (dp : List (List ℕ)) (i j : ℕ) (a b : List String) → new_of (walk dp i j a b) ≡ b
unfolding walk new_of
new_of-walk dp i j [] b = new_of-adds b
new_of-walk dp i j (x ∷ a) [] = new_of-dels (x ∷ a)
new_of-walk dp i j (x ∷ a) (y ∷ b) = elim (Bool-cases (x == y)) [
  | inl same ↦
      let eq : x ≡ y = (string_keyed.same_key_iff x y).0 same in
      rw (same, eq) (ap (λ s. y ∷ s) (new_of-walk dp (suc i) (suc j) a b))
  | inr differ ↦ elim (Bool-cases (leb (cell_of dp i (suc j)) (cell_of dp (suc i) j))) [
    | inl drops ↦ rw (differ, drops) (new_of-walk dp (suc i) j a (y ∷ b))
    | inr adds ↦ rw (differ, adds) (ap (λ s. y ∷ s) (new_of-walk dp i (suc j) (x ∷ a) b))
  ]
]

lcs_diff-old-new : (a b : List String) → (old_of (lcs_diff a b) ≡ a) × (new_of (lcs_diff a b) ≡ b)
unfolding lcs_diff
lcs_diff-old-new a b = (old_of-walk (lcs_table a b) 0 0 a b, new_of-walk (lcs_table a b) 0 0 a b)

-- The reference: the length of a longest common subsequence
unfoldable pub lcs : List String → List String → ℕ
lcs [] b = 0
lcs (x ∷ a) [] = 0
lcs (x ∷ a) (y ∷ b) =
    let both = lcs a b in
    let dropped = lcs a (y ∷ b) in
    let added = lcs (x ∷ a) b in if x == y then suc both else max dropped added

unfoldable pub kept : List Op → ℕ
kept [] = 0
kept (Op.context x ∷ ops) = suc (kept ops)
kept (Op.add x ∷ ops) = kept ops
kept (Op.del x ∷ ops) = kept ops

lcs_nil : (a : List String) → lcs a [] ≡ 0
unfolding lcs
lcs_nil [] = refl
lcs_nil (x ∷ a) = refl

-- The row of the table for `a`: the lengths for the suffixes of `b`
unfoldable pub lcs_row : List String → List String → List ℕ
lcs_row a [] = lcs a [] ∷ []
lcs_row a (y ∷ b) = lcs a (y ∷ b) ∷ lcs_row a b

zeros-lcs_row : (b : List String) → zeros b ≡ lcs_row [] b
unfolding zeros lcs_row lcs
zeros-lcs_row [] = refl
zeros-lcs_row (y ∷ b) = ap (λ r. 0 ∷ r) (zeros-lcs_row b)

cell-lcs_row : (a b : List String) (q : ℕ) → cell (lcs_row a b) q ≡ lcs a (drop q b)
unfolding lcs_row drop
cell-lcs_row a [] zero = refl
cell-lcs_row a (y ∷ b) zero = refl
cell-lcs_row a [] (suc q) = sym (lcs_nil a)
cell-lcs_row a (y ∷ b) (suc q) = cell-lcs_row a b q

row_of-lcs_row : (x : String) (a b : List String) → row_of x b (lcs_row a b) ≡ lcs_row (x ∷ a) b
unfolding row_of lcs_row lcs drop
row_of-lcs_row x a [] = refl
row_of-lcs_row x a (y ∷ b) =
    rw (row_of-lcs_row x a b, cell-lcs_row a b 0, cell-lcs_row (x ∷ a) b 0) refl

head_table : (a b : List String) → get_elem? (lcs_table a b) 0 ≡ some (lcs_row a b)
unfolding lcs_table
head_table [] b = ap some (zeros-lcs_row b)
head_table (x ∷ a) b = rw (head_table a b) (ap some (row_of-lcs_row x a b))

-- The table holds the reference's lengths for the suffixes of both texts.
lcs_table-lcs :
    (a b : List String) (p q : ℕ) → cell_of (lcs_table a b) p q ≡ lcs (drop p a) (drop q b)
unfolding lcs_table drop lcs
lcs_table-lcs a b zero q = rw head_table (cell-lcs_row a b q)
lcs_table-lcs [] b (suc p) q = refl
lcs_table-lcs (x ∷ a) b (suc p) q = lcs_table-lcs a b p q

-- The cells from `i` and `j` on are the lengths for the suffixes of what remains.
abbrev IsTable : List (List ℕ) → ℕ → ℕ → List String → List String → Type 0
IsTable dp i j a b =
    (p q k l : ℕ) → k ≡ p + i → l ≡ q + j → cell_of dp k l ≡ lcs (drop p a) (drop q b)

kept-adds : (b : List String) → kept (map Op.add b) ≡ 0
unfolding kept
kept-adds [] = refl
kept-adds (y ∷ b) = kept-adds b

kept-dels : (a : List String) → kept (map Op.del a) ≡ 0
unfolding kept
kept-dels [] = refl
kept-dels (x ∷ a) = kept-dels a

kept-walk :
    (dp : List (List ℕ)) (i j : ℕ) (a b : List String)
    → IsTable dp i j a b
    → kept (walk dp i j a b) ≡ lcs a b
unfolding walk kept lcs drop
kept-walk dp i j [] b h = kept-adds b
kept-walk dp i j (x ∷ a) [] h = kept-dels (x ∷ a)
kept-walk dp i j (x ∷ a) (y ∷ b) h =
    let added : cell_of dp i (suc j) ≡ lcs (x ∷ a) b =
      h 0 1 i (suc j) (omega arith) (omega arith) in
    let dropped : cell_of dp (suc i) j ≡ lcs a (y ∷ b) =
      h 1 0 (suc i) j (omega arith) (omega arith) in
    elim (Bool-cases (x == y)) [
      | inl same ↦ rw same (
          ap suc (
            kept-walk dp (suc i) (suc j) a b
              (λ p q k l e f. h (suc p) (suc q) k l (omega (arith, e)) (omega (arith, f)))))
      | inr differ ↦ elim (Bool-cases (leb (lcs (x ∷ a) b) (lcs a (y ∷ b)))) [
        | inl drops ↦
            rw (differ, added, dropped, drops)
              (kept-walk dp (suc i) j a (y ∷ b)
                  (λ p q k l e f. h (suc p) q k l (omega (arith, e)) f)
                ∙ ground (arith, drops))
        | inr adds ↦
            rw (differ, added, dropped, adds)
              (kept-walk dp i (suc j) (x ∷ a) b
                  (λ p q k l e f. h p (suc q) k l e (omega (arith, f)))
                ∙ ground (arith, adds))
      ]
    ]

ap2_cell : (dp : List (List ℕ)) (k p l q : ℕ) → k ≡ p → l ≡ q → cell_of dp k l ≡ cell_of dp p q
ap2_cell dp k p l q e f = rw (e, f) refl

pub kept-lcs_diff : (a b : List String) → kept (lcs_diff a b) ≡ lcs a b
unfolding lcs_diff
kept-lcs_diff a b = kept-walk (lcs_table a b) 0 0 a b (λ p q k l e f.
    ap2_cell (lcs_table a b) k p l q (e ∙ omega arith) (f ∙ omega arith) ∙ lcs_table-lcs a b p q)

-- One more old line keeps as many lines, and one more new line at most one more.
lcs-old :
    (a b : List String)
    → ((x : String) → lcs a b ≤ lcs (x ∷ a) b) × ((y : String) → lcs a (y ∷ b) ≤ suc (lcs a b))
unfolding lcs
lcs-old [] b = (λ x. omega arith, λ y. omega arith)
lcs-old (x ∷ a) [] = (
  λ z. omega arith,
  λ y. (let m = (lcs-old a []).1 y in let n = (lcs-old a []).0 x in ground arith),
)
lcs-old (x ∷ a) (w ∷ b) = (
  λ z. (let m = (lcs-old (x ∷ a) b).1 w in ground arith),
  λ y. (let m = (lcs-old a (w ∷ b)).1 y in let n = (lcs-old a (w ∷ b)).0 x in ground arith),
)

lcs-new :
    (a b : List String)
    → ((y : String) → lcs a b ≤ lcs a (y ∷ b)) × ((x : String) → lcs (x ∷ a) b ≤ suc (lcs a b))
unfolding lcs
lcs-new [] [] = (λ y. omega arith, λ x. omega arith)
lcs-new (z ∷ a) [] = (λ y. omega arith, λ x. omega arith)
lcs-new [] (w ∷ b) = (
  λ y. omega arith,
  λ x. (let m = (lcs-new [] b).1 x in let n = (lcs-new [] b).0 w in ground arith),
)
lcs-new (z ∷ a) (w ∷ b) = (
  λ y. (let m = (lcs-new a (w ∷ b)).1 z in ground arith),
  λ x. (let m = (lcs-new (z ∷ a) b).1 x in let n = (lcs-new (z ∷ a) b).0 w in ground arith),
)

kept-bounded : (ops : List Op) → kept ops ≤ lcs (old_of ops) (new_of ops)
unfolding kept old_of new_of lcs
kept-bounded [] = omega arith
kept-bounded (Op.context x ∷ ops) = rw (==-refl x) (omega (arith, kept-bounded ops))
kept-bounded (Op.add y ∷ ops) =
    omega (arith, kept-bounded ops, (lcs-new (old_of ops) (new_of ops)).0 y)
kept-bounded (Op.del x ∷ ops) =
    omega (arith, kept-bounded ops, (lcs-old (old_of ops) (new_of ops)).0 x)

-- The diff's kept and deleted lines are the old text, its kept and added lines are the new text, and no edits
-- between the same two texts keep more lines than it does.
pub lcs_diff-keeps_most :
    (a b : List String) (ops : List Op)
    → old_of ops ≡ a
    → new_of ops ≡ b
    → (old_of (lcs_diff a b) ≡ a) × (new_of (lcs_diff a b) ≡ b) × (kept ops ≤ kept (lcs_diff a b))
lcs_diff-keeps_most a b ops e f = (
  (lcs_diff-old-new a b).0,
  (lcs_diff-old-new a b).1,
  rw (kept-lcs_diff, sym e, sym f) (kept-bounded ops),
)
