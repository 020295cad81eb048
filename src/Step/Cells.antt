-- ===== src/Step/Cells.antt =====
-- The global cells of the names.
use text.Mathlib.Text.{◌==◌ as str_eq}
use text.Mathlib.TextEquality.{eq_iff}
use secd_scheme.Prelude.{
  ◌≡◌, refl, sym, none, some, ◌∷◌, fetch, fetch-alloc, String, Addr, length, Option-cases,
  Bool-cases, inl, inr, ◌≢◌,
}
use secd_scheme.Value.{Cell, Heap}
use secd_scheme.Effect.{ok}
use secd_scheme.Step.{find_name, global_cell}

-- The heap after the making of a cell.
abbrev with_cell : String → Heap → Heap
with_cell name h = record h {
  cells = (record { value = none; transformer = none; name = name }) ∷ h.cells;
  globals = (name, length h.cells) ∷ h.globals;
}

-- The cell of a name is made once: asked again, the same cell is returned and nothing is changed.
pub global_cell-global_cell :
    (name : String) (h : Heap)
    → (a : Addr) × (h' : Heap) × (global_cell name h ≡ ok a h') × (global_cell name h' ≡ ok a h')
unfolding global_cell find_name
global_cell-global_cell name h = elim (Option-cases (find_name name h.globals)) [
  | inr (a, there) ↦ (a, h, rw (there, global_cell) refl, rw (there, global_cell) refl)
  | inl missing ↦ (
    length h.cells,
    with_cell name h,
    rw (missing, global_cell) refl,
    rw ((eq_iff name name).1 refl, global_cell) refl,
  )
]

-- The making of one name's cell leaves the others: another name has the same cell as before, or none as
-- before, and every cell that was there holds the same value and the same transformer.
pub find_name-global_cell :
    (name other : String) (h : Heap)
    → other ≢ name
    → (a : Addr) × (h' : Heap) × (global_cell name h ≡ ok a h')
      × (find_name other h'.globals ≡ find_name other h.globals)
      × ((b : Addr) (c : Cell) → fetch b h.cells ≡ some c → fetch b h'.cells ≡ some c)
unfolding global_cell find_name
find_name-global_cell name other h differ = elim (Option-cases (find_name name h.globals)) [
  | inr (a, there) ↦ (a, h, rw (there, global_cell) refl, refl, λ b c e. e)
  | inl missing ↦ elim (Bool-cases (str_eq name other)) [
    | inl same ↦ absurd (differ (sym ((eq_iff name other).0 same)))
    | inr apart ↦ (
      length h.cells,
      with_cell name h,
      rw (missing, global_cell) refl,
      rw apart refl,
      λ b c e. fetch-alloc b (record { value = none; transformer = none; name = name }) h.cells e,
    )
  ]
]
