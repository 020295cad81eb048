-- ===== src/Prelude/Stores.antt =====
-- Memory that is only added to: the newest item is the head, and an item's address is the number
-- of items that are older, so an address keeps its meaning when the store grows.
use Prim.Native.Nat.{ℕ, ◌<◌}
use mathlib.Core.Path.{◌≡◌, refl, sym, ◌∙◌}
use mathlib.Core.Bool.{false≢true}
use mathlib.Core.Logic.{◌≢◌, ◌⊎◌, inl, inr}
use mathlib.Core.List.{List, [], ◌∷◌}
use mathlib.Core.Option.{Option, none, some}
use native.Mathlib.Omega.{arith}
use secd_scheme.Prelude.Lists.{length}
use secd_scheme.Prelude.Tests.{◌==◌, if◌then◌else◌, Bool-cases, ==_iff}

abbrev pub Addr : Type 0
Addr = ℕ

module _ {ℓ} {A : Type ℓ} where
  unfoldable pub fetch : Addr → List A → Option A
  fetch a [] = none
  fetch a (x ∷ xs) = if a == length xs then some x else fetch a xs

  -- A write to an address that is not there changes nothing.
  unfoldable pub update : Addr → A → List A → List A
  update a v [] = []
  update a v (x ∷ xs) = if a == length xs then v ∷ xs else x ∷ update a v xs

module _ {ℓ} {A : Type ℓ} where
  pub fetch-lt : (a : Addr) (xs : List A) {x : A} → fetch a xs ≡ some x → a < length xs
  unfolding fetch
  fetch-lt a [] h = ground arith
  fetch-lt a (y ∷ xs) {x} h = ground (arith, fetch-lt a xs {x = x})

  -- What a store holds stays where it is when the store grows.
  pub fetch-alloc :
      (a : Addr) (y : A) (xs : List A) {x : A} → fetch a xs ≡ some x → fetch a (y ∷ xs) ≡ some x
  unfolding fetch
  fetch-alloc a y xs h = ground (arith, fetch-lt a xs h)

  pub fetch-alloc_self : (y : A) (xs : List A) → fetch (length xs) (y ∷ xs) ≡ some y
  unfolding fetch
  fetch-alloc_self y xs = ground arith

  pub length-update : (a : Addr) (v : A) (xs : List A) → length (update a v xs) ≡ length xs
  unfolding update
  length-update a v [] = refl
  length-update a v (x ∷ xs) = ground (arith, length-update a v xs)

  pub fetch-update_self :
      (a : Addr) (v : A) (xs : List A) {x : A}
      → fetch a xs ≡ some x
      → fetch a (update a v xs) ≡ some v
  unfolding fetch update
  fetch-update_self a v [] h = ground arith
  fetch-update_self a v (y ∷ xs) {x} h = elim (Bool-cases (a == length xs)) [
    | inl here ↦ rw (here, fetch) (rw here)
    | inr below ↦
        let inner : fetch a xs ≡ some x = rw below at h in
        rw below (unfold fetch in rw (length-update a v xs, below) (fetch-update_self a v xs inner))
  ]

  pub fetch-update_ne :
      (a b : Addr) (v : A) (xs : List A) → a ≢ b → fetch b (update a v xs) ≡ fetch b xs
  unfolding fetch update
  fetch-update_ne a b v [] h = refl
  fetch-update_ne a b v (x ∷ xs) h =
      ground (arith, fetch-update_ne a b v xs h, length-update a v xs)

  pub fetch-cons :
      (a : Addr) (y : A) (xs : List A) {x : A}
      → fetch a (y ∷ xs) ≡ some x
      → (y ≡ x) ⊎ (fetch a xs ≡ some x)
  unfolding fetch
  fetch-cons a y xs h = ground arith

  pub fetch-update :
      (a b : Addr) (v : A) (xs : List A) {x : A}
      → fetch b (update a v xs) ≡ some x
      → (v ≡ x) ⊎ (fetch b xs ≡ some x)
  unfolding fetch update
  fetch-update a b v [] h = inr h
  fetch-update a b v (y ∷ xs) {x} h = elim (Bool-cases (a == length xs)) [
    | inl here ↦ ground arith
    | inr below ↦ elim (Bool-cases (b == length xs)) [
      | inl top ↦ inr (ground (arith, length-update a v xs))
      | inr under ↦
          let inner : fetch b (update a v xs) ≡ some x = ground (arith, length-update a v xs) in
          rw under (fetch-update a b v xs inner)
    ]
  ]

  -- An item that another write left in its place is where it was, or is what was written.
  pub update_keeps :
      (a b : Addr) (v : A) (xs : List A) {x : A}
      → fetch b xs ≡ some x
      → (fetch b (update a v xs) ≡ some x) ⊎ ((a ≡ b) × (fetch b (update a v xs) ≡ some v))
  update_keeps a b v xs {x} h = elim (Bool-cases (a == b)) [
    | inl e ↦
        let same : a ≡ b = (==_iff a b).0 e in inr (same, rw same (fetch-update_self b v xs h))
    | inr e ↦ inl (fetch-update_ne a b v xs (λ same. false≢true (sym e ∙ (==_iff a b).1 same)) ∙ h)
  ]
