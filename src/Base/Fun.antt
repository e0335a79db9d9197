-- ===== src/Base/Fun.antt =====
-- C arrays that are only reached through checked indices, as functions of the index.
use Prim.Native.Nat.{ℕ, zero, suc}
use mathlib.Core.Path.{◌≡◌, refl, fun_ext}
use mathlib.Core.Logic.{◌≢◌, inl, inr}
use mathlib.Core.List.{List, [], ◌∷◌}
use native.Mathlib.Omega.{arith}
use project_lucario.Base.Tests.{◌==◌, ==_iff, if◌then◌else◌, Bool-cases}

module _ {ℓ} {A : Type ℓ} where
  -- `f[i] = v`
  abbrev pub update : (ℕ → A) → ℕ → A → ℕ → A
  update f i v j = if j == i then v else f j

  pub update_self : (f : ℕ → A) (i : ℕ) (v : A) → update f i v i ≡ v
  update_self f i v = ground arith

  pub update_ne : (f : ℕ → A) (i : ℕ) (v : A) (j : ℕ) → j ≢ i → update f i v j ≡ f j
  update_ne f i v j h = ground arith

  pub update-update : (f : ℕ → A) (i : ℕ) (v w : A) → update (update f i v) i w ≡ update f i w
  update-update f i v w =
      fun_ext (λ j. elim (Bool-cases (j == i)) [ inl e ↦ rw e refl | inr ne ↦ rw ne refl ])

  pub update-swap :
      (f : ℕ → A) (i j : ℕ) (v w : A)
      → i ≢ j
      → update (update f i v) j w ≡ update (update f j w) i v
  update-swap f i j v w ne = fun_ext (λ n. elim (Bool-cases (n == i)) [
    | inl e ↦ rw ((==_iff n i).0 e) (ground arith)
    | inr other ↦ rw other refl
  ])

  -- A write of what stands there already.
  pub update_id : (f : ℕ → A) (i : ℕ) {v : A} → f i ≡ v → update f i v ≡ f
  update_id f i e = fun_ext (λ j. elim (Bool-cases (j == i)) [
    | inl same ↦ rw (same, ← e, (==_iff j i).0 same) refl
    | inr ne ↦ rw ne refl
  ])

  abbrev pub length : List A → ℕ
  length [] = 0
  length (x ∷ xs) = suc (length xs)

  abbrev pub get_or : List A → ℕ → A → A
  get_or [] i d = d
  get_or (x ∷ xs) zero d = x
  get_or (x ∷ xs) (suc i) d = get_or xs i d

  abbrev pub take : ℕ → List A → List A
  take zero xs = []
  take (suc n) [] = []
  take (suc n) (x ∷ xs) = x ∷ take n xs
