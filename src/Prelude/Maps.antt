-- ===== src/Prelude/Maps.antt =====
-- Maps as lists of entries, and the entries of one merged into another in the order of the list.
use Prim.Native.Nat.{ℕ}
use mathlib.Core.Path.{◌≡◌, refl, sym, ap, ◌∙◌}
use mathlib.Core.Logic.{inl, inr}
use mathlib.Core.Bool.{true, false}
use mathlib.Core.Option.{Option, none, some}
use mathlib.Core.List.{List, [], ◌∷◌}
use native.Mathlib.Omega.{arith}
use mega_evm.Prelude.Tests.{◌==◌, if◌then◌else◌, Bool-cases}
use mega_evm.Prelude.Panic.{◌>>=◌, >>=-eq-some}

module _ {ℓ} {V : Type ℓ} where
  unfoldable pub get : ℕ → List (ℕ × V) → Option V
  get k [] = none
  get k ((n, v) ∷ m) = if k == n then some v else get k m

  unfoldable pub put : ℕ → V → List (ℕ × V) → List (ℕ × V)
  put k v [] = (k, v) ∷ []
  put k v ((n, w) ∷ m) = if k == n then (n, v) ∷ m else (n, w) ∷ put k v m

  -- The map has one entry for each key.
  abbrev pub Distinct : List (ℕ × V) → Type ℓ
  Distinct [] = Unit
  Distinct ((n, v) ∷ m) = (get n m ≡ none) × Distinct m

  pub get-put-same : (k : ℕ) (v : V) (m : List (ℕ × V)) → get k (put k v m) ≡ some v
  unfolding get put
  get-put-same k v [] = let same : (k == k) ≡ true = ground arith in rw same
  get-put-same k v ((n, w) ∷ m) = elim (Bool-cases (k == n)) [
    | inl same ↦ rw (same, get, same)
    | inr differ ↦ rw (differ, get, differ) (get-put-same k v m)
  ]

  pub get-put-other :
      (k n : ℕ) (v : V) (m : List (ℕ × V)) → (k == n) ≡ false → get k (put n v m) ≡ get k m
  unfolding get put
  get-put-other k n v [] differ = rw differ
  get-put-other k n v ((i, w) ∷ m) differ = elim (Bool-cases (n == i)) [
    | inl same ↦
        let e : n ≡ i = ground arith in
        let differ' : (k == i) ≡ false = rw (sym e) differ in rw (same, get, differ')
    | inr other ↦ elim (Bool-cases (k == i)) [
      | inl here ↦ rw (other, get, here)
      | inr there ↦ rw (other, get, there) (get-put-other k n v m differ)
    ]
  ]

-- What one entry makes of the value that is there, or of none; `none` is a panic.
module _ {ℓ κ} {V : Type ℓ} {W : Type κ} (f : Option V → W → Option V) where
  -- The loop over the other map's entries.
  unfoldable pub merge_entries : List (ℕ × V) → List (ℕ × W) → Option (List (ℕ × V))
  unfolding get put
  merge_entries this [] = some this
  merge_entries this ((n, w) ∷ other) = do v ← f (get n this) w; merge_entries (put n v this) other

  -- The value of one key after the merge.
  abbrev pub merged : Option V → Option W → Option V
  merged old none = old
  merged old (some w) = f old w

  merged-head :
      (k n : ℕ) (v : V) (w : W) (this : List (ℕ × V)) (other : List (ℕ × W))
      → f (get n this) w ≡ some v
      → get n other ≡ none
      → merged (get k (put n v this)) (get k other) ≡ merged (get k this) (get k ((n, w) ∷ other))
  unfolding get
  merged-head k n v w this other made absent = elim (Bool-cases (k == n)) [
    | inl same ↦
        let e : k ≡ n = ground arith in
        rw e (
          let here : (n == n) ≡ true = ground arith in
          rw (get, here, get-put-same n v this, absent, made) refl)
    | inr differ ↦ rw (get, differ, get-put-other k n v this differ) refl
  ]

  -- If the entries have distinct keys and the merge returns, each key has its merged value,
  -- whatever the order of the entries.
  pub merge_entries-get :
      (this result : List (ℕ × V)) (other : List (ℕ × W))
      → Distinct other
      → merge_entries this other ≡ some result
      → (k : ℕ) → get k result ≡ merged (get k this) (get k other)
  unfolding merge_entries get
  merge_entries-get this result [] d h k =
      ap (λ r. elim r as (λ _. Option V) [ some m ↦ get k m | none ↦ none ]) (sym h)
  merge_entries-get this result ((n, w) ∷ other) d h k =
      let (v, made, after) =
        >>=-eq-some (f (get n this) w) (λ v. merge_entries (put n v this) other) h in
      merge_entries-get (put n v this) result other (d.1) after k
      ∙ merged-head k n v w this other made (d.0)

  -- The merge returns if no entry panics, whatever is there.
  pub merge_entries-total :
      (this : List (ℕ × V)) (other : List (ℕ × W))
      → Distinct other
      → ((k : ℕ) (w : W) (old : Option V) → get k other ≡ some w → (v : V) × (f old w ≡ some v))
      → (result : List (ℕ × V)) × (merge_entries this other ≡ some result)
  unfolding merge_entries get
  merge_entries-total this [] d fine = (this, refl)
  merge_entries-total this ((n, w) ∷ other) d fine =
      let here : (n == n) ≡ true = ground arith in
      let (v, made) = fine n w (get n this) (rw here refl) in
      rw made (
        merge_entries-total (put n v this) other (d.1) (λ k x old found.
          fine k x old (elim (Bool-cases (k == n)) [
            | inl same ↦
                let e : k ≡ n = ground arith in
                let clash : get n other ≡ some x = rw (sym e) found in cc
            | inr differ ↦ rw differ found
          ])))
