-- ===== src/Evm/Inspect/Unvisited.antt =====
-- How many addresses a walk has not visited, for the loop of crates/mega-evm/src/evm/host.rs.
use mega_evm.Prelude.{
  ℕ, suc, zero, ◌+◌, ◌≤◌, ◌<◌, ◌==◌, ◌≡◌, refl, true, false, if◌then◌else◌, List, ◌∷◌, arith, inl,
  inr, Bool-cases,
}
use mega_evm.Evm.Inspect.{contains}

-- How many numbers below a bound are not in the list.
unfoldable pub unvisited : ℕ → List ℕ → ℕ
unfolding contains
unvisited zero visited = 0
unvisited (suc n) visited = (if contains n visited then 0 else 1) + unvisited n visited

pub unvisited-bound : (n : ℕ) (visited : List ℕ) → unvisited n visited ≤ n
unfolding unvisited
unvisited-bound zero visited = omega arith
unvisited-bound (suc n) visited =
    let rest = unvisited-bound n visited in
    elim (Bool-cases (contains n visited)) [
      | inl h ↦ rw h (omega arith)
      | inr h ↦ rw h (omega arith)
    ]

-- A number that is not below the bound changes nothing.
unvisited-above :
    (n c : ℕ) (visited : List ℕ) → n ≤ c → unvisited n (c ∷ visited) ≡ unvisited n visited
unfolding unvisited contains
unvisited-above zero c visited h = refl
unvisited-above (suc n) c visited h =
    let differ : (n == c) ≡ false = ground arith in
    rw (differ, unvisited-above n c visited (omega arith))

pub unvisited-fresh :
    (n c : ℕ) (visited : List ℕ)
    → c < n
    → contains c visited ≡ false
    → unvisited n (c ∷ visited) + 1 ≡ unvisited n visited
unfolding unvisited contains
unvisited-fresh zero c visited h fresh = omega arith
unvisited-fresh (suc n) c visited h fresh = elim (Bool-cases (n == c)) [
  | inl same ↦
      let e : n ≡ c = ground arith in
      let fresh_here : contains n visited ≡ false = rw e fresh in
      rw (same, fresh_here, unvisited-above n c visited (omega arith)) (omega arith)
  | inr differ ↦
      let rest = unvisited-fresh n c visited (ground arith) fresh in rw differ (omega arith)
]

pub unvisited-again :
    (n c : ℕ) (visited : List ℕ)
    → contains c visited ≡ true
    → unvisited n (c ∷ visited) ≡ unvisited n visited
unfolding unvisited contains
unvisited-again zero c visited h = refl
unvisited-again (suc n) c visited h = elim (Bool-cases (n == c)) [
  | inl same ↦
      let e : n ≡ c = ground arith in
      let old_here : contains n visited ≡ true = rw e h in
      rw (same, old_here, unvisited-again n c visited h)
  | inr differ ↦ rw (differ, unvisited-again n c visited h)
]
