-- ===== src/Evm/Inspect/Termination.antt =====
-- The loop of `inspect_account_delegated` before REX4, crates/mega-evm/src/evm/host.rs, ends.
use mega_evm.Prelude.{
  ℕ, suc, zero, ◌+◌, ◌*◌, ◌≤◌, ◌<◌, ◌==◌, ◌≡◌, refl, true, false, if◌then◌else◌, Option, some, List,
  [], ◌∷◌, arith, inl, inr, Bool-cases, Option-cases,
}
use mega_evm.Spec.{MegaSpecId, is_enabled}
use mega_evm.Limit.Events.{DbResult, DbResult-cases}
use mega_evm.Evm.Inspect.{
  Address, Account, Database, State, address_count, contains, delegated_address, insert_loaded,
  inspect_account, reload, follow, enough, resolve, inspect_account_delegated, load_code,
  load_account,
}
use mega_evm.Evm.Inspect.Unvisited.{unvisited, unvisited-bound, unvisited-fresh, unvisited-again}

-- Two rounds for each address that is not visited, and one if the next to come is.
abbrev pub rounds : ℕ → List ℕ → ℕ → ℕ
rounds n visited current = 2 * unvisited n visited + (if contains current visited then 1 else 0)

-- A round goes to an address that was not visited before it.
rounds-decrease :
    (n : ℕ) (visited : List ℕ) (current next : ℕ)
    → current < n
    → contains next visited ≡ false
    → rounds n (current ∷ visited) next < rounds n visited current
unfolding contains
rounds-decrease n visited current next small fresh = elim (Bool-cases (contains current visited)) [
  | inl seen ↦ elim (Bool-cases (next == current)) [
    | inl same ↦
        let e : next ≡ current = ground arith in
        let seen_next : contains next visited ≡ true = rw e seen in cc
    | inr differ ↦ rw (differ, fresh, seen, unvisited-again n current visited seen) (omega arith)
  ]
  | inr new ↦
      let less = unvisited-fresh n current visited small new in
      elim (Bool-cases (next == current)) [
        | inl same ↦ rw (same, new) (omega arith)
        | inr differ ↦ rw (differ, fresh, new) (omega arith)
      ]
]

enough-rounds :
    (n : ℕ) (visited : List ℕ) (current : ℕ)
    → unvisited n visited ≤ n
    → rounds n visited current < suc (2 * n + 1)
enough-rounds n visited current few = elim (Bool-cases (contains current visited)) [
  | inl seen ↦ rw seen (omega arith)
  | inr new ↦ rw new (omega arith)
]

module _ {ℓ} {E : Type ℓ} (db : Database E) where
  insert_loaded-present :
      (n : ℕ) (state : State) (loaded : DbResult E Account) (account : Account)
      → (insert_loaded n state loaded).1 ≡ DbResult.ok account
      → (found : Account) × ((insert_loaded n state loaded).0 n ≡ some found)
  insert_loaded-present n state (DbResult.ok a) account h =
      let same : (n == n) ≡ true = ground arith in (a, rw same)
  insert_loaded-present n state (DbResult.err e) account h = cc

  -- An account that was inspected is in the state.
  pub inspect_account-present :
      (address : Address) (state : State) (account : Account)
      → (inspect_account db address state).1 ≡ DbResult.ok account
      → (found : Account) × ((inspect_account db address state).0 address.word ≡ some found)
  unfolding inspect_account
  inspect_account-present address state account = elim (Option-cases (state address.word)) [
    | inl absent ↦
        rw (inspect_account, absent)
          (insert_loaded-present address.word state (load_account db address) account)
    | inr (a, present) ↦
        rw (inspect_account, present)
          (insert_loaded-present address.word state (load_code db a) account)
  ]

  reload-present :
      (place : Address) (state : State)
      → ((account : Account) × (state place.word ≡ some account))
      → reload {E = E} place state ≡ some (state, DbResult.ok place)
  unfolding reload
  reload-present place state (account, present) = rw present

  Answers : Option (State × DbResult E Address) → Type ℓ
  Answers r = (answer : State × DbResult E Address) × (r ≡ some answer)

  -- With enough fuel the loop ends without a panic.
  follow-total :
      (n fuel : ℕ) (visited : List ℕ) (current : Address) (state : State)
      → address_count ≤ n
      → rounds n visited current.word < fuel
      → Answers (follow db fuel visited current state)
  unfolding follow Answers
  follow-total n zero visited current state bound h = absurd (omega arith)
  follow-total n (suc fuel) visited current state bound h =
      let looked = inspect_account db current state in
      elim (DbResult-cases (looked.1)) [
        | inr (e, failed) ↦ rw (follow, failed) (_, refl)
        | inl (account, found) ↦
            let here =
              reload-present current (looked.0)
                (inspect_account-present current state account found) in
            elim (Option-cases (delegated_address account)) [
              | inl plain ↦ rw (follow, found, plain) (_, here)
              | inr (next, delegates) ↦ elim (Bool-cases (contains next.word visited)) [
                | inl seen ↦ rw (follow, found, delegates, seen) (_, here)
                | inr fresh ↦
                    let less =
                      rounds-decrease n visited current.word next.word (omega arith) fresh in
                    rw (follow, found, delegates, fresh)
                      (follow-total n fuel (current.word ∷ visited) next (looked.0) bound
                        (omega arith))
              ]
            ]
      ]

  -- Also where delegations form a cycle.
  pub inspect_account_delegated-total :
      (spec : MegaSpecId) (address : Address) (state : State)
      → (answer : State × DbResult E Address) × (inspect_account_delegated db spec address state
          ≡ some answer)
  unfolding inspect_account_delegated resolve Answers contains
  inspect_account_delegated-total spec address state =
      let looked = inspect_account db address state in
      elim (DbResult-cases (looked.1)) [
        | inr (e, failed) ↦ rw (inspect_account_delegated, failed) (_, refl)
        | inl (account, found) ↦ elim (Option-cases (delegated_address account)) [
          | inl plain ↦
              rw (inspect_account_delegated, found, resolve, plain)
                (
                  _,
                  reload-present address (looked.0)
                      (inspect_account-present address state account found),
                )
          | inr (target, delegates) ↦ elim (Bool-cases (is_enabled spec MegaSpecId.rex4)) [
            | inl hop ↦ rw (inspect_account_delegated, found, resolve, delegates, hop) (_, refl)
            | inr walk ↦
                let visited = address.word ∷ [] in
                let few = unvisited-bound address_count visited in
                rw (inspect_account_delegated, found, resolve, delegates, walk)
                  (follow-total address_count enough visited target (looked.0) (omega arith)
                    (enough-rounds address_count visited (target.word) few))
          ]
        ]
      ]
