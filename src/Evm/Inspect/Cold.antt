-- ===== src/Evm/Inspect/Cold.antt =====
-- Looking makes nothing warm, crates/mega-evm/src/evm/host.rs.
use mega_evm.Prelude.{
  ℕ, suc, zero, ◌==◌, ◌≡◌, ◌⊎◌, refl, sym, ap, ◌∙◌, Bool, true, Option, none, some, List, [], ◌∷◌,
  inl, inr, Bool-cases, Option-cases, arith,
}
use mega_evm.Spec.{MegaSpecId, is_enabled}
use mega_evm.Limit.Events.{DbResult, DbResult-cases}
use mega_evm.Evm.Inspect.Termination.{inspect_account_delegated-total}
use mega_evm.Evm.Inspect.{
  Address, Account, Database, State, contains, delegated_address, insert_loaded, set, at_place,
  inspect_account, reload, follow, enough, resolve, inspect_account_delegated, load_code,
  load_account, is_code_missing, mark_cold,
}

-- An account of the later state is cold, or as warm as it was before.
abbrev pub KeepsWarmth : Option Account → Option Account → Type 0
KeepsWarmth before after =
    (account : Account)
    → after ≡ some account
    → (account.is_cold ≡ true)
      ⊎ ((old : Account) × (before ≡ some old) × (account.is_cold ≡ old.is_cold))

abbrev pub WarmsNothing : State → State → Type 0
WarmsNothing before after = (n : ℕ) → KeepsWarmth (before n) (after n)

WarmsNothing-refl : (state : State) → WarmsNothing state state
WarmsNothing-refl state n account h = inr (account, h, refl)

WarmsNothing-trans : (a b c : State) → WarmsNothing a b → WarmsNothing b c → WarmsNothing a c
WarmsNothing-trans a b c ab bc n account h = elim (bc n account h) [
  | inl cold ↦ inl cold
  | inr (middle, there, same) ↦ elim (ab n middle there) [
    | inl cold ↦ inl (same ∙ cold)
    | inr (old, here, same') ↦ inr (old, here, same ∙ same')
  ]
]

-- One account is put in, cold or as warm as the one that was there.
set-WarmsNothing :
    (n : ℕ) (state : State) (account : Account)
    → KeepsWarmth (state n) (some account)
    → WarmsNothing state (set n account state)
set-WarmsNothing n state account keeps m found = elim (Bool-cases (m == n)) [
  | inl same ↦ let e : m ≡ n = ground arith in rw (same, e) (keeps found)
  | inr differ ↦ rw differ (λ h. inr (found, h, refl))
]

some-cold : (a b : Account) → some a ≡ some b → b.is_cold ≡ a.is_cold
some-cold a b h = ap (λ r. elim r as (λ _. Bool) [ some c ↦ c.is_cold | none ↦ true ]) (sym h)

module _ {ℓ} {E : Type ℓ} (db : Database E) where
  insert_loaded-WarmsNothing :
      (n : ℕ) (state : State) (loaded : DbResult E Account)
      → ((account : Account) → loaded ≡ DbResult.ok account → KeepsWarmth (state n) (some account))
      → WarmsNothing state (insert_loaded n state loaded).0
  insert_loaded-WarmsNothing n state (DbResult.ok account) keeps =
      set-WarmsNothing n state account (keeps account refl)
  insert_loaded-WarmsNothing n state (DbResult.err e) keeps = WarmsNothing-refl state

  ok-cold :
      (a b : Account)
      → Path (DbResult E Account) (DbResult.ok a) (DbResult.ok b)
      → b.is_cold ≡ a.is_cold
  ok-cold a b h =
      ap (λ r. elim r as (λ _. Bool) [ DbResult.ok c ↦ c.is_cold | DbResult.err _ ↦ true ]) (sym h)

  load_account-cold :
      (address : Address) (account : Account)
      → load_account db address ≡ DbResult.ok account
      → account.is_cold ≡ true
  unfolding load_account
  load_account-cold address account = elim (DbResult-cases (db.basic address)) [
    | inr (e, failed) ↦ rw (load_account, failed) (λ h. cc)
    | inl (found, answered) ↦ elim (Option-cases found) [
      | inl absent ↦
          rw (load_account, answered, absent)
            (λ h. ok-cold (mark_cold db.new_not_existing) account h)
      | inr (info, present) ↦
          rw (load_account, answered, present)
            (λ h. ok-cold (mark_cold (db.account_of info)) account h)
    ]
  ]

  load_code-warmth :
      (old account : Account)
      → load_code db old ≡ DbResult.ok account
      → account.is_cold ≡ old.is_cold
  unfolding load_code
  load_code-warmth old account = elim (Bool-cases (is_code_missing db old)) [
    | inr loaded ↦ rw (load_code, loaded) (ok-cold old account)
    | inl missing ↦ elim (DbResult-cases (db.code_by_hash old.info.code_hash)) [
      | inr (e, failed) ↦ rw (load_code, missing, failed) (λ h. cc)
      | inl (code, answered) ↦
          rw (load_code, missing, answered)
            (ok-cold (record old { info = record (old.info) { code = some code } }) account)
    ]
  ]

  pub inspect_account-WarmsNothing :
      (address : Address) (state : State) → WarmsNothing state (inspect_account db address state).0
  unfolding inspect_account
  inspect_account-WarmsNothing address state = elim (Option-cases (state address.word)) [
    | inl absent ↦
        rw (inspect_account, absent)
          (insert_loaded-WarmsNothing address.word state (load_account db address)
            (λ a h. λ b same. inl (some-cold a b same ∙ load_account-cold address a h)))
    | inr (old, present) ↦
        rw (inspect_account, present)
          (insert_loaded-WarmsNothing address.word state (load_code db old)
            (λ a h. λ b same. inr (old, present, some-cold a b same ∙ load_code-warmth old a h)))
  ]

  -- Of the state in an answer.
  abbrev Kept : State → Option (State × DbResult E Address) → Type 0
  Kept before none = Unit {0}
  Kept before (some answer) = WarmsNothing before (answer.0)

  Kept-reload :
      (before state : State) (place : Address)
      → WarmsNothing before state
      → Kept before (reload place state)
  unfolding reload
  Kept-reload before state place w = elim (Option-cases (state place.word)) [
    | inl absent ↦ rw absent tt
    | inr (account, present) ↦ rw present w
  ]

  Kept-look :
      (before state : State) (address : Address)
      → WarmsNothing before state
      → WarmsNothing before (inspect_account db address state).0
  Kept-look before state address w =
      WarmsNothing-trans before state (inspect_account db address state).0 w
        (inspect_account-WarmsNothing address state)

  Kept-follow :
      (fuel : ℕ) (visited : List ℕ) (current : Address) (before state : State)
      → WarmsNothing before state
      → Kept before (follow db fuel visited current state)
  unfolding follow
  Kept-follow zero visited current before state w = tt
  Kept-follow (suc fuel) visited current before state w =
      let looked = inspect_account db current state in
      let kept = Kept-look before state current w in
      elim (DbResult-cases (looked.1)) [
        | inr (e, failed) ↦ rw (follow, failed) kept
        | inl (account, found) ↦ elim (Option-cases (delegated_address account)) [
          | inl plain ↦ rw (follow, found, plain) (Kept-reload before (looked.0) current kept)
          | inr (next, delegates) ↦ elim (Bool-cases (contains next.word visited)) [
            | inl seen ↦
                rw (follow, found, delegates, seen) (Kept-reload before (looked.0) current kept)
            | inr fresh ↦
                rw (follow, found, delegates, fresh)
                  (Kept-follow fuel (current.word ∷ visited) next before (looked.0) kept)
          ]
        ]
      ]

  Kept-at_place :
      (before : State) (place : Address) (r : State × DbResult E Account)
      → WarmsNothing before (r.0)
      → Kept before (some (at_place place r))
  Kept-at_place before place (state, DbResult.ok _) w = w
  Kept-at_place before place (state, DbResult.err e) w = w

  Kept-resolve :
      (spec : MegaSpecId) (address : Address) (account : Account) (before state : State)
      → WarmsNothing before state
      → Kept before (resolve db spec address account state)
  unfolding resolve
  Kept-resolve spec address account before state w =
      elim (Option-cases (delegated_address account)) [
        | inl plain ↦ rw (resolve, plain) (Kept-reload before state address w)
        | inr (target, delegates) ↦ elim (Bool-cases (is_enabled spec MegaSpecId.rex4)) [
          | inl hop ↦
              rw (resolve, delegates, hop)
                (Kept-at_place before target (inspect_account db target state)
                  (Kept-look before state target w))
          | inr walk ↦
              rw (resolve, delegates, walk)
                (Kept-follow enough (address.word ∷ []) target before state w)
        ]
      ]

  Kept-delegated :
      (spec : MegaSpecId) (address : Address) (state : State)
      → Kept state (inspect_account_delegated db spec address state)
  unfolding inspect_account_delegated
  Kept-delegated spec address state =
      let looked = inspect_account db address state in
      let w = inspect_account-WarmsNothing address state in
      elim (DbResult-cases (looked.1)) [
        | inr (e, failed) ↦ rw (inspect_account_delegated, failed) w
        | inl (account, found) ↦
            rw (inspect_account_delegated, found)
              (Kept-resolve spec address account state (looked.0) w)
      ]

  -- In every version, and whatever the journal and the database hold, the look at an account
  -- through its delegations returns: it neither panics nor loops, before REX4 also where
  -- delegations form a cycle. And it makes nothing warm, also where the database fails on the way:
  -- each account of the journal after it is cold, or was there before and is as warm as it was.
  pub inspect_account_delegated-cold :
      (spec : MegaSpecId) (address : Address) (state : State)
      → (answer : State × DbResult E Address) × (inspect_account_delegated db spec address state
          ≡ some answer)
        × WarmsNothing state (answer.0)
  inspect_account_delegated-cold spec address state =
      let (answer, returns) = inspect_account_delegated-total db spec address state in
      (answer, returns, rw (ap (Kept state) returns) at (Kept-delegated spec address state))
