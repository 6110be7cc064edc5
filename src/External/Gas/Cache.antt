-- ===== src/External/Gas/Cache.antt =====
-- The cache of crates/mega-evm/src/external/gas.rs: what it holds is what the environment answers.
use mega_evm.Prelude.{
  ℕ, ◌/◌, ◌≡◌, refl, sym, ◌∙◌, ap, ◌⊎◌, inl, inr, true, none, some, List, [], ◌∷◌, ◌==◌, Bool-cases,
  Option-cases, arith,
}
use mega_evm.Limit.Events.{DbResult}
use mega_evm.External.Gas.{
  SaltEnv, DynamicGasCost, lookup, load_bucket_cost_multiplier, min_bucket_size,
}

==-eq : (a b : ℕ) → (a == b) ≡ true → a ≡ b
==-eq a b h = ground arith

some-injective : {a b : ℕ} → some a ≡ some b → a ≡ b
some-injective h = cc

module _ {ℓ} {E : Type ℓ} where
  -- The multiplier of a capacity that was read, or the error.
  abbrev pub multiplier_of : DbResult E ℕ → DbResult E ℕ
  multiplier_of (DbResult.ok capacity) = DbResult.ok (capacity / min_bucket_size)
  multiplier_of (DbResult.err e) = DbResult.err e

  -- What is in the cache is what the environment would answer.
  abbrev pub IsCoherent : SaltEnv E → List (ℕ × ℕ) → Type ℓ
  IsCoherent env cache =
      (id multiplier : ℕ)
      → lookup id cache ≡ some multiplier
      → multiplier_of (env.get_bucket_capacity id) ≡ DbResult.ok multiplier

  pub nil-IsCoherent : (env : SaltEnv E) → IsCoherent env []
  unfolding lookup
  nil-IsCoherent env id multiplier h = cc

  cons-IsCoherent :
      (env : SaltEnv E) (cache : List (ℕ × ℕ)) (id multiplier : ℕ)
      → multiplier_of (env.get_bucket_capacity id) ≡ DbResult.ok multiplier
      → IsCoherent env cache
      → IsCoherent env ((id, multiplier) ∷ cache)
  unfolding lookup
  cons-IsCoherent env cache id multiplier h c other m found = elim (Bool-cases (other == id)) [
    | inl same ↦
        let this : some multiplier ≡ some m = rw same at found in
        rw (==-eq other id same) (h ∙ ap DbResult.ok (some-injective this))
    | inr differs ↦ c other m (rw differs at found)
  ]

  -- Loading answers what the environment does, and keeps the cache coherent and all else.
  pub record Loaded (d : DynamicGasCost E) (id : ℕ) (result : DynamicGasCost E × DbResult E ℕ)
      : Type ℓ where
    pub answer : result.1 ≡ multiplier_of (d.salt_env.get_bucket_capacity id)
    pub same_spec : result.0.spec ≡ d.spec
    pub same_env : result.0.salt_env ≡ d.salt_env
    pub coherent : IsCoherent d.salt_env result.0.bucket_cost_multipliers

  load_hit :
      (d : DynamicGasCost E) (id multiplier : ℕ)
      → lookup id d.bucket_cost_multipliers ≡ some multiplier
      → load_bucket_cost_multiplier id d ≡ (d, DbResult.ok multiplier)
  unfolding load_bucket_cost_multiplier
  load_hit d id multiplier h = rw (load_bucket_cost_multiplier, h)

  load_miss_err :
      (d : DynamicGasCost E) (id : ℕ) (e : E)
      → lookup id d.bucket_cost_multipliers ≡ none
      → d.salt_env.get_bucket_capacity id ≡ DbResult.err e
      → load_bucket_cost_multiplier id d ≡ (d, DbResult.err e)
  unfolding load_bucket_cost_multiplier
  load_miss_err d id e h failed = rw (load_bucket_cost_multiplier, h, failed)

  load_miss_ok :
      (d : DynamicGasCost E) (id capacity : ℕ)
      → lookup id d.bucket_cost_multipliers ≡ none
      → d.salt_env.get_bucket_capacity id ≡ DbResult.ok capacity
      → load_bucket_cost_multiplier id d ≡ (
        record d {
          bucket_cost_multipliers = (id, capacity / min_bucket_size) ∷ d.bucket_cost_multipliers;
        },
        DbResult.ok (capacity / min_bucket_size),
      )
  unfolding load_bucket_cost_multiplier
  load_miss_ok d id capacity h answered = rw (load_bucket_cost_multiplier, h, answered)

  DbResult-cases :
      (r : DbResult E ℕ) → ((a : ℕ) × (r ≡ DbResult.ok a)) ⊎ ((e : E) × (r ≡ DbResult.err e))
  DbResult-cases (DbResult.ok a) = inl (a, refl)
  DbResult-cases (DbResult.err e) = inr (e, refl)

  pub load-Loaded :
      (d : DynamicGasCost E) (id : ℕ)
      → IsCoherent d.salt_env d.bucket_cost_multipliers
      → Loaded d id (load_bucket_cost_multiplier id d)
  load-Loaded d id c = elim (Option-cases (lookup id d.bucket_cost_multipliers)) [
    | inr (m, hit) ↦
        rw (load_hit d id m hit)
          (record { answer = sym (c id m hit); same_spec = refl; same_env = refl; coherent = c })
    | inl miss ↦ elim (DbResult-cases (d.salt_env.get_bucket_capacity id)) [
      | inl (capacity, got) ↦ rw (load_miss_ok d id capacity miss got) (record {
        answer = rw got;
        same_spec = refl;
        same_env = refl;
        coherent =
            cons-IsCoherent d.salt_env d.bucket_cost_multipliers id (capacity / min_bucket_size)
              (rw got) c;
      })
      | inr (e, failed) ↦
          rw (load_miss_err d id e miss failed)
            (record { answer = rw failed; same_spec = refl; same_env = refl; coherent = c })
    ]
  ]
