-- ===== src/Tests/External.antt =====
-- Prices over an environment with a large bucket, a small one and one that cannot be read.
use mega_evm.Prelude.{ℕ, zero, suc, ◌-◌, ◌*◌, ◌/◌, ◌≡◌, refl, true, List, [], ◌∷◌, map, arith}
use mega_evm.Spec.{MegaSpecId, is_enabled}
use mega_evm.Limit.Events.{DbResult}
use mega_evm.External.Gas.{
  SaltEnv, DynamicGasCost, new, on_new_block, sstore_set_gas, min_bucket_size,
}
use mega_evm.External.Gas.Cache.{nil-IsCoherent}
use mega_evm.External.Gas.Prices.{Query, ask_all, stateless, ask_all-stateless, sstore_set_gas-rex}

-- Accounts are in bucket 1, slots in bucket 0, and bucket 2 fails.
abbrev capacity_of : ℕ → DbResult ℕ ℕ
capacity_of zero = DbResult.ok 1024
capacity_of (suc zero) = DbResult.ok 256
capacity_of (suc (suc n)) = DbResult.err 5

abbrev buckets : SaltEnv ℕ
buckets = record {
  get_bucket_capacity = capacity_of;
  bucket_id_for_account = λ address. address;
  bucket_id_for_slot = λ address key. 0;
}

abbrev prices : DynamicGasCost ℕ
prices = record {
  spec = MegaSpecId.rex;
  parent_block = 9;
  salt_env = buckets;
  bucket_cost_multipliers = [];
}

abbrev questions : List Query
questions = Query.sstore 7 1 ∷ Query.account 1 ∷ Query.contract 2 ∷ Query.sstore 8 2 ∷ []

ask_all-stateless_example :
    (ask_all questions (new MegaSpecId.rex buckets 9)
      ≡ map (stateless MegaSpecId.rex buckets) questions)
    × (ask_all questions (on_new_block 9 prices)
        ≡ map (stateless prices.spec prices.salt_env) questions)
ask_all-stateless_example = ask_all-stateless questions MegaSpecId.rex buckets 9 prices

rex_enabled : is_enabled prices.spec MegaSpecId.rex ≡ true
unfolding is_enabled
rex_enabled = refl

sstore_set_gas-rex_example :
    (sstore_set_gas 7 1 prices).1
    ≡ DbResult.ok (20_000 * ((1024 - min_bucket_size) / min_bucket_size))
sstore_set_gas-rex_example =
    sstore_set_gas-rex 7 1 1024 prices (nil-IsCoherent buckets) rex_enabled refl (omega arith)
      (omega arith) (omega arith)
