-- ===== src/Tests/Evm.antt =====
-- The validation of a transaction that sends value to an empty account.
use mega_evm.Prelude.{ℕ, ◌<◌, ◌≡◌, refl, Bool, true, false, some, none, [], arith, u64_mod}
use mega_evm.Spec.{MegaSpecId, is_enabled}
use mega_evm.Limit.Check.{LimitCheck}
use mega_evm.Limit.Events.{Address, DbResult}
use mega_evm.Limit.Entry.{FrameLimitEntry}
use mega_evm.Limit.Frame.{net_usage, record_persistent, exceeds_current_frame_limit}
use mega_evm.Limit.DataSize as DataSize
use mega_evm.Limit.KvUpdate as KvUpdate
use mega_evm.Limit.StateGrowth as StateGrowth
use mega_evm.Limit.ComputeGas as ComputeGas
use mega_evm.Limit.RuntimeLimits.{rex3}
use mega_evm.Limit.Additional.{AdditionalLimit, record_compute_gas}
use mega_evm.External.Gas.{SaltEnv}
use mega_evm.External.Gas.Cache.{nil-IsCoherent}
use mega_evm.Evm.SystemTx.{MegaTransaction, TxKind}
use mega_evm.Evm.Context.{MegaContext}
use mega_evm.Evm.Handler.{TokenCosts, InitialAndFloorGas, validate}
use mega_evm.Evm.Handler.Intrinsic.{intrinsic_gas, validated, validate-validated}

-- Accounts are in bucket 1, of 512 slots.
abbrev env : SaltEnv ℕ
env = record {
  get_bucket_capacity = λ id. DbResult.ok 512;
  bucket_id_for_account = λ address. 1;
  bucket_id_for_slot = λ address key. 0;
}

abbrev tx : MegaTransaction
tx = record {
  caller = 11;
  tx_type = 2;
  kind = TxKind.call 12;
  gas_limit = 100_000;
  gas_price = 1;
  source_hash = 0;
  transfers_value = true;
  tokens_in_calldata = 30;
  tx_data = record { input_len = 10; access_sizes = none; authorities = [] };
}

abbrev fresh_entry : ℕ → FrameLimitEntry (Unit {0})
fresh_entry limit = record {
  limit = limit;
  persistent_usage = 0;
  discardable_usage = 0;
  refund = 0;
  info = tt;
}

-- The trackers before and after 21,000 of compute gas are recorded.
abbrev pub trackers : ℕ → AdditionalLimit
trackers compute_gas = record {
  has_exceeded_limit = LimitCheck.within_limit;
  rescued_gas = 0;
  limits = rex3;
  state_growth = record {
    spec = MegaSpecId.rex3;
    frame_tracker = record { tx_entry = fresh_entry 1000; frame_stack = [] };
  };
  data_size = record {
    rex4_enabled = false;
    frame_tracker = record { tx_entry = fresh_entry 10_000; frame_stack = [] };
  };
  kv_update = record {
    rex4_enabled = false;
    frame_tracker = record { tx_entry = fresh_entry 1000; frame_stack = [] };
  };
  compute_gas = record {
    rex1_enabled = true;
    rex4_enabled = false;
    detained_limit = 200_000_000;
    frame_tracker = record {
      tx_entry = record (fresh_entry 200_000_000) { persistent_usage = compute_gas };
      frame_stack = [];
    };
  };
}

abbrev pub context : MegaContext ℕ
context = record {
  spec = MegaSpecId.rex3;
  tx = tx;
  beneficiary = 99;
  block_number = 8;
  additional_limit = trackers 0;
  dynamic_storage_gas_cost = record {
    spec = MegaSpecId.rex3;
    parent_block = 7;
    salt_env = env;
    bucket_cost_multipliers = [];
  };
  volatile_data_tracker = record {
    volatile_data_accessed = 0;
    compute_gas_limit = none;
    block_env_access_limit = 20_000_000;
    oracle_access_limit = 20_000_000;
    disable_depth = none;
  };
  error = none;
}

abbrev costs : TokenCosts
costs = record { standard_token_cost = 4; total_cost_floor_per_token = 10 }

abbrev all_empty : Address → DbResult ℕ Bool
all_empty address = DbResult.ok true

abbrev base_gas : InitialAndFloorGas
base_gas = record { initial_gas = 21_000; floor_gas = 21_300 }

recorded : record_compute_gas 21_000 (trackers 0) ≡ some (true, trackers 21_000)
unfolding record_compute_gas DataSize.check_limit KvUpdate.check_limit StateGrowth.check_limit
    ComputeGas.check_limit ComputeGas.record_gas_used net_usage record_persistent is_enabled
    exceeds_current_frame_limit
recorded = refl

mini_rex_in_rex3 : is_enabled context.spec MegaSpecId.mini_rex ≡ true
unfolding is_enabled
mini_rex_in_rex3 = refl

initial_fits : intrinsic_gas costs context.spec 30 21_000 < u64_mod
unfolding is_enabled
initial_fits = omega arith

validate-validated_example :
    (c' : MegaContext ℕ) × (validate costs all_empty (DbResult.ok base_gas) context
      ≡ some (c', validated costs all_empty base_gas context))
    × (c'.additional_limit ≡ trackers 21_000)
validate-validated_example =
    validate-validated costs all_empty base_gas context true (trackers 21_000) mini_rex_in_rex3
      recorded (nil-IsCoherent env) refl initial_fits (omega arith)
