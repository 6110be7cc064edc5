-- ===== src/Tests/Renewal.antt =====
-- A used state that is reset.
use mega_evm.Prelude.{ℕ, ◌≡◌, refl, true, false, []}
use mega_evm.Spec.{MegaSpecId, is_enabled}
use mega_evm.Limit.Check.{LimitKind, LimitCheck}
use mega_evm.Limit.Entry.{FrameLimitEntry}
use mega_evm.Limit.RuntimeLimits.{EvmTxRuntimeLimits}
use mega_evm.Limit.Additional.{AdditionalLimit, new, reset}
use mega_evm.Limit.Additional.Renewal.{IsFor, reset-new}

abbrev limits : EvmTxRuntimeLimits
limits = record {
  tx_data_size_limit = 100;
  tx_kv_updates_limit = 10;
  tx_compute_gas_limit = 1000;
  tx_state_growth_limit = 5;
  block_env_access_compute_gas_limit = 50;
  oracle_access_compute_gas_limit = 40;
}

abbrev spent : ℕ → FrameLimitEntry (Unit {0})
spent limit = record {
  limit = limit;
  persistent_usage = 3;
  discardable_usage = 4;
  refund = 1;
  info = tt;
}

-- A transaction ended with an exceeded limit, rescued gas and a detained limit.
abbrev used_state : AdditionalLimit
used_state = record {
  has_exceeded_limit = LimitCheck.exceeds_limit LimitKind.compute_gas 1000 1200 false;
  rescued_gas = 77;
  limits = limits;
  state_growth = record {
    spec = MegaSpecId.rex3;
    frame_tracker = record { tx_entry = spent 5; frame_stack = [] };
  };
  data_size = record {
    rex4_enabled = false;
    frame_tracker = record { tx_entry = spent 100; frame_stack = [] };
  };
  kv_update = record {
    rex4_enabled = false;
    frame_tracker = record { tx_entry = spent 10; frame_stack = [] };
  };
  compute_gas = record {
    rex1_enabled = true;
    rex4_enabled = false;
    detained_limit = 60;
    frame_tracker = record { tx_entry = spent 1000; frame_stack = [] };
  };
}

used_state-IsFor : IsFor MegaSpecId.rex3 limits used_state
unfolding is_enabled
used_state-IsFor = record {
  same_limits = refl;
  growth_spec = refl;
  growth_limit = refl;
  data_rex4 = refl;
  data_limit = refl;
  kv_rex4 = refl;
  kv_limit = refl;
  gas_rex1 = refl;
  gas_rex4 = refl;
  gas_limit = refl;
}

rex1_in_rex3 : is_enabled MegaSpecId.rex3 MegaSpecId.rex1 ≡ true
unfolding is_enabled
rex1_in_rex3 = refl

reset-new_example : reset used_state ≡ new MegaSpecId.rex3 limits
reset-new_example = reset-new MegaSpecId.rex3 limits used_state rex1_in_rex3 used_state-IsFor
