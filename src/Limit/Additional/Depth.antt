-- ===== src/Limit/Additional/Depth.antt =====
-- The frames of crates/mega-evm/src/limit/limit.rs: the four trackers have equally many, and how
-- many each hook leaves.
pub mod Frames
use mega_evm.Prelude.{
  ℕ, suc, ◌≡◌, refl, ◌∙◌, ap, Bool, true, false, not, ◌&&◌, Option, none, some, ◌>>=◌,
  if◌then◌else◌, Returns, Returns-none, Returns-some, Returns-bind, Returns-each, Returns-if,
  Returns-value,
}
use mega_evm.Spec.{MegaSpecId}
use mega_evm.Limit.Check.{LimitCheck, exceeded_limit, is_frame_local}
use mega_evm.Limit.Events.{Address, FrameInput, FrameData, SStoreResult, DbResult}
use mega_evm.Limit.Revm.{
  Revm, InterpreterResult, FrameResult, InterpreterAction, interpreter_result,
}
use mega_evm.Limit.StateGrowth as StateGrowth
use mega_evm.Limit.DataSize as DataSize
use mega_evm.Limit.KvUpdate as KvUpdate
use mega_evm.Limit.ComputeGas as ComputeGas
use mega_evm.Limit.StateGrowth.Depth as Growth
use mega_evm.Limit.DataSize.Depth as Data
use mega_evm.Limit.KvUpdate.Depth as Kv
use mega_evm.Limit.ComputeGas.Depth as Gas
use mega_evm.Limit.Additional.{
  AdditionalLimit, or_else, check_limit, still_within, record_compute_gas, on_sstore, on_log,
  push_empty_frame, set_compute_gas_limit,
}

-- Each tracker has this many frames.
abbrev pub HasDepth : ℕ → AdditionalLimit → Type 0
HasDepth n a =
    (Growth.frames a.state_growth ≡ n)
    × (Data.frames a.data_size ≡ n)
    × (Kv.frames a.kv_update ≡ n)
    × (Gas.frames a.compute_gas ≡ n)

pub HasDepth-if :
    (n : ℕ) (b : Bool) (a a' : AdditionalLimit)
    → HasDepth n a
    → HasDepth n a'
    → HasDepth n (if b then a else a')
HasDepth-if n true a a' d d' = d
HasDepth-if n false a a' d d' = d'

module _ (n : ℕ) where
  or_else-HasDepth :
      (a : AdditionalLimit) (check : Option LimitCheck)
      (rest : Option (LimitCheck × AdditionalLimit))
      → HasDepth n a
      → Returns (λ (_, a'). HasDepth n a') rest
      → Returns (λ (_, a'). HasDepth n a') (or_else a check rest)
  unfolding or_else
  or_else-HasDepth a none rest d r = Returns-none _
  or_else-HasDepth a (some found) rest d r =
      Returns-if _ (exceeded_limit found) _ rest
        (Returns-some _ (found, record a { has_exceeded_limit = found }) d) r

  pub check_limit-HasDepth :
      (a : AdditionalLimit) → HasDepth n a → Returns (λ (_, a'). HasDepth n a') (check_limit a)
  unfolding check_limit
  check_limit-HasDepth a d =
      Returns-if _ (exceeded_limit a.has_exceeded_limit) _ _
        (Returns-some _ (a.has_exceeded_limit, a) d)
        (or_else-HasDepth a (DataSize.check_limit a.data_size) _ d (
          or_else-HasDepth a (KvUpdate.check_limit a.kv_update) _ d (
            or_else-HasDepth a (ComputeGas.check_limit a.compute_gas) _ d (
              or_else-HasDepth a (StateGrowth.check_limit a.state_growth) _ d
                (Returns-some _ (a.has_exceeded_limit, a) d)))))

  still_within-HasDepth :
      (a : AdditionalLimit) → HasDepth n a → Returns (λ (_, a'). HasDepth n a') (still_within a)
  unfolding still_within
  still_within-HasDepth a d =
      Returns-bind (λ (_, a'). HasDepth n a') _ _ _ (check_limit-HasDepth a d)
        λ (_, a') d'. Returns-some _ _ d'

  pub record_compute_gas-HasDepth :
      (gas : ℕ) (a : AdditionalLimit)
      → HasDepth n a
      → Returns (λ (_, a'). HasDepth n a') (record_compute_gas gas a)
  unfolding record_compute_gas
  record_compute_gas-HasDepth gas a (g, d, k, c) =
      still_within-HasDepth _ (g, d, k, Gas.frames-record_gas_used gas a.compute_gas ∙ c)

  pub on_sstore-HasDepth :
      (r : SStoreResult) (a : AdditionalLimit)
      → HasDepth n a
      → Returns (λ (_, a'). HasDepth n a') (on_sstore r a)
  unfolding on_sstore
  on_sstore-HasDepth r a (g, d, k, c) = still_within-HasDepth _ (
    Growth.frames-after_sstore r a.state_growth ∙ g,
    Data.frames-after_sstore r a.data_size ∙ d,
    Kv.frames-after_sstore r a.kv_update ∙ k,
    c,
  )

  pub on_log-HasDepth :
      (num_topics data_size : ℕ) (a : AdditionalLimit)
      → HasDepth n a
      → Returns (λ (_, a'). HasDepth n a') (on_log num_topics data_size a)
  unfolding on_log
  on_log-HasDepth num_topics data_size a (g, d, k, c) =
      still_within-HasDepth _ (g, Data.frames-after_log num_topics data_size a.data_size ∙ d, k, c)

  pub set_compute_gas_limit-HasDepth :
      (limit : ℕ) (a : AdditionalLimit)
      → HasDepth n a
      → Returns (HasDepth n) (set_compute_gas_limit limit a)
  unfolding set_compute_gas_limit
  set_compute_gas_limit-HasDepth limit a (g, d, k, c) =
      Returns-bind (λ t. Gas.frames t ≡ Gas.frames a.compute_gas) _ _ _
        (Gas.set_detained_limit-frames limit a.compute_gas) λ t e. Returns-some _ _ (g, d, k, e ∙ c)

  pub push_empty_frame-HasDepth :
      (a : AdditionalLimit) → HasDepth n a → Returns (HasDepth (suc n)) (push_empty_frame a)
  unfolding push_empty_frame
  push_empty_frame-HasDepth a (g, d, k, c) =
      Returns-bind (λ t. Growth.frames t ≡ suc (Growth.frames a.state_growth)) _ _ _
        (Growth.push_empty_frame-frames a.state_growth)
        λ _ g'.
          Returns-bind (λ t. Data.frames t ≡ suc (Data.frames a.data_size)) _ _ _
            (Data.push_empty_frame-frames a.data_size)
            λ _ d'.
              Returns-bind (λ t. Kv.frames t ≡ suc (Kv.frames a.kv_update)) _ _ _
                (Kv.push_empty_frame-frames a.kv_update)
                λ _ k'.
                  Returns-bind (λ t. Gas.frames t ≡ suc (Gas.frames a.compute_gas)) _ _ _
                    (Gas.push_empty_frame-frames a.compute_gas)
                    λ _ c'.
                      Returns-some _ _ (g' ∙ ap suc g, d' ∙ ap suc d, k' ∙ ap suc k, c' ∙ ap suc c)

-- What happens to the limits while a frame's instructions run.
pub data Hooked : AdditionalLimit → AdditionalLimit → Type 0 where
  done : (a : AdditionalLimit) → Hooked a a
  computes :
      {a a' a'' : AdditionalLimit} (gas : ℕ) (within : Bool)
      → record_compute_gas gas a ≡ some (within, a')
      → Hooked a' a''
      → Hooked a a''
  stores :
      {a a' a'' : AdditionalLimit} (r : SStoreResult) (within : Bool)
      → on_sstore r a ≡ some (within, a')
      → Hooked a' a''
      → Hooked a a''
  logs :
      {a a' a'' : AdditionalLimit} (num_topics data_size : ℕ) (within : Bool)
      → on_log num_topics data_size a ≡ some (within, a')
      → Hooked a' a''
      → Hooked a a''
  detains :
      {a a' a'' : AdditionalLimit} (limit : ℕ)
      → set_compute_gas_limit limit a ≡ some a'
      → Hooked a' a''
      → Hooked a a''

pub Hooked-HasDepth : (n : ℕ) {a a' : AdditionalLimit} → Hooked a a' → HasDepth n a → HasDepth n a'
Hooked-HasDepth n (done a) d = d
Hooked-HasDepth n {a} (computes gas within e rest) d =
    Hooked-HasDepth n rest (Returns-value _ _ _ (record_compute_gas-HasDepth n gas a d) e)
Hooked-HasDepth n {a} (stores r within e rest) d =
    Hooked-HasDepth n rest (Returns-value _ _ _ (on_sstore-HasDepth n r a d) e)
Hooked-HasDepth n {a} (logs num_topics data_size within e rest) d =
    Hooked-HasDepth n rest (Returns-value _ _ _ (on_log-HasDepth n num_topics data_size a d) e)
Hooked-HasDepth n {a} (detains limit e rest) d =
    Hooked-HasDepth n rest (Returns-value _ _ _ (set_compute_gas_limit-HasDepth n limit a d) e)
