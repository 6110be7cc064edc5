-- ===== src/System/Intercept/Keeps.antt =====
-- crates/mega-evm/src/system/intercept.rs: what every interceptor keeps of the state.
use mega_evm.Prelude.{
  ℕ, Bool, true, false, not, ◌||◌, ◌==◌, Option, none, some, if◌then◌else◌, Returns, Returns-some,
  Returns-bind, Returns-each, Returns-elim, Returns-if,
}
use mega_evm.Spec.{MegaSpecId, is_enabled}
use mega_evm.Limit.Revm.{Revm, FrameResult}
use mega_evm.Access.Tracker.{
  VolatileDataAccessTracker, disable_access, enable_access, oracle_contract_address,
}
use mega_evm.System.Intercept.{
  CallInputs, Bindings, Host, transfers, unless_transfer, oracle_hint, keyless, disable_volatile,
  enable_volatile, query_volatile, access_control, remaining_compute_gas, limit_control, intercept,
  from_limit_control, from_access_control, from_keyless, dispatch, keyless_deploy_address,
  access_control_address, limit_control_address, synthetic,
}

module _ {R : Revm} {W Rest : Type 0} (B : Bindings R W)
    (execute : Host W Rest → CallInputs R → R.Bytes → ℕ → Option (Host W Rest × FrameResult R))
    (P : Host W Rest → Type 0)
    (stable : (h : Host W Rest) (env : W) (tracker : VolatileDataAccessTracker)
      → P h
      → P (record h { oracle_env = env; volatile_data_tracker = tracker }))
    (execute-stable : (h : Host W Rest) (inputs : CallInputs R) (bytes : R.Bytes) (limit : ℕ)
      → P h
      → Returns (λ (h', _). P h') (execute h inputs bytes limit)) where
  -- The predicate holds of the state in an answer.
  abbrev Keeps : Option (Host W Rest × Option (FrameResult R)) → Type 0
  Keeps m = Returns (λ (h', _). P h') m

  unless_transfer-Keeps :
      (inputs : CallInputs R) (h : Host W Rest)
      (next : Option (Host W Rest × Option (FrameResult R)))
      → P h
      → Keeps next
      → Keeps (unless_transfer B execute inputs h next)
  unfolding unless_transfer
  unless_transfer-Keeps inputs h next p k =
      Returns-if _ (transfers B execute inputs) _ next
        (Returns-some _ (h, some (synthetic B execute R.revert B.non_zero_transfer inputs)) p) k

  -- A state that is changed if a test holds and there is a value.
  changed-keeps {ℓ} :
      {X : Type ℓ} (b : Bool) (o : Option X) (h : Host W Rest) (f : X → Host W Rest)
      → P h
      → ((x : X) → P (f x))
      → P (if b then elim o [ none ↦ h | some x ↦ f x ] else h)
  changed-keeps true none h f p k = p
  changed-keeps true (some x) h f p k = k x
  changed-keeps false o h f p k = p

  oracle_hint-keeps :
      (inputs : CallInputs R) (h : Host W Rest) → P h → P (oracle_hint B execute inputs h)
  unfolding oracle_hint
  oracle_hint-keeps inputs h p =
      changed-keeps (inputs.target_address == oracle_contract_address) (B.send_hint inputs.input) h
        _ p
        λ (topic, hint).
          stable h (B.on_hint inputs.caller topic hint h.oracle_env) h.volatile_data_tracker p

  keyless-Keeps :
      (inputs : CallInputs R) (depth : ℕ) (h : Host W Rest)
      → P h
      → Keeps (keyless B execute inputs depth h)
  unfolding keyless
  keyless-Keeps inputs depth h p =
      Returns-if _ (h.disable_sandbox || not (depth == 0)) _ _ (Returns-some _ (h, none) p) (
        Returns-if _ (inputs.target_address == keyless_deploy_address) _ _
          (Returns-elim _ (B.keyless_deploy inputs.input) _ _ (Returns-some _ (h, none) p)
            λ (tx_bytes, gas_limit_override).
              Returns-bind (λ (h', _). P h') _ _ _
                (execute-stable h inputs tx_bytes gas_limit_override p) λ _ p'. Returns-some _ _ p')
          (Returns-some _ (h, none) p))

  access_control-Keeps :
      (inputs : CallInputs R) (depth : ℕ) (h : Host W Rest)
      → P h
      → Keeps (access_control B execute inputs depth h)
  unfolding access_control disable_volatile enable_volatile query_volatile
  access_control-Keeps inputs depth h p =
      let (tracker, success) = enable_access depth h.volatile_data_tracker in
      Returns-if _ (not (inputs.target_address == access_control_address)) _ _
        (Returns-some _ (h, none) p)
        (Returns-if _ (B.is_disable_volatile inputs.input) _ _
          (unless_transfer-Keeps inputs h _ p (
            Returns-some _ _
              (stable h h.oracle_env (disable_access depth h.volatile_data_tracker) p)))
          (Returns-if _ (B.is_enable_volatile inputs.input) _ _
            (unless_transfer-Keeps inputs h _ p
              (Returns-some _ _ (stable h h.oracle_env tracker p)))
            (Returns-if _ (B.is_volatile_query inputs.input) _ _
              (unless_transfer-Keeps inputs h _ p (Returns-some _ _ p))
              (Returns-some _ (h, none) p))))

  limit_control-Keeps :
      (inputs : CallInputs R) (h : Host W Rest) → P h → Keeps (limit_control B execute inputs h)
  unfolding limit_control remaining_compute_gas
  limit_control-Keeps inputs h p =
      Returns-if _ (not (inputs.target_address == limit_control_address)) _ _
        (Returns-some _ (h, none) p)
        (Returns-if _ (B.is_remaining_query inputs.input) _ _
          (unless_transfer-Keeps inputs h _ p (Returns-each _ _ _ λ remaining. Returns-some _ _ p))
          (Returns-some _ (h, none) p))

  intercept-Keeps :
      (activation : MegaSpecId)
      (interceptor next : Host W Rest → Option (Host W Rest × Option (FrameResult R)))
      (h : Host W Rest)
      → P h
      → ((h' : Host W Rest) → P h' → Keeps (interceptor h'))
      → ((h' : Host W Rest) → P h' → Keeps (next h'))
      → Keeps (intercept B execute activation interceptor next h)
  unfolding intercept
  intercept-Keeps activation interceptor next h p first rest =
      Returns-if _ (is_enabled h.spec activation) _ _
        (Returns-bind (λ (h', _). P h') _ _ _ (first h p)
          λ (h', answer) p'. Returns-elim _ answer _ _ (rest h' p') λ r. Returns-some _ _ p')
        (rest h p)

  -- If a predicate depends on neither the environment of the oracle nor the tracker of volatile
  -- data, and a keyless deployment keeps it, so does the dispatch.
  pub dispatch-Keeps :
      (inputs : CallInputs R) (depth : ℕ) (h : Host W Rest)
      → P h
      → Keeps (dispatch B execute inputs depth h)
  unfolding dispatch from_keyless from_access_control from_limit_control
  dispatch-Keeps inputs depth h p =
      intercept-Keeps MegaSpecId.rex2 (λ x. some (oracle_hint B execute inputs x, none))
        (from_keyless B execute inputs depth) h p
        (λ h' p'.
          Returns-some _ (oracle_hint B execute inputs h', none) (oracle_hint-keeps inputs h' p'))
        λ h' p'.
          intercept-Keeps MegaSpecId.rex2 (keyless B execute inputs depth)
            (from_access_control B execute inputs depth) h' p' (keyless-Keeps inputs depth)
            λ h'' p''.
              intercept-Keeps MegaSpecId.rex4 (access_control B execute inputs depth)
                (from_limit_control B execute inputs) h'' p'' (access_control-Keeps inputs depth)
                λ h3 p3.
                  intercept-Keeps MegaSpecId.rex4 (limit_control B execute inputs)
                    (λ x. some (x, none)) h3 p3 (limit_control-Keeps inputs)
                    λ h4 p4. Returns-some _ (h4, none) p4
