-- ===== src/System/Intercept/AccessControl.antt =====
-- Calls of the access control contract, crates/mega-evm/src/system/intercept.rs.
use mega_evm.Prelude.{
  ℕ, ◌≡◌, refl, ap, ◌∙◌, true, false, not, ◌||◌, ◌==◌, leb, Option, none, some, inl, inr,
  Bool-cases,
}
use mega_evm.Spec.{MegaSpecId, is_enabled}
use mega_evm.Limit.Revm.{Revm, FrameResult}
use mega_evm.Access.Tracker.{disable_access, volatile_access_disabled, oracle_contract_address}
use mega_evm.Access.Tracker.Disabling.{volatile_access_disabled-disable_access}
use mega_evm.System.Intercept.{
  CallInputs, Bindings, Host, Answer, from_keyless, from_access_control, from_limit_control,
  access_control_address, keyless_deploy_address, transfers, synthetic, dispatch, keyless,
  oracle_hint, intercept, access_control, disable_volatile, query_volatile, unless_transfer,
}

module _ {R : Revm} {W Rest : Type 0} (B : Bindings R W)
    (execute : Host W Rest
      → CallInputs R
      → R.Bytes
      → ℕ
      → Option (Host W Rest × FrameResult R)) where
  intercept-skips :
      (activation : MegaSpecId) (i next : Host W Rest → Answer B execute) (h h' : Host W Rest)
      → is_enabled h.spec activation ≡ true
      → i h ≡ some (h', none)
      → intercept B execute activation i next h ≡ next h'
  unfolding intercept
  intercept-skips activation i next h h' on skips = rw (intercept, on, skips)

  intercept-answers :
      (activation : MegaSpecId) (i next : Host W Rest → Answer B execute) (h h' : Host W Rest)
      (result : FrameResult R)
      → is_enabled h.spec activation ≡ true
      → i h ≡ some (h', some result)
      → intercept B execute activation i next h ≡ some (h', some result)
  unfolding intercept
  intercept-answers activation i next h h' result on answers = rw (intercept, on, answers)

  oracle_hint-elsewhere :
      (inputs : CallInputs R) (h : Host W Rest)
      → (inputs.target_address == oracle_contract_address) ≡ false
      → oracle_hint B execute inputs h ≡ h
  unfolding oracle_hint
  oracle_hint-elsewhere inputs h away = rw (oracle_hint, away)

  keyless-elsewhere :
      (inputs : CallInputs R) (depth : ℕ) (h : Host W Rest)
      → (inputs.target_address == keyless_deploy_address) ≡ false
      → keyless B execute inputs depth h ≡ some (h, none)
  unfolding keyless
  keyless-elsewhere inputs depth h away =
      elim (Bool-cases (h.disable_sandbox || not (depth == 0))) [
        | inl off ↦ rw (keyless, off)
        | inr on ↦ rw (keyless, on, away)
      ]

  -- A call of the contract reaches its interceptor alone.
  dispatch-access_control :
      (inputs : CallInputs R) (depth : ℕ) (h h' : Host W Rest) (result : FrameResult R)
      → is_enabled h.spec MegaSpecId.rex2 ≡ true
      → is_enabled h.spec MegaSpecId.rex4 ≡ true
      → inputs.target_address ≡ access_control_address
      → access_control B execute inputs depth h ≡ some (h', some result)
      → dispatch B execute inputs depth h ≡ some (h', some result)
  unfolding dispatch from_keyless from_access_control
  dispatch-access_control inputs depth h h' result rex2 rex4 to answered =
      let not_oracle : (inputs.target_address == oracle_contract_address) ≡ false = rw to refl in
      let not_keyless : (inputs.target_address == keyless_deploy_address) ≡ false = rw to refl in
      intercept-skips MegaSpecId.rex2 (λ g. some (oracle_hint B execute inputs g, none))
        (from_keyless B execute inputs depth) h h rex2
        (ap (λ g. some (g, none)) (oracle_hint-elsewhere inputs h not_oracle))
      ∙ intercept-skips MegaSpecId.rex2 (keyless B execute inputs depth)
          (from_access_control B execute inputs depth) h h rex2
          (keyless-elsewhere inputs depth h not_keyless)
      ∙ intercept-answers MegaSpecId.rex4 (access_control B execute inputs depth)
          (from_limit_control B execute inputs) h h' result rex4 answered

  -- A call without value of the contract.
  pub record IsPlain (inputs : CallInputs R) : Type 0 where
    pub to : inputs.target_address ≡ access_control_address
    pub free : transfers B execute inputs ≡ false

  disable-answer :
      (inputs : CallInputs R) (depth : ℕ) (h : Host W Rest)
      → IsPlain inputs
      → B.is_disable_volatile inputs.input ≡ true
      → access_control B execute inputs depth h
        ≡ some (
          record h { volatile_data_tracker = disable_access depth h.volatile_data_tracker },
          some (synthetic B execute B.return_ R.no_bytes inputs),
        )
  unfolding access_control disable_volatile unless_transfer
  disable-answer inputs depth h plain disables =
      rw (access_control, plain.to, disables, disable_volatile, unless_transfer, plain.free)

  query-answer :
      (inputs : CallInputs R) (depth : ℕ) (h : Host W Rest)
      → IsPlain inputs
      → B.is_disable_volatile inputs.input ≡ false
      → B.is_enable_volatile inputs.input ≡ false
      → B.is_volatile_query inputs.input ≡ true
      → access_control B execute inputs depth h
        ≡ some (
          h,
          some (
              synthetic B execute B.return_
                (B.encode_bool (volatile_access_disabled depth h.volatile_data_tracker))
                inputs),
        )
  unfolding access_control query_volatile unless_transfer
  query-answer inputs depth h plain no_disable no_enable asks = rw (
    access_control, plain.to, no_disable, no_enable, asks, query_volatile, unless_transfer,
    plain.free,
  )

  -- From REX4 on, and if the calls send no value: a call that disables volatile data at a depth
  -- returns, and changes the tracker alone; and a query after it, from any depth, is answered with
  -- whether that depth is at least the first one or was disabled before, and changes nothing.
  pub dispatch-disable-query :
      (disable query : CallInputs R) (depth current : ℕ) (h : Host W Rest)
      → is_enabled h.spec MegaSpecId.rex2 ≡ true
      → is_enabled h.spec MegaSpecId.rex4 ≡ true
      → IsPlain disable
      → IsPlain query
      → B.is_disable_volatile disable.input ≡ true
      → B.is_disable_volatile query.input ≡ false
      → B.is_enable_volatile query.input ≡ false
      → B.is_volatile_query query.input ≡ true
      → let tracker = disable_access depth h.volatile_data_tracker in
        let h' : Host W Rest = record h { volatile_data_tracker = tracker } in
        let answer =
          B.encode_bool
            (leb depth current || volatile_access_disabled current h.volatile_data_tracker) in
        (dispatch B execute disable depth h
          ≡ some (h', some (synthetic B execute B.return_ R.no_bytes disable)))
        × (dispatch B execute query current h'
            ≡ some (h', some (synthetic B execute B.return_ answer query)))
  dispatch-disable-query disable query depth current h rex2 rex4 plain plain' disables no_disable
        no_enable asks =
      let tracker = disable_access depth h.volatile_data_tracker in
      let h' : Host W Rest = record h { volatile_data_tracker = tracker } in
      (
        dispatch-access_control disable depth h h'
            (synthetic B execute B.return_ R.no_bytes disable) rex2 rex4 plain.to
            (disable-answer disable depth h plain disables),
        dispatch-access_control query current h' h'
              (synthetic B execute B.return_
                (B.encode_bool (volatile_access_disabled current tracker)) query)
              rex2 rex4 plain'.to (query-answer query current h' plain' no_disable no_enable asks)
            ∙ ap (λ b. some (h', some (synthetic B execute B.return_ (B.encode_bool b) query)))
                (volatile_access_disabled-disable_access depth current h.volatile_data_tracker),
      )
