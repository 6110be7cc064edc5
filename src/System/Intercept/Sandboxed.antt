-- ===== src/System/Intercept/Sandboxed.antt =====
-- No keyless deployment runs inside another, crates/mega-evm/src/system/intercept.rs.
use mega_evm.Prelude.{
  ℕ, ◌≡◌, refl, sym, ◌∙◌, Bool, true, not, ◌||◌, ◌==◌, Option, inl, inr, Bool-cases, Option-cases,
}
use mega_evm.Spec.{MegaSpecId, is_enabled}
use mega_evm.Limit.Revm.{Revm, FrameResult}
use mega_evm.System.Intercept.{
  CallInputs, Bindings, Host, dispatch, keyless, oracle_hint, intercept, from_keyless,
  from_access_control, from_limit_control, access_control, limit_control, disable_volatile,
  enable_volatile, query_volatile, remaining_compute_gas, unless_transfer, synthetic, transfers,
}
use mega_evm.Access.Tracker.{oracle_contract_address}

abbrev pub Execute : Revm → Type 0 → Type 0 → Type 0
Execute R W Rest = Host W Rest → CallInputs R → R.Bytes → ℕ → Option (Host W Rest × FrameResult R)

module _ {R : Revm} {W Rest : Type 0} (B : Bindings R W) where
  -- Whether a keyless deployment is out of the question.
  abbrev pub sandbox_off : ℕ → Host W Rest → Bool
  sandbox_off depth h = h.disable_sandbox || not (depth == 0)

  oracle_hint-keeps :
      (execute : Execute R W Rest) (inputs : CallInputs R) (depth : ℕ) (h : Host W Rest)
      → sandbox_off depth (oracle_hint B execute inputs h) ≡ sandbox_off depth h
  unfolding oracle_hint
  oracle_hint-keeps execute inputs depth h =
      elim (Bool-cases (inputs.target_address == oracle_contract_address)) [
        | inr away ↦ rw (oracle_hint, away)
        | inl here ↦ elim (Option-cases (B.send_hint inputs.input)) [
          | inl unknown ↦ rw (oracle_hint, here, unknown)
          | inr (hint, found) ↦ rw (oracle_hint, here, found)
        ]
      ]

  -- The keyless interceptor and the ones after it are then those after it.
  from_keyless-off :
      (execute : Execute R W Rest) (inputs : CallInputs R) (depth : ℕ) (h : Host W Rest)
      → sandbox_off depth h ≡ true
      → from_keyless B execute inputs depth h ≡ from_access_control B execute inputs depth h
  unfolding from_keyless intercept keyless
  from_keyless-off execute inputs depth h off =
      elim (Bool-cases (is_enabled h.spec MegaSpecId.rex2)) [
        | inl on ↦ rw (from_keyless, intercept, on, keyless, off)
        | inr before ↦ rw (from_keyless, intercept, before)
      ]

  -- In a sandbox, and in any frame below the top, the dispatch of the interceptors does not run a
  -- keyless deployment: whatever its execution is, the answer and the state are the same.
  pub dispatch-sandboxed :
      (execute execute' : Execute R W Rest) (inputs : CallInputs R) (depth : ℕ) (h : Host W Rest)
      → sandbox_off depth h ≡ true
      → dispatch B execute inputs depth h ≡ dispatch B execute' inputs depth h
  unfolding dispatch intercept from_access_control from_limit_control access_control limit_control
      disable_volatile enable_volatile query_volatile remaining_compute_gas unless_transfer
      synthetic transfers oracle_hint
  dispatch-sandboxed execute execute' inputs depth h off =
      let hinted = oracle_hint B execute inputs h in
      let off' : sandbox_off depth hinted ≡ true = oracle_hint-keeps execute inputs depth h ∙ off in
      elim (Bool-cases (is_enabled h.spec MegaSpecId.rex2)) [
        | inl on ↦
            rw (dispatch, intercept, on)
              (from_keyless-off execute inputs depth hinted off'
                ∙ sym (from_keyless-off execute' inputs depth hinted off'))
        | inr before ↦ rw (dispatch, intercept, before) refl
      ]
