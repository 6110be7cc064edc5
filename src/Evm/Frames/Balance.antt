-- ===== src/Evm/Frames/Balance.antt =====
-- crates/mega-evm/src/evm/execution.rs: what it is for the limit trackers to be in step with revm's
-- stack of frames.
use mega_evm.Prelude.{
  ℕ, ◌≡◌, refl, ◌∙◌, true, Option, none, some, Returns, Returns-none, Returns-some, Returns-bind,
  Returns-value,
}
use mega_evm.Spec.{MegaSpecId, is_enabled}
use mega_evm.Limit.Events.{DbResult}
use mega_evm.Limit.Revm.{Revm, FrameResult}
use mega_evm.Limit.Additional.{AdditionalLimit}
use mega_evm.Limit.Additional.Depth.{HasDepth, Hooked-HasDepth}
use mega_evm.System.Intercept.{CallInputs, Bindings, Host}
use mega_evm.Evm.Frames.{Inner, Outcome, ◌>>?◌, inner, hook}
use mega_evm.Evm.Frames.Stacks.{Stack, KeepsFrames, IsRevm}

-- The predicate holds of an answer and the state after it, if it is not an error.
abbrev pub Holds {ℓ} : {H E : Type 0} {A : Type ℓ} → (A → H → Type 0) → H × DbResult E A → Type 0
Holds Q (h, DbResult.ok a) = Q a h
Holds Q (h, DbResult.err e) = Unit

pub >>?-Holds {ℓ κ} :
    {H E : Type 0} {A : Type ℓ} {B : Type κ} (Q : A → H → Type 0) (P : B → H → Type 0)
    (m : Outcome H E A) (f : H × A → Outcome H E B)
    → Returns (λ x. Holds Q x) m
    → ((h : H) (a : A) → Q a h → Returns (λ x. Holds P x) (f (h, a)))
    → Returns (λ x. Holds P x) (m >>? f)
unfolding ◌>>?◌
>>?-Holds Q P none f q k = Returns-none _
>>?-Holds Q P (some (h, DbResult.ok a)) f q k = k h a (Returns-value (λ x. Holds Q x) _ _ q refl)
>>?-Holds Q P (some (h, DbResult.err e)) f q k = Returns-some _ (h, DbResult.err e) tt

pub Holds-answer {ℓ} :
    {H E : Type 0} {A : Type ℓ} (Q : A → H → Type 0) (h : H) (answer : DbResult E A)
    → ((a : A) → answer ≡ DbResult.ok a → Q a h)
    → Holds Q (h, answer)
Holds-answer Q h (DbResult.ok a) k = k a refl
Holds-answer Q h (DbResult.err e) k = tt

module _ {R : Revm} {W S E : Type 0} (B : Bindings R W) (V : Inner R W S E)
    (execute : Host W S → CallInputs R → R.Bytes → ℕ → Option (Host W S × FrameResult R))
    (stack : S → Stack) (revm : IsRevm V execute stack) (spec : MegaSpecId)
    (on : is_enabled spec MegaSpecId.mini_rex ≡ true) where
  -- revm has this stack, and each tracker this many frames.
  abbrev pub IsAt : Stack → ℕ → Host W S → Type 0
  IsAt l n h = (h.spec ≡ spec) × HasDepth n h.additional_limit × (stack h.rest ≡ l)

  pub KeepsFrames-IsAt :
      (l : Stack) (n : ℕ) (h h' : Host W S) → KeepsFrames stack h h' → IsAt l n h → IsAt l n h'
  KeepsFrames-IsAt l n h h' k (s, d, e) =
      (k.same_spec ∙ s, Hooked-HasDepth n k.hooked d, k.same_stack ∙ e)

  pub inner-Holds {ℓ} :
      {A : Type ℓ} (Q : A → Host W S → Type 0) (f : S → S × DbResult E A) (h : Host W S)
      → ((a : A) → (f h.rest).1 ≡ DbResult.ok a → Q a (record h { rest = (f h.rest).0 }))
      → Returns (λ x. Holds Q x) (inner f h)
  unfolding inner
  inner-Holds Q f h k = Returns-some _ _ (Holds-answer Q _ (f h.rest).1 k)

  pub hook-Holds {ℓ} :
      {A : Type ℓ} (Q : A → Host W S → Type 0) (otherwise : A)
      (f : AdditionalLimit → Option (AdditionalLimit × A)) (h : Host W S)
      → h.spec ≡ spec
      → Returns (λ (a, x). Q x (record h { additional_limit = a })) (f h.additional_limit)
      → Returns (λ x. Holds {E = E} Q x) (hook otherwise f h)
  unfolding hook
  hook-Holds Q otherwise f h s k =
      let enabled : is_enabled h.spec MegaSpecId.mini_rex ≡ true = rw s on in
      rw enabled (
        Returns-bind (λ (a, x). Q x (record h { additional_limit = a })) _ _ _ k
          λ _ q. Returns-some _ _ q)
