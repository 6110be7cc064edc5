-- ===== src/Access/Tracker/Disabling.antt =====
-- The scope of `disableVolatileDataAccess` in crates/mega-evm/src/access/tracker.rs.
use mega_evm.Prelude.{ℕ, suc, ◌≤◌, ◌<◌, ◌≡◌, refl, ◌∙◌, not, true, false, ◌||◌, ◌&&◌, leb, arith}
use mega_evm.Access.Tracker.{
  VolatileDataAccessTracker, disable_access, volatile_access_disabled, enable_access,
  enable_access_if_returning,
}

-- Disabling at a depth adds that depth and all deeper ones to what is disabled, and no other.
pub volatile_access_disabled-disable_access :
    (depth current : ℕ) (t : VolatileDataAccessTracker)
    → volatile_access_disabled current (disable_access depth t)
      ≡ (leb depth current || volatile_access_disabled current t)
unfolding volatile_access_disabled disable_access
volatile_access_disabled-disable_access depth current t = ground arith

-- A caller one deeper than `depth` can re-enable access exactly when `depth` is not disabled. If it
-- can, nothing is disabled any more; if not, what is disabled stays as it was.
enable_access-outcome :
    (depth current : ℕ) (t : VolatileDataAccessTracker)
    → let (t', done) = enable_access (suc depth) t in
      (done ≡ not (volatile_access_disabled depth t))
      × (volatile_access_disabled current t'
          ≡ (volatile_access_disabled depth t && volatile_access_disabled current t))
unfolding enable_access volatile_access_disabled
enable_access-outcome depth current t = ground arith

disabled-return :
    (depth current : ℕ) (t : VolatileDataAccessTracker)
    → volatile_access_disabled current (enable_access_if_returning depth t)
      ≡ (volatile_access_disabled depth t && volatile_access_disabled current t)
unfolding enable_access_if_returning volatile_access_disabled
disabled-return depth current t = ground arith

-- What is disabled at a depth is disabled at every greater one.
disabled_mono :
    (a b : ℕ) (t : VolatileDataAccessTracker)
    → a ≤ b
    → volatile_access_disabled a t ≡ true
    → volatile_access_disabled b t ≡ true
unfolding volatile_access_disabled
disabled_mono a b t h d = ground arith

-- What can happen in the subtree of a frame at depth `base` that has disabled access.
pub data InSubtree (base : ℕ) : VolatileDataAccessTracker → VolatileDataAccessTracker → Type 0 where
  stay : (t : VolatileDataAccessTracker) → InSubtree base t t
  disables :
      {t u : VolatileDataAccessTracker} (depth : ℕ)
      → base ≤ depth
      → InSubtree base (disable_access depth t) u
      → InSubtree base t u
  enables :
      {t u : VolatileDataAccessTracker} (caller : ℕ)
      → base < caller
      → InSubtree base (enable_access caller t).0 u
      → InSubtree base t u
  returns :
      {t u : VolatileDataAccessTracker} (depth : ℕ)
      → base ≤ depth
      → InSubtree base (enable_access_if_returning depth t) u
      → InSubtree base t u

-- An event of the subtree leaves what is disabled at the frame's depth and above.
abbrev Keeps : ℕ → VolatileDataAccessTracker → VolatileDataAccessTracker → Type 0
Keeps base t t' =
    (c : ℕ)
    → c ≤ base
    → volatile_access_disabled base t ≡ true
    → volatile_access_disabled c t' ≡ volatile_access_disabled c t

disable-Keeps :
    (base depth : ℕ) (t : VolatileDataAccessTracker)
    → base ≤ depth
    → Keeps base t (disable_access depth t)
unfolding volatile_access_disabled disable_access
disable-Keeps base depth t b c h d = ground arith

enable-Keeps :
    (base caller : ℕ) (t : VolatileDataAccessTracker)
    → base < caller
    → Keeps base t (enable_access caller t).0
unfolding volatile_access_disabled enable_access
enable-Keeps base caller t b c h d = ground arith

return-Keeps :
    (base depth : ℕ) (t : VolatileDataAccessTracker)
    → base ≤ depth
    → Keeps base t (enable_access_if_returning depth t)
unfolding volatile_access_disabled enable_access_if_returning
return-Keeps base depth t b c h d = ground arith

subtree-Keeps : {base : ℕ} {t u : VolatileDataAccessTracker} → InSubtree base t u → Keeps base t u
subtree-Keeps (stay t) c h d = refl
subtree-Keeps {base} (disables {t = t} depth b run) c h d =
    let step = disable-Keeps base depth t b in
    subtree-Keeps run c h (step base (omega arith) d ∙ d) ∙ step c h d
subtree-Keeps {base} (enables {t = t} caller b run) c h d =
    let step = enable-Keeps base caller t b in
    subtree-Keeps run c h (step base (omega arith) d ∙ d) ∙ step c h d
subtree-Keeps {base} (returns {t = t} depth b run) c h d =
    let step = return-Keeps base depth t b in
    subtree-Keeps run c h (step base (omega arith) d ∙ d) ∙ step c h d

disabled-disable_self :
    (depth : ℕ) (t : VolatileDataAccessTracker)
    → volatile_access_disabled depth (disable_access depth t) ≡ true
unfolding volatile_access_disabled disable_access
disabled-disable_self depth t = ground arith

-- From the moment that a frame disables access, and for as long as only frames of its subtree run,
-- access is disabled at its depth and at every greater one, whatever those frames disable, try to
-- enable or return from.
pub disable_access-subtree :
    (base current : ℕ) (t u : VolatileDataAccessTracker)
    → InSubtree base (disable_access base t) u
    → base ≤ current
    → volatile_access_disabled current u ≡ true
disable_access-subtree base current t u run h =
    let start = disabled-disable_self base t in
    disabled_mono base current u h (subtree-Keeps run base (omega arith) start ∙ start)

-- When the frame that disabled access returns to its parent, for which access was not disabled
-- before, nothing is disabled any more: the restriction does not reach a sibling.
pub disable_access-returned :
    (parent current : ℕ) (t u : VolatileDataAccessTracker)
    → volatile_access_disabled parent t ≡ false
    → InSubtree (suc parent) (disable_access (suc parent) t) u
    → volatile_access_disabled current (enable_access_if_returning parent u) ≡ false
disable_access-returned parent current t u free run =
    let start = disabled-disable_self (suc parent) t in
    let at_parent = subtree-Keeps run parent (omega arith) start in
    disabled-return parent current u
    ∙ rw (at_parent, volatile_access_disabled-disable_access (suc parent) parent t, free)
        (ground arith)
