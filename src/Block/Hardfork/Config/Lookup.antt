-- ===== src/Block/Hardfork/Config/Lookup.antt =====
-- What `get` finds after the updates of crates/mega-evm/src/block/hardfork.rs.
use mega_evm.Prelude.{
  ℕ, ◌≡◌, refl, ap, ◌∙◌, true, ◌==◌, if◌then◌else◌, none, some, [], ◌∷◌, arith, ltb,
}
use mega_evm.Block.Hardfork.{MegaHardfork}
use mega_evm.Block.Hardfork.Config.{
  ForkConditions, MegaHardforkConfig, name, insert, get, without, mega_fork_activation,
  with_all_activated, position, set_at, next,
}

module _ (F : ForkConditions) where
  open F use {ForkCondition, never, from_timestamp_zero}

  -- `insert` replaces the first entry of the name, and else appends one.
  insert_cons :
      (h k : ℕ) (c d : ForkCondition) (rest : MegaHardforkConfig F)
      → insert F h c ((k, d) ∷ rest)
        ≡ (if k == h then (h, c) ∷ rest else (k, d) ∷ insert F h c rest)
  unfolding insert position set_at next
  insert_cons h k c d rest = ground arith

  insert_nil : (h : ℕ) (c : ForkCondition) → insert F h c [] ≡ (h, c) ∷ []
  unfolding insert position
  insert_nil h c = refl

  -- After an insertion, the condition of the inserted hardfork is the new one, and that of every
  -- other is as before.
  pub get-insert :
      (h other : ℕ) (c : ForkCondition) (config : MegaHardforkConfig F)
      → get F other (insert F h c config) ≡ (if other == h then some c else get F other config)
  unfolding get
  get-insert h other c [] = rw (insert_nil h c) (ground arith)
  get-insert h other c ((k, d) ∷ rest) =
      rw (insert_cons h k c d rest) (ground (arith, get-insert h other c rest))

  -- After a removal, the hardfork has no condition, and every other has the one it had.
  pub get-without :
      (h other : ℕ) (config : MegaHardforkConfig F)
      → get F other (without F h config) ≡ (if other == h then none else get F other config)
  unfolding get without
  get-without h other [] = ground arith
  get-without h other ((k, d) ∷ rest) = ground (arith, get-without h other rest)

  get-with_all_activated :
      (other : ℕ) (config : MegaHardforkConfig F)
      → get F other (with_all_activated F config)
        ≡ (if ltb other 8 then some from_timestamp_zero else get F other config)
  unfolding with_all_activated
  get-with_all_activated other config = simp (get-insert) (ground arith)

  activated :
      (fork : MegaHardfork) (config : MegaHardforkConfig F) (c : ForkCondition)
      → get F (name fork) config ≡ some c
      → mega_fork_activation F fork config ≡ c
  unfolding mega_fork_activation
  activated fork config c h = rw (mega_fork_activation, h)

  name_below : (fork : MegaHardfork) → ltb (name fork) 8 ≡ true
  name_below fork = ground arith

  -- Once all are activated, every hardfork of this chain is active from timestamp 0 on, and the
  -- condition of every hardfork of another crate is the one it had.
  with_all_activated-mega_fork_activation :
      (fork : MegaHardfork) (other : ℕ) (config : MegaHardforkConfig F)
      → let all = with_all_activated F config in
        (mega_fork_activation F fork all ≡ from_timestamp_zero)
        × (get F other all ≡ (if ltb other 8 then some from_timestamp_zero else get F other config))
  with_all_activated-mega_fork_activation fork other config =
      let found =
        get-with_all_activated (name fork) config
        ∙ ap (λ b. if b then some from_timestamp_zero else get F (name fork) config)
            (name_below fork) in
      (
        activated fork (with_all_activated F config) from_timestamp_zero found,
        get-with_all_activated other config,
      )
