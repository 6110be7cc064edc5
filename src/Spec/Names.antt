-- ===== src/Spec/Names.antt =====
-- crates/mega-evm/src/evm/spec.rs: the names of the versions and their parsing.
use Prim.Native.String.{String}
use text.Mathlib.Text as Text
use text.Mathlib.TextEquality.{eq_iff}
use mega_evm.Prelude.{
  ◌≡◌, ◌↔◌, refl, ap, ◌∙◌, if◌then◌else◌, Option, none, some, inl, inr, Bool-cases,
}
use mathlib.Core.Option.{some-injective}
use mega_evm.Spec.{MegaSpecId}

-- The constants of the module `name`, by `From<MegaSpecId> for &'static str`.
unfoldable pub name : MegaSpecId → String
name MegaSpecId.equivalence = "Equivalence"
name MegaSpecId.mini_rex = "MiniRex"
name MegaSpecId.rex = "Rex"
name MegaSpecId.rex1 = "Rex1"
name MegaSpecId.rex2 = "Rex2"
name MegaSpecId.rex3 = "Rex3"
name MegaSpecId.rex4 = "Rex4"

-- A case of the match: an unknown name is `none`.
if_named : String → MegaSpecId → Option MegaSpecId → Option MegaSpecId
unfolding name
if_named s spec rest = if Text.◌==◌ s (name spec) then some spec else rest

-- `FromStr`.
unfoldable pub from_str : String → Option MegaSpecId
unfolding if_named
from_str s = if_named s MegaSpecId.equivalence (
    if_named s MegaSpecId.mini_rex (
      if_named s MegaSpecId.rex (
        if_named s MegaSpecId.rex1 (
          if_named s MegaSpecId.rex2
            (if_named s MegaSpecId.rex3 (if_named s MegaSpecId.rex4 none))))))

from_str-name : (spec : MegaSpecId) → from_str (name spec) ≡ some spec
unfolding from_str name
from_str-name MegaSpecId.equivalence = refl
from_str-name MegaSpecId.mini_rex = refl
from_str-name MegaSpecId.rex = refl
from_str-name MegaSpecId.rex1 = refl
from_str-name MegaSpecId.rex2 = refl
from_str-name MegaSpecId.rex3 = refl
from_str-name MegaSpecId.rex4 = refl

-- A case gives a version whose name is the string, if the rest does.
if_named_sound :
    (s : String) (spec found : MegaSpecId) (rest : Option MegaSpecId)
    → (rest ≡ some found → s ≡ name found)
    → if_named s spec rest ≡ some found
    → s ≡ name found
unfolding if_named
if_named_sound s spec found rest h = elim (Bool-cases (Text.◌==◌ s (name spec))) [
  | inl same ↦ rw same (λ e. (eq_iff s (name spec)).0 same ∙ ap name (some-injective spec found e))
  | inr differ ↦ rw differ h
]

from_str_sound : (s : String) (spec : MegaSpecId) → from_str s ≡ some spec → s ≡ name spec
unfolding from_str
from_str_sound s spec = if_named_sound s MegaSpecId.equivalence spec _ (
    if_named_sound s MegaSpecId.mini_rex spec _ (
      if_named_sound s MegaSpecId.rex spec _ (
        if_named_sound s MegaSpecId.rex1 spec _ (
          if_named_sound s MegaSpecId.rex2 spec _ (
            if_named_sound s MegaSpecId.rex3 spec _
              (if_named_sound s MegaSpecId.rex4 spec none (λ e. cc)))))))

-- A string parses to a version exactly if it is the name of that version: printing and parsing are
-- inverse, and no other string parses.
pub from_str_iff : (s : String) (spec : MegaSpecId) → (from_str s ≡ some spec) ↔ (s ≡ name spec)
from_str_iff s spec = (from_str_sound s spec, λ e. ap from_str e ∙ from_str-name spec)
