-- ===== src/Config/Redirect.antt =====
-- What the mapping of the models does: backend-go/internal/config/config_utils.go.
use mathlib.Core.Logic.Or
use mathlib.Core.List.{Mem, mem-cons}
use mathlib.Core.List.Perm
use Prim.Native.String.{len}
use ccx.Base.{
  string_eq, ◌≡◌, refl, true, false, ◌&&◌, Option, none, some, List, [], ◌∷◌, String, ltb, All,
  Bool-cases, inl, inr, arith,
}
use ccx.Base.Dict.{lookup}
use ccx.Base.Sort.{sort_stable, sort_stable-perm, sort_stable-IsSorted, sort_stable-All, IsSorted}
use ccx.Base.Text.{contains}
use ccx.Config.Types.{UpstreamConfig}
use ccx.Config.Models.{is_longer, first_contained, find_mapping, redirect_model}

-- The entry is no better match for the model than the text `source`.
abbrev pub IsNoBetter : String → String → String × String → Type 0
IsNoBetter model source entry = (contains model entry.0 && ltb (len source) (len entry.0)) ≡ false

abbrev pub IsBestMatch : String → List (String × String) → Option (String × String) → Type 0
IsBestMatch model mapping none = All (λ entry. contains model entry.0 ≡ false) mapping
IsBestMatch model mapping (some best) =
    Mem best mapping × (contains model best.0 ≡ true) × All (IsNoBetter model best.0) mapping

IsSorted-IsNoBetter :
    (model : String) (best : String × String) (entries : List (String × String))
    → All (λ entry. is_longer entry best ≡ false) entries
    → All (IsNoBetter model best.0) entries
IsSorted-IsNoBetter model best [] h = tt
IsSorted-IsNoBetter model best (entry ∷ entries) h =
    (ground (arith, h.0), IsSorted-IsNoBetter model best entries h.1)

IsBestMatch-skip :
    (model : String) (entry : String × String) (entries : List (String × String))
    (found : Option (String × String))
    → contains model entry.0 ≡ false
    → IsBestMatch model entries found
    → IsBestMatch model (entry ∷ entries) found
IsBestMatch-skip model entry entries none e h = (e, h)
IsBestMatch-skip model entry entries (some best) e h =
    (mem-cons.1 (Or.inr h.0), h.1, (ground (arith, e), h.2))

first_contained-sorted :
    (model : String) (entries : List (String × String))
    → IsSorted is_longer entries
    → IsBestMatch model entries (first_contained model entries)
unfolding first_contained
first_contained-sorted model [] h = tt
first_contained-sorted model (entry ∷ entries) h = elim (Bool-cases (contains model entry.0)) [
  | inl e ↦ rw e (
    mem-cons.1 (Or.inl refl),
    e,
    (ground (arith, e), IsSorted-IsNoBetter model entry entries h.0),
  )
  | inr e ↦
      rw e (IsBestMatch-skip model entry entries _ e (first_contained-sorted model entries h.1))
]

is_longer-asym : (a b : String × String) → is_longer a b ≡ true → is_longer b a ≡ false
is_longer-asym a b h = ground (arith, h)

is_longer_trans :
    (a b c : String × String)
    → is_longer b a ≡ false
    → is_longer c b ≡ false
    → is_longer c a ≡ false
is_longer_trans a b c h k = ground (arith, h, k)

sorted-IsBestMatch :
    (model : String) (mapping : List (String × String)) (found : Option (String × String))
    → IsBestMatch model (sort_stable is_longer mapping) found
    → IsBestMatch model mapping found
sorted-IsBestMatch model mapping none h =
    sort_stable-All is_longer (λ entry. contains model entry.0 ≡ false) mapping h
sorted-IsBestMatch model mapping (some best) h = (
  (Perm.mem_iff (sort_stable-perm is_longer mapping)).0 h.0,
  h.1,
  sort_stable-All is_longer (IsNoBetter model best.0) mapping h.2,
)

-- The entry that a model without an exact entry is mapped by stands in the mapping, has a source that the model contains, and no source that
-- the model contains is longer; where no entry is found the model contains no source.
pub best_match :
    (model : String) (mapping : List (String × String))
    → IsBestMatch model mapping (first_contained model (sort_stable is_longer mapping))
best_match model mapping = sorted-IsBestMatch model mapping _ (
    first_contained-sorted model (sort_stable is_longer mapping)
      (sort_stable-IsSorted is_longer is_longer-asym is_longer_trans mapping))

abbrev pub target_or : String → Option (String × String) → String
target_or model none = model
target_or model (some entry) = entry.1

abbrev pub exact_or : Option String → String → String
exact_or none other = other
exact_or (some exact) other = exact

-- A model is sent as the target of its exact entry; without one, as the target of an entry of the mapping whose source
-- the model contains, where it contains no longer source of the mapping; and as itself where it contains none.
pub redirect_longest :
    (model : String) (u : UpstreamConfig)
    → (found : Option (String × String)) × IsBestMatch model u.model_mapping found
      × (redirect_model model u ≡ exact_or (lookup model u.model_mapping) (target_or model found))
unfolding redirect_model find_mapping
redirect_longest model u = (
  first_contained model (sort_stable is_longer u.model_mapping),
  best_match model u.model_mapping,
  ground arith,
)
