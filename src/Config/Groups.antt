-- ===== src/Config/Groups.antt =====
-- When the groups of hooks of acmed/src/config.rs can be resolved.
use acmed.Base.{ℕ, zero, suc, ◌<◌, String, ◌≡◌, refl, arith, Option, none, some, List, [], ◌∷◌, All}
use acmed.Base.Result.{Result, panic}
use acmed.Base.Ends.{Ends, Ends-bind, Ends-ok}
use acmed.Error.{Error}
use acmed.Config.Types.{Config, Group}
use acmed.Config.Types
use acmed.Hooks
use acmed.Config.Lookup.{to_hook, get_stdin, find_hook, find_group, append_all, expand, get_hook}

-- Each group stands above the names in it.
pub record Ranked (cnf : Config) (rank : String → ℕ) : Type 0 where
  pub above :
      (name : String) (grp : Group)
      → find_group name cnf.group ≡ some grp
      → All (λ member. rank member < rank name) grp.hooks

to_hook-Ends : (hook : Types.Hook) → Ends (to_hook hook)
unfolding to_hook get_stdin
to_hook-Ends hook m p = absurd (ground arith)

append_all-Ends :
    (get : String → Result Error (List Hooks.Hook)) (names : List String)
    → All (λ name. Ends (get name)) names
    → Ends (append_all get names)
append_all-Ends get [] h = Ends-ok []
append_all-Ends get (name ∷ names) h =
    Ends-bind (get name) _ h.0
      (λ x. Ends-bind (append_all get names) _ (append_all-Ends get names h.1) (λ ret. Ends-ok _))

expand-Ends :
    (get : String → Result Error (List Hooks.Hook)) (name : String) (hook : Option Types.Hook)
    (grp : Option Group)
    → ((g : Group) → grp ≡ some g → All (λ member. Ends (get member)) g.hooks)
    → Ends (expand get name hook grp)
expand-Ends get name (some hook) grp h =
    Ends-bind (to_hook hook) _ (to_hook-Ends hook) (λ x. Ends-ok _)
expand-Ends get name none (some grp) h = append_all-Ends get grp.hooks (h grp refl)
expand-Ends get name none none h = λ m p. absurd (cc)

module _ (cnf : Config) (rank : String → ℕ) (ranked : Ranked cnf rank) where
  members-End :
      (fuel bound : ℕ) (names : List String)
      → ((name : String) → rank name < fuel → Ends (get_hook cnf fuel name))
      → bound < suc fuel
      → All (λ member. rank member < bound) names
      → All (λ member. Ends (get_hook cnf fuel member)) names
  members-End fuel bound [] h small all_ = tt
  members-End fuel bound (n ∷ ns) h small all_ =
      (h n (omega (arith, all_.0)), members-End fuel bound ns h small all_.1)

  -- Where the groups can be ranked so that each stands above the names in it, the recursion of
  -- `get_hook` ends at a depth of the rank of its name: it returns hooks or an error.
  pub get_hook-Ends : (fuel : ℕ) (name : String) → rank name < fuel → Ends (get_hook cnf fuel name)
  unfolding get_hook
  get_hook-Ends zero name small = absurd (omega arith)
  get_hook-Ends (suc fuel) name small =
      expand-Ends (get_hook cnf fuel) name (find_hook name cnf.hook) (find_group name cnf.group)
        (λ g found.
          members-End fuel (rank name) g.hooks (get_hook-Ends fuel) small
            (ranked.above name g found))

module _ (cnf : Config) (name : String) (more : List String) (grp : Group) where
  -- Where a group names itself first, and no hook has its name, no depth is enough.
  pub get_hook-cyclic :
      (fuel : ℕ)
      → find_hook name cnf.hook ≡ none
      → find_group name cnf.group ≡ some grp
      → grp.hooks ≡ name ∷ more
      → get_hook cnf fuel name ≡ panic "stack overflow"
  unfolding get_hook
  get_hook-cyclic zero no_hook found first = refl
  get_hook-cyclic (suc fuel) no_hook found first =
      rw no_hook (rw found (rw first (rw (get_hook-cyclic fuel no_hook found first) refl)))
