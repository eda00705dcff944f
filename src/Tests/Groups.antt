-- ===== src/Tests/Groups.antt =====
-- Runs of the theorems on groups of hooks.
use acmed.Base.{
  ℕ, ◌<◌, String, ◌≡◌, refl, none, [], ◌∷◌, ◌==◌, string_eq, if◌then◌else◌, All, Bool-cases, inl,
  inr, subst, arith,
}
use acmed.Base.Result.{panic}
use acmed.Config.Types
use acmed.Config.Types.{Config, Group}
use acmed.Config.Lookup.{find_hook, find_group, get_hook}
use acmed.Base.Ends.{Ends}
use acmed.Config.Groups.{Ranked, get_hook-Ends, get_hook-cyclic}

abbrev one : Types.Hook
one = record {
  allow_failure = none;
  args = none;
  cmd = "true";
  name = "one";
  stderr = none;
  stdin = none;
  stdin_str = none;
  stdout = none;
  hook_type = Types.post_operation ∷ [];
}

abbrev group_of : String → Group
group_of member = record { hooks = member ∷ []; name = "every" }

abbrev config_of : String → Config
config_of member = record {
  global = none;
  endpoint = [];
  rate_limit = [];
  hook = one ∷ [];
  group = group_of member ∷ [];
  account = [];
  certificate = [];
  included = [];
}

abbrev rank : String → ℕ
rank name = if name == "every" then 1 else 0

config_of-Ranked : Ranked (config_of "one") rank
unfolding find_group
config_of-Ranked = record {
  above = λ name grp h. elim (Bool-cases (name == "every")) [
    | inl y ↦
        let same : group_of "one" ≡ grp = cc (rw y at h) in
        subst (λ (g : Group). All (λ member. rank member < rank name) g.hooks) same
          (rw y (omega arith, tt))
    | inr n ↦ absurd (cc (rw n at h))
  ];
}

get_hook-Ends_example : Ends (get_hook (config_of "one") 2 "every")
get_hook-Ends_example =
    get_hook-Ends (config_of "one") rank config_of-Ranked 2 "every" (omega arith)

get_hook-cyclic_example : get_hook (config_of "every") 9 "every" ≡ panic "stack overflow"
unfolding find_hook find_group
get_hook-cyclic_example =
    get_hook-cyclic (config_of "every") "every" [] (group_of "every") 9 refl refl refl
