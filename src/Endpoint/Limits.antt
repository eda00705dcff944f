-- ===== src/Endpoint/Limits.antt =====
-- The rate limits of acmed/src/endpoint.rs. A duration is its number of nanoseconds.
use Prim.Native.Nat.{compare, Ordering}
use acmed.Base.{ℕ, ◌/◌, ◌*◌, ◌^◌, String, Bool, false, ◌||◌, Option, none, some, List, contains}
use mathlib.Core.List.{reverse}
use acmed.Base.Result.{Result, ok, err, panic, ◌>>=◌, ◌>>◌, collect, ok_or, map_err}
use acmed.Error.{Error, from_text}
use acmed.Config.Types
use acmed.Config.Types.{NamedAcmeResource, resource_eq}
use acmed.World.{Quota}
use acmed.Duration.{parse_duration}

-- governor, regex and itertools
pub record Packages : Type 0 where
  pub with_period : ℕ → Option Quota
  pub allow_burst : Quota → ℕ → Quota
  pub new_regex : String → Result String (Unit {0})
  pub is_match : String → String → Bool
  pub sorted_by :
      (Types.RateLimit → Types.RateLimit → Ordering) → List Types.RateLimit → List Types.RateLimit

-- `limiter` is known by its quota; `path` by the text of its regular expression.
pub record RateLimit : Type 0 where
  pub limiter : Quota
  pub resources : List NamedAcmeResource
  pub path : Option String

pub record RateLimits : Type 0 where
  pub limits : List RateLimit

nanoseconds : ℕ → ℕ
nanoseconds seconds = seconds * 10 ^ 9

-- A period that is too long to add up panics: in `try_from`, which reads each of the limits.
abbrev or_zero : Result Error ℕ → ℕ
or_zero (ok d) = d
or_zero (err _) = 0
or_zero (panic _) = 0

-- how long one request takes from its budget
unfoldable pub time_per_request : Types.RateLimit → ℕ
unfolding nanoseconds
time_per_request raw = nanoseconds (or_zero (parse_duration raw.period)) / raw.number

unfoldable pub rate_limit_cmp : Types.RateLimit → Types.RateLimit → Ordering
rate_limit_cmp a b = compare (time_per_request a) (time_per_request b)

compile : Packages → Option String → Result Error (Option String)
compile packages none = ok none
compile packages (some path) = do map_err from_text (packages.new_regex path); ok (some path)

-- `TryFrom<&config::RateLimit>`
unfoldable pub try_from : Packages → Types.RateLimit → Result Error RateLimit
unfolding compile nanoseconds
try_from packages value = do
  period ← parse_duration value.period
  quota ←
      ok_or (packages.with_period (nanoseconds period / value.number))
        (from_text "rate-limit period was passed as zero, which is illegal")
  path ← compile packages value.path
  ok (record {
    limiter = packages.allow_burst quota value.number;
    resources = value.acme_resources;
    path = path;
  })

-- `RateLimits::new`: the strongest limits first
unfoldable pub new : Packages → List Types.RateLimit → Result Error RateLimits
new packages raw_limits = do
  limits ← collect (try_from packages) (reverse (packages.sorted_by rate_limit_cmp raw_limits))
  ok (record { limits = limits })

abbrev names_resource : List NamedAcmeResource → Option NamedAcmeResource → Bool
names_resource resources none = false
names_resource resources (some r) = contains resources r

abbrev matches_path : (String → String → Bool) → Option String → String → Bool
matches_path is_match none path = false
matches_path is_match (some matcher) path = is_match matcher path

-- `RateLimit::matches`
unfoldable pub matches :
    (String → String → Bool) → RateLimit → Option NamedAcmeResource → String → Bool
matches is_match limit resource path =
    names_resource limit.resources resource || matches_path is_match limit.path path
