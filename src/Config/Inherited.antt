-- ===== src/Config/Inherited.antt =====
-- Where an option of acmed/src/config.rs comes from, and what the name of a certificate may hold.
use acmed.Base.{
  ℕ, String, ◌<>◌, ◌≡◌, refl, sym, Bool, true, false, not, ◌&&◌, ◌||◌, ◌==◌, number_eq, subst,
  Option, none, some, List, [], ◌∷◌, all_chars, code, single, replace, if◌then◌else◌, Bool-cases,
  inl, inr,
}
use Prim.Native.String.append
use acmed.Base.Result.{Result, ok, >>=-eq-ok}
use acmed.Error.{Error}
use acmed.Config.Types
use acmed.Config.Types.{Config, GlobalOptions}
use acmed.Config.Options.{
  read_or, of_global, default_cert_renew_delay, default_cert_random_early_renew, global_renew_delay,
  global_random_early_renew, endpoint_renew_delay, endpoint_random_early_renew, do_get_endpoint,
  get_renew_delay, get_random_early_renew, is_reserved, name_of, get_crt_name,
}

-- the first option that is set
abbrev pub first_set : {A : Type 0} → List (Option A) → Option A
first_set [] = none
first_set (some a ∷ os) = some a
first_set (none ∷ os) = first_set os

read_or-first :
    (a b c : Option String) (d : Result Error ℕ)
    → read_or a (read_or b (read_or c d)) ≡ read_or (first_set (a ∷ b ∷ c ∷ [])) d
read_or-first (some x) b c d = refl
read_or-first none (some x) c d = refl
read_or-first none none (some x) d = refl
read_or-first none none none d = refl

of_global-delay :
    (g : Option GlobalOptions)
    → of_global global_renew_delay (ok default_cert_renew_delay) g
      ≡ read_or (of_global (λ x. x.renew_delay) none g) (ok default_cert_renew_delay)
unfolding global_renew_delay
of_global-delay none = refl
of_global-delay (some g) = refl

of_global-early :
    (g : Option GlobalOptions)
    → of_global global_random_early_renew (ok default_cert_random_early_renew) g
      ≡ read_or (of_global (λ x. x.random_early_renew) none g) (ok default_cert_random_early_renew)
unfolding global_random_early_renew
of_global-early none = refl
of_global-early (some g) = refl

-- The delay of a certificate whose endpoint is there is the first that is set of its own, that of
-- the endpoint and that of the global section, and 30 days where none is; and likewise its random
-- time, with 0 where none is set.
pub get_renew_delay-first_set :
    (crt : Types.Certificate) (cnf : Config) (ep : Types.Endpoint)
    → do_get_endpoint crt cnf ≡ ok ep
    → (get_renew_delay crt cnf
        ≡ read_or
            (first_set (
              crt.renew_delay
              ∷ ep.renew_delay
              ∷ of_global (λ g. g.renew_delay) none cnf.global
              ∷ []))
            (ok 2592000))
      × (get_random_early_renew crt cnf
          ≡ read_or
              (first_set (
                crt.random_early_renew
                ∷ ep.random_early_renew
                ∷ of_global (λ g. g.random_early_renew) none cnf.global
                ∷ []))
              (ok 0))
unfolding get_renew_delay get_random_early_renew endpoint_renew_delay endpoint_random_early_renew
get_renew_delay-first_set crt cnf ep there = (
  rw there (rw (of_global-delay cnf.global) (read_or-first crt.renew_delay ep.renew_delay _ _)),
  rw there (
      rw (of_global-early cnf.global)
        (read_or-first crt.random_early_renew ep.random_early_renew _ _)),
)

abbrev unreserved : String → Bool
unreserved s = all_chars (λ c. not (is_reserved c)) s

unreserved-append :
    (s t : String) → unreserved s ≡ true → unreserved t ≡ true → unreserved (s <> t) ≡ true
unreserved-append String.[] t h k = subst (λ x. unreserved x ≡ true) (sym (append.nil t)) k
unreserved-append (String.◌∷◌ c s) t h k =
    let parts = true-and (not (is_reserved (code c))) (unreserved s) h in
    subst (λ x. unreserved x ≡ true) (sym (append.cons c s t))
      (rw parts.0 (unreserved-append s t parts.1 k))
  where
    true-and : (a b : Bool) → (a && b) ≡ true → (a ≡ true) × (b ≡ true)
    true-and true b e = (refl, e)
    true-and false b e = absurd (cc)

unreserved-chosen :
    (c : ℕ) (one : String)
    → (is_reserved c ≡ false → unreserved one ≡ true)
    → unreserved (if is_reserved c then "_" else one) ≡ true
unfolding is_reserved
unreserved-chosen c one h = elim (Bool-cases (is_reserved c)) [
  | inl y ↦ rw y refl
  | inr n ↦ rw n (h n)
]

replace-unreserved : (s : String) → unreserved (replace is_reserved "_" s) ≡ true
unfolding replace
replace-unreserved String.[] = refl
replace-unreserved (String.◌∷◌ c s) =
    unreserved-append (if is_reserved (code c) then "_" else single c) (replace is_reserved "_" s)
      (unreserved-chosen (code c) (single c) (λ n. rw n refl)) (replace-unreserved s)

-- The name of a certificate, which becomes part of the names of its files, holds no asterisk, no
-- colon and no slash, whether it is configured or taken from the first identifier.
pub get_crt_name-unreserved :
    (crt : Types.Certificate) (name : String)
    → get_crt_name crt ≡ ok name
    → all_chars (λ c. not (c == b'*' || (c == b':' || c == b'/'))) name ≡ true
unfolding get_crt_name is_reserved
get_crt_name-unreserved crt name h =
    let (raw, e, q) =
      >>=-eq-ok (name_of crt.name crt.identifiers) (λ x. ok (replace is_reserved "_" x)) h in
    let same : replace is_reserved "_" raw ≡ name = cc q in
    subst (λ n. unreserved n ≡ true) same (replace-unreserved raw)
