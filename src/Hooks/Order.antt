-- ===== src/Hooks/Order.antt =====
-- Which hooks run, in which order, and when the calls stop.
use acmed.Base.{
  ◌≡◌, ◌↔◌, refl, sym, ap, subst, ◌∙◌, true, false, List, [], ◌∷◌, ◌++◌, contains, keep, inl, inr,
  Bool-cases,
}
use acmed.Base.Result.{Result, ok, err, panic}
use acmed.Base.Exec.{pure, ◌>>=◌, rename, continue}
use acmed.Error.{Error, prefix}
use acmed.Config.Types.{HookType, hook_type_eq}
use acmed.World.{World}
use acmed.World.Env.{Env, TemplateData}
use acmed.Hooks.{Hook, call, call_single}

-- the hooks of a type, in the order of the configuration
abbrev pub of_type : HookType → List Hook → List Hook
of_type hook_type = keep (λ h. contains h.hook_type hook_type)

module _ (env : Env) (d : TemplateData) where
  -- The commands of these hooks ran one after the other, and each of them succeeded.
  pub data Ran : List Hook → World → World → Type 0 where
    done : {w : World} → Ran [] w w
    next :
        {h : Hook} {hooks : List Hook} {w v u : World}
        → call_single env d h w ≡ (ok tt, v)
        → Ran hooks v u
        → Ran (h ∷ hooks) w u

  -- The hooks before `failed` ran, `failed` gave the error, and nothing ran after it.
  pub record Stopped (hooks : List Hook) (w u : World) (e : Error) : Type 0 where
    pub before : List Hook
    pub failed : Hook
    pub after : List Hook
    pub split : hooks ≡ before ++ (failed ∷ after)
    pub reached : World
    pub ran : Ran before w reached
    pub cause : Error
    pub failure : call_single env d failed reached ≡ (err cause, u)
    pub message : e ≡ prefix failed.name cause

  -- how the loop goes on from the result of one hook
  abbrev go_on :
      Hook
      → List Hook
      → HookType
      → Result Error (Unit {0}) × World
      → Result Error (Unit {0}) × World
  go_on h hooks t (r, v) =
      let (r', v') = rename (prefix h.name) (r, v) in continue r' (λ _. call env hooks d t) v'

  call_of_type :
      (h : Hook) (hooks : List Hook) (t : HookType) (w : World)
      → contains h.hook_type t ≡ true
      → call env (h ∷ hooks) d t w ≡ go_on h hooks t (call_single env d h w)
  unfolding call ◌>>=◌
  call_of_type h hooks t w e = rw e

  call_of_other :
      (h : Hook) (hooks : List Hook) (t : HookType) (w : World)
      → contains h.hook_type t ≡ false
      → call env (h ∷ hooks) d t w ≡ call env hooks d t w
  unfolding call
  call_of_other h hooks t w e = rw e

  go_on-Ran :
      (h : Hook) (hooks selected : List Hook) (t : HookType) (w u : World)
      → ((v : World) → call env hooks d t v ≡ (ok tt, u) → Ran selected v u)
      → (r : Result Error (Unit {0})) (v : World) → call_single env d h w ≡ (r, v)
      → go_on h hooks t (r, v) ≡ (ok tt, u)
      → Ran (h ∷ selected) w u
  go_on-Ran h hooks selected t w u ih (ok _) v e g = next e (ih v g)
  go_on-Ran h hooks selected t w u ih (err x) v e g = cc
  go_on-Ran h hooks selected t w u ih (panic x) v e g = cc

  call_none : (t : HookType) (w : World) → call env [] d t w ≡ (ok tt, w)
  unfolding call pure
  call_none t w = refl

  -- A successful `call` is such a run.
  pub call-Ran :
      (hooks : List Hook) (t : HookType) (w u : World)
      → call env hooks d t w ≡ (ok tt, u)
      → Ran (of_type t hooks) w u
  call-Ran [] t w u g = subst (λ x. Ran [] w x) (ap (λ p. p.1) (sym (call_none t w) ∙ g)) done
  call-Ran (h ∷ hooks) t w u g = elim (Bool-cases (contains h.hook_type t)) [
    | inl e ↦ rw e (
        go_on-Ran h hooks (of_type t hooks) t w u (λ v. call-Ran hooks t v u)
          (call_single env d h w).0 (call_single env d h w).1 refl
          (sym (call_of_type h hooks t w e) ∙ g))
    | inr e ↦ rw e (call-Ran hooks t w u (sym (call_of_other h hooks t w e) ∙ g))
  ]

  Ran-go_on :
      (h : Hook) (hooks : List Hook) {selected : List Hook} (t : HookType) (w u : World)
      → ((v : World) → Ran selected v u → call env hooks d t v ≡ (ok tt, u))
      → Ran (h ∷ selected) w u
      → go_on h hooks t (call_single env d h w) ≡ (ok tt, u)
  Ran-go_on h hooks t w u ih (next {v = v} e r) = rw e (ih v r)

  -- Conversely, a run of all hooks of the type in their order is a run of `call` that succeeds.
  pub Ran-call :
      (hooks : List Hook) (t : HookType) (w u : World)
      → Ran (of_type t hooks) w u
      → call env hooks d t w ≡ (ok tt, u)
  Ran-call [] t w u done = call_none t w
  Ran-call (h ∷ hooks) t w u run = elim (Bool-cases (contains h.hook_type t)) [
    | inl e ↦
        call_of_type h hooks t w e
        ∙ Ran-go_on h hooks t w u (λ v. Ran-call hooks t v u) (rw e at run)
    | inr e ↦ call_of_other h hooks t w e ∙ Ran-call hooks t w u (rw e at run)
  ]

  go_on-Stopped :
      (h : Hook) (hooks selected : List Hook) (t : HookType) (w u : World) (e : Error)
      → ((v : World) → call env hooks d t v ≡ (err e, u) → Stopped selected v u e)
      → (r : Result Error (Unit {0})) (v : World) → call_single env d h w ≡ (r, v)
      → go_on h hooks t (r, v) ≡ (err e, u)
      → Stopped (h ∷ selected) w u e
  go_on-Stopped h hooks selected t w u e ih (ok _) v ran g =
      let rest = ih v g in
      record {
        before = h ∷ rest.before;
        failed = rest.failed;
        after = rest.after;
        split = ap (λ l. h ∷ l) rest.split;
        reached = rest.reached;
        ran = next ran rest.ran;
        cause = rest.cause;
        failure = rest.failure;
        message = rest.message;
      }
  go_on-Stopped h hooks selected t w u e ih (err x) v ran g = record {
    before = [];
    failed = h;
    after = selected;
    split = refl;
    reached = w;
    ran = done;
    cause = x;
    failure = ran ∙ cc g;
    message = cc g;
  }
  go_on-Stopped h hooks selected t w u e ih (panic x) v ran g = cc

  -- When `call` returns an error, one hook of the type failed, the hooks of the type before it ran
  -- and succeeded, none after it ran, and the error is its own with its name in front.
  pub call-Stopped :
      (hooks : List Hook) (t : HookType) (w u : World) (e : Error)
      → call env hooks d t w ≡ (err e, u)
      → Stopped (of_type t hooks) w u e
  call-Stopped [] t w u e g = cc (call_none t w)
  call-Stopped (h ∷ hooks) t w u e g = elim (Bool-cases (contains h.hook_type t)) [
    | inl c ↦ rw c (
        go_on-Stopped h hooks (of_type t hooks) t w u e (λ v. call-Stopped hooks t v u e)
          (call_single env d h w).0 (call_single env d h w).1 refl
          (sym (call_of_type h hooks t w c) ∙ g))
    | inr c ↦ rw c (call-Stopped hooks t w u e (sym (call_of_other h hooks t w c) ∙ g))
  ]

-- `call` succeeds exactly by running the hooks of the given type, all of them and no other, one
-- after the other in the order of the configuration, each with success.
pub call_iff :
    (env : Env) (d : TemplateData) (hooks : List Hook) (t : HookType) (w u : World)
    → (call env hooks d t w ≡ (ok tt, u)) ↔ Ran env d (of_type t hooks) w u
call_iff env d hooks t w u = (call-Ran env d hooks t w u, Ran-call env d hooks t w u)
