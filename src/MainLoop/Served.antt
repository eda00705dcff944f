-- ===== src/MainLoop/Served.antt =====
-- What `MainEventLoop::new` of acmed/src/main_event_loop.rs adds for one certificate.
use acmed.Base.{
  String, ◌≡◌, refl, Option, none, some, [], ◌∷◌, All, All-mono, arith, ◌==◌, string_eq, eq_iff,
  eq_refl, Bool-cases, inl, inr,
}
use acmed.Base.Dict.{Dict, get, insert, Distinct, get-insert}
use acmed.Account.State.{Account, AccountEndpoint, add_endpoint_name, empty_endpoint}
use acmed.Endpoint
use acmed.Certificate
use acmed.Certificate.{get_id}
use acmed.MainLoop.Setup.{MainEventLoop, or_insert, put}

-- Each endpoint stands under its name, and has no nonce yet.
abbrev pub Fresh : Dict Endpoint.Endpoint → Type 0
Fresh endpoints =
    (name : String) (e : Endpoint.Endpoint)
    → get name endpoints ≡ some e
    → (e.name ≡ name) × (e.nonce ≡ none)

-- There are the account of a certificate, which knows its endpoint, and the endpoint.
pub record Served (l : MainEventLoop) (cert : Certificate.Certificate) : Type 0 where
  pub acc : Account
  pub has_account : get cert.account_name l.accounts ≡ some acc
  pub entry : AccountEndpoint
  pub has_entry : get cert.endpoint_name acc.endpoints ≡ some entry
  pub ept : Endpoint.Endpoint
  pub has_endpoint : get cert.endpoint_name l.endpoints ≡ some ept

abbrev pub Entry : MainEventLoop → String × Certificate.Certificate → Type 0
Entry l (id, cert) = (id ≡ get_id cert) × Served l cert

pub record WellFormed (l : MainEventLoop) : Type 0 where
  pub distinct : Distinct l.certificates
  pub served : All (Entry l) l.certificates
  pub fresh : Fresh l.endpoints

-- Accounts and endpoints are still there, with the same entries.
record Extends (l m : MainEventLoop) : Type 0 where
  account :
      (name : String) (a : Account)
      → get name l.accounts ≡ some a
      → (b : Account) × (get name m.accounts ≡ some b)
        × ((ept : String) (e : AccountEndpoint)
            → get ept a.endpoints ≡ some e
            → get ept b.endpoints ≡ some e)
  endpoint :
      (name : String) (e : Endpoint.Endpoint)
      → get name l.endpoints ≡ some e
      → get name m.endpoints ≡ some e

Extends-Served :
    {l m : MainEventLoop} (cert : Certificate.Certificate)
    → Extends l m
    → Served l cert
    → Served m cert
Extends-Served cert x s =
    let (b, there, same) = x.account cert.account_name s.acc s.has_account in
    record {
      acc = b;
      has_account = there;
      entry = s.entry;
      has_entry = same cert.endpoint_name s.entry s.has_entry;
      ept = s.ept;
      has_endpoint = x.endpoint cert.endpoint_name s.ept s.has_endpoint;
    }

add_endpoint_name-kept :
    (name : String) (a : Account) (ept : String) (e : AccountEndpoint)
    → get ept a.endpoints ≡ some e
    → get ept (add_endpoint_name name a).endpoints ≡ some e
unfolding add_endpoint_name
add_endpoint_name-kept name a ept e h =
    ground (arith, get-insert name ept empty_endpoint a.endpoints, eq_iff name ept)

add_endpoint_name-there :
    (name : String) (a : Account)
    → (e : AccountEndpoint) × (get name (add_endpoint_name name a).endpoints ≡ some e)
unfolding add_endpoint_name
add_endpoint_name-there name a = of_found (get name a.endpoints) refl
  where
    of_found :
        (o : Option AccountEndpoint)
        → get name a.endpoints ≡ o
        → (e : AccountEndpoint) × (get name (add_endpoint_name name a).endpoints ≡ some e)
    of_found (some e) h = (e, ground (arith, h))
    of_found none h = (
      empty_endpoint,
      ground (arith, h, get-insert name name empty_endpoint a.endpoints, eq_refl name),
    )

or_insert-kept :
    (ept : Endpoint.Endpoint) (m : Dict Endpoint.Endpoint) (name : String) (e : Endpoint.Endpoint)
    → get name m ≡ some e
    → get name (or_insert ept m) ≡ some e
unfolding or_insert
or_insert-kept ept m name e h = ground (arith, get-insert ept.name name ept m, eq_iff ept.name name)

or_insert-there :
    (ept : Endpoint.Endpoint) (m : Dict Endpoint.Endpoint)
    → (e : Endpoint.Endpoint) × (get ept.name (or_insert ept m) ≡ some e)
unfolding or_insert
or_insert-there ept m = of_found (get ept.name m) refl
  where
    of_found :
        (o : Option Endpoint.Endpoint)
        → get ept.name m ≡ o
        → (e : Endpoint.Endpoint) × (get ept.name (or_insert ept m) ≡ some e)
    of_found (some e) h = (e, ground (arith, h))
    of_found none h = (ept, ground (arith, h, get-insert ept.name ept.name ept m, eq_refl ept.name))

or_insert-Fresh :
    (ept : Endpoint.Endpoint) (m : Dict Endpoint.Endpoint)
    → ept.nonce ≡ none
    → Fresh m
    → Fresh (or_insert ept m)
unfolding or_insert
or_insert-Fresh ept m new_ept h name e p =
    ground (arith, get-insert ept.name name ept m, eq_iff ept.name name, h name e)

-- the certificates, where one is put at a new name
insert-All :
    (l : MainEventLoop) (id : String) (cert : Certificate.Certificate)
    (m : Dict Certificate.Certificate)
    → All (Entry l) m
    → Entry l (id, cert)
    → All (Entry l) (insert id cert m)
unfolding insert
insert-All l id cert [] h e = (e, tt)
insert-All l id cert ((j, c) ∷ m) h e = elim (Bool-cases (j == id)) [
  | inl y ↦ rw y (e, h.1)
  | inr n ↦ rw n (h.0, insert-All l id cert m h.1 e)
]

insert-Distinct :
    (id : String) (cert : Certificate.Certificate) (m : Dict Certificate.Certificate)
    → Distinct m
    → Distinct (insert id cert m)
unfolding insert get
insert-Distinct id cert [] h = (refl, tt)
insert-Distinct id cert ((j, c) ∷ m) h = elim (Bool-cases (j == id)) [
  | inl y ↦ rw y (ground (arith, h.0, eq_iff j id), h.1)
  | inr n ↦ rw n (
    ground (arith, h.0, get-insert id j cert m, eq_iff id j, eq_iff j id),
    insert-Distinct id cert m h.1,
  )
]

module _ (name : String) (acc : Account) (ept : Endpoint.Endpoint) (cert : Certificate.Certificate)
    (l : MainEventLoop) (has_account : get name l.accounts ≡ some acc)
    (account_name : cert.account_name ≡ name) (endpoint_name : cert.endpoint_name ≡ ept.name) where
  put-Extends : Extends l (put name acc ept cert l)
  unfolding put
  put-Extends = record {
    account = λ k a h. elim (Bool-cases (name == k)) [
      | inl y ↦ (
        add_endpoint_name ept.name acc,
        ground (arith, y, get-insert name k (add_endpoint_name ept.name acc) l.accounts),
        λ n e q.
            add_endpoint_name-kept ept.name acc n e
              (ground (arith, y, has_account, h, eq_iff name k, q)),
      )
      | inr n ↦ (
        a,
        ground (arith, n, h, get-insert name k (add_endpoint_name ept.name acc) l.accounts),
        λ n e q. q,
      )
    ];
    endpoint = λ k e h. or_insert-kept ept l.endpoints k e h;
  }

  put-Served : Served (put name acc ept cert l) cert
  unfolding put
  put-Served =
      let (e, entry_there) = add_endpoint_name-there ept.name acc in
      let (x, ept_there) = or_insert-there ept l.endpoints in
      record {
        acc = add_endpoint_name ept.name acc;
        has_account = rw account_name (
            rw (get-insert name name (add_endpoint_name ept.name acc) l.accounts)
              (rw (eq_refl name) refl));
        entry = e;
        has_entry = rw endpoint_name entry_there;
        ept = x;
        has_endpoint = rw endpoint_name ept_there;
      }

  pub put-WellFormed : ept.nonce ≡ none → WellFormed l → WellFormed (put name acc ept cert l)
  unfolding put insert
  put-WellFormed new_ept w = record {
    fresh = or_insert-Fresh ept l.endpoints new_ept w.fresh;
    distinct = insert-Distinct (get_id cert) cert l.certificates w.distinct;
    served =
        insert-All (put name acc ept cert l) (get_id cert) cert l.certificates
          (All-mono (λ (id, c) h. (h.0, Extends-Served c put-Extends h.1)) l.certificates w.served)
          (refl, put-Served);
  }
