-- ===== src/Routes/Sources.antt =====
-- security.py: what stands behind a principal.
use mathlib.Core.Option.{some-injective}
use test_m_backend.Common.{
  ℕ, ◌<◌, ◌≡◌, ◌≢◌, ◌⊎◌, inl, inr, refl, sym, ap, ◌∙◌, String, true, false, Option, none, some,
  List, [], ◌∷◌, ◌==◌, string_eq, eq_of_==, leb, no_items, Exists, Bool-cases, Option-cases, arith,
}
use test_m_backend.AccessControl.Policy.Values.{Role}
use test_m_backend.Routes.Scopes.{
  role_named, Principal, Answer, answered, problem, Expiry, malformed, at, KeyFields, KeyRecord,
  plain, full, Claims, Settings, Credentials, default_to, principal_of, last_match, admit_fields,
  admit, admit_claims, configured_keys, by_token, authenticate,
}

-- The key has not run out.
abbrev pub IsCurrent : ℕ → KeyRecord → Type 0
IsCurrent now (plain _) = Unit
IsCurrent now (full f) = (e : Expiry) → f.expires_at ≡ some e → (t : ℕ) × (e ≡ at t) × (now < t)

-- the name of the role that a key gives
abbrev pub role_of : KeyRecord → String
role_of (plain name) = name
role_of (full f) = default_to "" f.role

-- the role of the principal that is answered
abbrev answered_role : Answer Principal → Option Role
answered_role (answered p) = some p.role
answered_role (problem _) = none

abbrev answered_subject : Answer Principal → Option String
answered_subject (answered p) = some p.subject
answered_subject (problem _) = none

problem-answered : {A : Type 0} (status : ℕ) (p : Principal) → problem status ≡ answered p → A
problem-answered status p h = absurd (let k = ap answered_role h in cc)

answered-injective : {A : Type 0} (x y : A) → answered x ≡ answered y → x ≡ y
answered-injective {A} x y h = ap (λ a. elim a as (λ _. A) [ answered z ↦ z | problem _ ↦ x ]) h

Answer-cases :
    {A : Type 0} (a : Answer A)
    → ((x : A) × (a ≡ answered x)) ⊎ ((status : ℕ) × (a ≡ problem status))
Answer-cases (answered x) = inl (x, refl)
Answer-cases (problem status) = inr (status, refl)

-- A role that is looked up before a principal is made of it.
named-answered :
    (o : Option Role) (status : ℕ) (f : Role → Principal) (p : Principal)
    → ((r : Role) → (f r).role ≡ r)
    → (elim o as (λ _. Answer Principal) [ none ↦ problem status | some r ↦ answered (f r) ])
      ≡ answered p
    → o ≡ some p.role
named-answered none status f p own h = problem-answered status p h
named-answered (some r) status f p own h = ap some (sym (own r)) ∙ ap answered_role h

fields-IsCurrent :
    (now : ℕ) (tenant : String) (f : KeyFields) (p : Principal)
    → admit_fields now tenant f ≡ answered p
    → IsCurrent now (full f) × (role_named (default_to "" f.role) ≡ some p.role)
unfolding admit_fields principal_of
fields-IsCurrent now tenant f p h = elim (Option-cases f.expires_at) [
  | inl forever ↦ (
    λ e k. absurd (cc (forever, k)),
    named-answered (role_named (default_to "" f.role)) 503 _ p (λ r. refl) (rw forever at h),
  )
  | inr (e, until) ↦ by_expiry e until
]
  where
    by_expiry :
        (e : Expiry)
        → f.expires_at ≡ some e
        → IsCurrent now (full f) × (role_named (default_to "" f.role) ≡ some p.role)
    by_expiry malformed until = problem-answered 503 p (rw until at h)
    by_expiry (at t) until = elim (Bool-cases (leb t now)) [
      | inl past ↦ problem-answered 401 p (rw (until, past) at h)
      | inr current ↦ (
        λ e k. (t, some-injective _ _ (sym k ∙ until), ground arith),
        named-answered (role_named (default_to "" f.role)) 503 _ p (λ r. refl)
            (rw (until, current) at h),
      )
    ]

admit-IsCurrent :
    (now : ℕ) (tenant : String) (k : KeyRecord) (p : Principal)
    → admit now tenant k ≡ answered p
    → IsCurrent now k × (role_named (role_of k) ≡ some p.role)
unfolding admit principal_of
admit-IsCurrent now tenant (plain name) p h =
    (tt, named-answered (role_named name) 503 _ p (λ r. refl) h)
admit-IsCurrent now tenant (full f) p h = fields-IsCurrent now tenant f p h

claims-IsCurrent :
    (tenant : String) (c : Claims) (p : Principal)
    → admit_claims tenant c ≡ answered p
    → (c.sub ≡ some p.subject) × (role_named (default_to "" c.role) ≡ some p.role)
unfolding admit_claims principal_of
claims-IsCurrent tenant c p h = elim (Option-cases c.sub) [
  | inl nobody ↦ problem-answered 401 p (rw nobody at h)
  | inr (subject, e) ↦ elim (Option-cases (role_named (default_to "" c.role))) [
    | inl unknown ↦ problem-answered 403 p (rw (e, admit_claims, unknown) at h)
    | inr (r, named) ↦
        let k = rw (e, admit_claims, named) at h in
        (e ∙ ap answered_subject k, named ∙ ap answered_role k)
  ]
]

last_match-Exists :
    (token : String) (keys : List (String × KeyRecord)) (k : KeyRecord)
    → last_match token keys ≡ some k
    → Exists (λ (e : String × KeyRecord). (e.0 ≡ token) × (e.1 ≡ k)) keys
unfolding last_match
last_match-Exists token [] k h = absurd (cc h)
last_match-Exists token ((name, value) ∷ keys) k h = elim (Option-cases (last_match token keys)) [
  | inr (r, found) ↦ inr (last_match-Exists token keys k (found ∙ (rw found at h)))
  | inl absent ↦ elim (Bool-cases (token == name)) [
    | inl same ↦ inl (sym (eq_of_== token name same), some-injective _ _ (rw (absent, same) at h))
    | inr differs ↦ absurd (let j = rw (absent, differs) at h in cc)
  ]
]

module _ (lower : String → String) (parse_keys : String → Option (List (String × KeyRecord)))
    (verify : String → Option Claims) (settings : Settings) (now : ℕ) where
  -- A token that is verified, with the subject and the role of the principal among its claims.
  abbrev pub HasToken : String → Principal → Type 0
  HasToken token p =
      (c : Claims) × (verify token ≡ some c)
      × (c.sub ≡ some p.subject)
      × (role_named (default_to "" c.role) ≡ some p.role)

  -- A configured key that equals the token, has not run out and gives the role of the principal.
  abbrev pub HasKey : String → Principal → Type 0
  HasKey token p =
      (keys : List (String × KeyRecord)) × (k : KeyRecord) × (parse_keys settings.api_keys
        ≡ some keys)
      × Exists (λ (e : String × KeyRecord). (e.0 ≡ token) × (e.1 ≡ k)) keys
      × IsCurrent now k
      × (role_named (role_of k) ≡ some p.role)

  -- Bearer credentials with such a token under OIDC, or such a key in the other mode.
  abbrev pub HasSource : Option Credentials → Principal → Type 0
  HasSource o p =
      (c : Credentials) × (o ≡ some c)
      × (lower c.scheme ≡ "bearer")
      × (((settings.auth_mode ≡ "oidc") × HasToken c.credentials p)
          ⊎ ((settings.auth_mode ≢ "oidc") × HasKey c.credentials p))

  keys-parsed :
      (raw : String) (keys : List (String × KeyRecord))
      → configured_keys lower parse_keys verify raw ≡ answered keys
      → parse_keys raw ≡ some keys
  unfolding configured_keys
  keys-parsed raw keys h = elim (Bool-cases (raw == "")) [
    | inl empty ↦ absurd (let k = rw empty at h in cc)
    | inr e ↦ elim (Option-cases (parse_keys raw)) [
      | inl bad ↦ absurd (let k = rw (e, bad) at h in cc)
      | inr (parsed, good) ↦ elim (Bool-cases (no_items parsed)) [
        | inl none_given ↦ absurd (let k = rw (e, good, none_given) at h in cc)
        | inr given ↦ good ∙ ap some (answered-injective _ _ (rw (e, good, given) at h))
      ]
    ]
  ]

  by_token-key :
      (token : String) (p : Principal)
      → (settings.auth_mode == "oidc") ≡ false
      → by_token lower parse_keys verify settings now token ≡ answered p
      → HasKey token p
  unfolding by_token
  by_token-key token p mode h =
      elim (Answer-cases (configured_keys lower parse_keys verify settings.api_keys)) [
        | inr (status, e) ↦ problem-answered status p (rw (mode, e) at h)
        | inl (keys, e) ↦ elim (Option-cases (last_match token keys)) [
          | inl unknown ↦ problem-answered 401 p (rw (mode, e, unknown) at h)
          | inr (k, found) ↦
              let c = admit-IsCurrent now settings.tenant_default k p (rw (mode, e, found) at h) in
              (
                keys,
                k,
                keys-parsed settings.api_keys keys e,
                last_match-Exists token keys k found,
                c.0,
                c.1,
              )
        ]
      ]

  by_token-claims :
      (token : String) (p : Principal)
      → (settings.auth_mode == "oidc") ≡ true
      → by_token lower parse_keys verify settings now token ≡ answered p
      → HasToken token p
  unfolding by_token
  by_token-claims token p mode h = elim (Option-cases (verify token)) [
    | inl unverified ↦ problem-answered 401 p (rw (mode, unverified) at h)
    | inr (c, e) ↦
        let k = claims-IsCurrent settings.tenant_default c p (rw (mode, e) at h) in (c, e, k.0, k.1)
  ]

  -- Whoever is authenticated has sent bearer credentials with a verified token of its subject and role, or
  -- outside OIDC a configured key that has not run out and gives its role.
  pub authenticate-HasSource :
      (o : Option Credentials) (p : Principal)
      → authenticate lower parse_keys verify settings now o ≡ answered p
      → HasSource o p
  unfolding authenticate
  authenticate-HasSource none p h = problem-answered 401 p h
  authenticate-HasSource (some c) p h = elim (Bool-cases (lower c.scheme == "bearer")) [
    | inr other ↦ problem-answered 401 p (rw other at h)
    | inl bearer ↦
        let token = rw bearer at h in
        (
          c,
          refl,
          eq_of_== (lower c.scheme) "bearer" bearer,
          elim (Bool-cases (settings.auth_mode == "oidc")) [
            | inl mode ↦ inl (
              eq_of_== settings.auth_mode "oidc" mode,
              by_token-claims c.credentials p mode token,
            )
            | inr mode ↦ inr (
              (λ same. cc (mode, (string_eq.equal_iff settings.auth_mode "oidc").1 same)),
              by_token-key c.credentials p mode token,
            )
          ],
        )
  ]
