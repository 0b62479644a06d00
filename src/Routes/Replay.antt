-- ===== src/Routes/Replay.antt =====
-- What a repeated call of a mutating route returns.
use test_m_backend.Common.{
  ℕ, ◌≡◌, refl, sym, ap, ◌∙◌, subst, String, Bool, true, false, Option, none, some, List, [], ◌∷◌,
  ◌++◌, arith, ◌==◌, nat_eq, string_eq, ==_self, eq_of_==, if◌then◌else◌, find, find-true,
  find-kept, find-snoc,
}
use test_m_backend.AccessControl.Models.{AccessRequest, Error}
use test_m_backend.AccessControl.Service.Monad.{Session, Result, ok, err, Action}
use test_m_backend.Routes.Scopes.{answered, problem}
use test_m_backend.Routes.Answers.{ResponseBody}
use test_m_backend.Routes.Idempotency.{
  Operation, MutationIdempotency, Replay, is_entry, new_entry, looked_up, idempotency_replay,
  idempotency_finish,
}
use test_m_backend.Routes.Handlers.{
  committed, commit_answer, conclude_call, checked_call, proceed, on_request, with_key,
}
use test_m_backend.Routes.Store.{Db, Body, Reply, sent, refused, is_request, replace_request}
use test_m_backend.Routes.Entries.{HasAnswer, new_entry-found, finish-answers, replay-again}

sent-injective :
    (s t : ℕ) (a b : ResponseBody) (x y : Db)
    → ◌≡◌ {A = Reply × Db} (sent s a, x) (sent t b, y)
    → (a ≡ b) × (x ≡ y)
sent-injective s t a b x y h = (
  ap (λ (q : Reply × Db). elim q.0 as (λ _. ResponseBody) [ sent _ c ↦ c | refused _ ↦ a ]) h,
  ap (λ (q : Reply × Db). q.1) h,
)

abbrev pub HasRequest : String → ℕ → Db → Type 0
HasRequest tenant id db = (r : AccessRequest) × (find (is_request tenant id) db.requests ≡ some r)

replaced-request :
    (tenant : String) (id : ℕ) (rows : List AccessRequest) (r q : AccessRequest)
    → find (is_request tenant id) rows ≡ some r
    → q.id ≡ r.id
    → q.tenant_id ≡ r.tenant_id
    → (z : AccessRequest) × (find (is_request tenant id) (replace_request q rows) ≡ some z)
unfolding replace_request is_request
replaced-request tenant id rows r q h i t = find-kept (is_request tenant id) _ rows r kept h
  where
    kept :
        (y : AccessRequest)
        → is_request tenant id y ≡ true
        → is_request tenant id (if y.id == q.id then q else y) ≡ true
    kept y e =
        let own = find-true (is_request tenant id) rows r h in
        ground (arith, eq_of_== r.tenant_id tenant, ==_self tenant)

-- A method that keeps the identity of its request.
abbrev pub IsLocal : {A : Type 0} → Action A → Type 0
IsLocal m =
    (s : Session)
    → ((m s).1.request.id ≡ s.request.id) × ((m s).1.request.tenant_id ≡ s.request.tenant_id)

module _ (json : ResponseBody → ResponseBody) (digest : Body → String) {A : Type 0} (status : ℕ)
    (caught : Error → ℕ) (check : AccessRequest → Option ℕ) (m : Action A)
    (view : A → AccessRequest → ResponseBody) (tenant : String) (operation : Operation) (id : ℕ)
    (key : String) where
  -- The database after an answered call with a body of this digest.
  abbrev IsAnswered : String → ResponseBody → Db → Type 0
  IsAnswered hash b db =
      HasRequest tenant id db × HasAnswer tenant operation key hash (json b) db.entries

  pub again :
      (hash : String) (b : ResponseBody) (body : Body) (db : Db)
      → IsAnswered hash b db
      → with_key json digest status caught check m view tenant operation id body db (answered key)
        ≡ (if hash == digest body then (sent 200 (json b), db) else (refused 409, db))
  unfolding with_key on_request proceed
  again hash b body db h =
      ap (on_request json digest status caught check m view tenant operation key body db) h.0.1
      ∙ (ap (proceed json digest status caught check m view tenant operation key h.0.0 db)
            (replay-again tenant operation key hash (digest body) (json b) db.entries h.1)
          ∙ either (hash == digest body))
    where
      either :
          (c : Bool)
          → proceed json digest status caught check m view tenant operation key h.0.0 db
              (if c then answered (Replay.replayed (json b)) else problem 409)
            ≡ (if c then (sent 200 (json b), db) else (refused 409, db))
      either true = refl
      either false = refl

  committed-answered :
      (hash : String) (b c : ResponseBody) (s : ℕ) (new old left : Db) (row : MutationIdempotency)
      → HasRequest tenant id new
      → find (is_entry tenant operation key) new.entries ≡ some row
      → row.request_hash ≡ hash
      → commit_answer json digest tenant operation key status b new old ≡ (sent s c, left)
      → IsAnswered hash c left
  unfolding commit_answer committed
  committed-answered hash b c s new old left row r f e h =
      settled (idempotency_finish tenant operation key (json b) status new.entries) refl h
    where
      settled :
          (o : Option (List MutationIdempotency))
          → idempotency_finish tenant operation key (json b) status new.entries ≡ o
          → committed json digest status b new old o ≡ (sent s c, left)
          → IsAnswered hash c left
      settled none k w = absurd (let v = ap (λ (q : Reply × Db). q.0) w in cc)
      settled (some entries) k w =
          let same = sent-injective status s b c (record new { entries = entries }) left w in
          subst (λ d. IsAnswered hash c d) same.1
            (subst (λ x. IsAnswered hash x (record new { entries = entries })) same.0
              (
                r,
                finish-answers tenant operation key hash (json b) status new.entries entries row f e
                    k,
              ))

  from_method :
      (body : Body) (r : AccessRequest) (db : Db) (s : ℕ) (b : ResponseBody) (left : Db)
      (x : Result A × Session)
      → x.1.request.id ≡ r.id
      → x.1.request.tenant_id ≡ r.tenant_id
      → find (is_entry tenant operation key) db.entries ≡ none
      → find (is_request tenant id) db.requests ≡ some r
      → conclude_call json digest status caught check m view tenant operation key
          (db.entries ++ new_entry tenant operation key (digest body) ∷ [])
          db
          x
        ≡ (sent s b, left)
      → IsAnswered (digest body) b left
  unfolding conclude_call
  from_method body r db s b left (err e, q) i t fresh f h =
      absurd (let v = ap (λ (z : Reply × Db). z.0) h in cc)
  from_method body r db s b left (ok a, q) i t fresh f h =
      committed-answered (digest body) (view a q.request) b s
        (record {
          requests = replace_request q.request db.requests;
          tables = q.tables;
          entries = db.entries ++ new_entry tenant operation key (digest body) ∷ [];
        })
        db left (new_entry tenant operation key (digest body))
        (replaced-request tenant id db.requests r q.request f i t)
        (find-snoc (is_entry tenant operation key) db.entries _ fresh
          (new_entry-found tenant operation key (digest body)))
        (unfold new_entry in refl) h

  from_check :
      (body : Body) (r : AccessRequest) (db : Db) (s : ℕ) (b : ResponseBody) (left : Db)
      → IsLocal m
      → find (is_entry tenant operation key) db.entries ≡ none
      → find (is_request tenant id) db.requests ≡ some r
      → (c : Option ℕ)
      → checked_call json digest status caught check m view tenant operation key
          (db.entries ++ new_entry tenant operation key (digest body) ∷ [])
          r
          db
          c
        ≡ (sent s b, left)
      → IsAnswered (digest body) b left
  unfolding checked_call
  from_check body r db s b left local fresh f (some code) h =
      absurd (let v = ap (λ (z : Reply × Db). z.0) h in cc)
  from_check body r db s b left local fresh f none h =
      let start : Session = record { request = r; tables = db.tables } in
      from_method body r db s b left (m start) (local start).0 (local start).1 fresh f h

  pub first :
      (s : ℕ) (b : ResponseBody) (body : Body) (db left : Db)
      → IsLocal m
      → find (is_entry tenant operation key) db.entries ≡ none
      → with_key json digest status caught check m view tenant operation id body db (answered key)
        ≡ (sent s b, left)
      → IsAnswered (digest body) b left
  unfolding with_key on_request proceed idempotency_replay looked_up
  first s b body db left local fresh h =
      from_request (find (is_request tenant id) db.requests) refl h
    where
      from_request :
          (o : Option AccessRequest)
          → find (is_request tenant id) db.requests ≡ o
          → on_request json digest status caught check m view tenant operation key body db o
            ≡ (sent s b, left)
          → IsAnswered (digest body) b left
      from_request none f w = absurd (let v = ap (λ (q : Reply × Db). q.0) w in cc)
      from_request (some r) f w = from_check body r db s b left local fresh f (check r) (
          sym (
            ap
              (λ o.
                proceed json digest status caught check m view tenant operation key r db
                  (looked_up tenant operation key (digest body) db.entries o))
              fresh)
          ∙ w)
