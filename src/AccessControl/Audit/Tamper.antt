-- ===== src/AccessControl/Audit/Tamper.antt =====
-- What a verified chain of access_control/audit.py is worth against another.
use mathlib.Core.Path.{ap₂}
use mathlib.Core.Option.{some-injective}
use mathlib.Core.List.{reverse-cons, reverse, reverse-reverse, append_assoc, append-nil}
use test_m_backend.Common.{
  String, true, ◌≡◌, refl, sym, ap, subst, ◌∙◌, Option, none, some, List, [], ◌∷◌, ◌++◌, map, All,
  All-map, arith, string_eq,
}
use test_m_backend.Common.Order.{sorted}
use test_m_backend.AccessControl.Models.{AuditBody, AuditRecord, Env}
use test_m_backend.AccessControl.Audit.{
  before, last_hash, latest_hash, same_hash_iff, verify_from, verify_audit_chain,
}

-- No record of one list has the hash of a different record of the other.
abbrev pub NoClash : Env → List AuditBody → List AuditBody → Type 0
NoClash env bs cs = All (λ b. All (λ c. env.audit_digest b ≡ env.audit_digest c → b ≡ c) cs) bs

-- The canonical records, in the order in which the chain is verified.
abbrev pub bodies : List AuditRecord → List AuditBody
bodies rs = map (λ r. r.body) (sorted before rs)

-- Canonical records, newest first, each of which names the hash of the next.
abbrev Linked : Env → Option String → List AuditBody → Type 0
Linked env h [] = h ≡ none
Linked env h (b ∷ bs) = (h ≡ some (env.audit_digest b)) × Linked env b.previous_record_hash bs

newest_first : List AuditBody → List AuditRecord → List AuditBody
newest_first acc [] = acc
newest_first acc (r ∷ rs) = newest_first (r.body ∷ acc) rs

-- One round of the loop that goes on has checked the record.
pub verify_from_step :
    (env : Env) (p : Option String) (r : AuditRecord) (rs : List AuditRecord)
    → verify_from env p (r ∷ rs) ≡ true
    → (r.previous_record_hash ≡ p)
      × (env.audit_digest r.body ≡ r.record_hash)
      × (verify_from env (some r.record_hash) rs ≡ true)
unfolding verify_from
verify_from_step env p r rs h = ground (
  arith,
  same_hash_iff r.previous_record_hash p,
  string_eq.equal_iff (env.audit_digest r.body) r.record_hash,
)

verify_from-Linked :
    (env : Env) (p : Option String) (rs : List AuditRecord) (acc : List AuditBody)
    → verify_from env p rs ≡ true
    → Linked env p acc
    → Linked env (last_hash p rs) (newest_first acc rs)
unfolding last_hash newest_first
verify_from-Linked env p [] acc h l = l
verify_from-Linked env p (r ∷ rs) acc h l =
    let (e, d, more) = verify_from_step env p r rs h in
    verify_from-Linked env (some r.record_hash) rs (r.body ∷ acc) more
      (ap some (sym d), subst (λ q. Linked env q acc) (sym e) l)

Linked-unique :
    (env : Env) (h : Option String) (bs cs : List AuditBody)
    → NoClash env bs cs
    → Linked env h bs
    → Linked env h cs
    → bs ≡ cs
Linked-unique env h [] [] f l m = refl
Linked-unique env h [] (c ∷ cs) f l m = cc
Linked-unique env h (b ∷ bs) [] f l m = cc
Linked-unique env h (b ∷ bs) (c ∷ cs) f l m =
    let same : b ≡ c = f.0.0 (some-injective _ _ (sym l.0 ∙ m.0)) in
    ap₂ ◌∷◌ same (
      Linked-unique env b.previous_record_hash bs cs (All-map _ _ bs (λ a k. k.1) f.1) l.1
        (subst (λ d. Linked env d.previous_record_hash cs) (sym same) m.1))

All-newest_first :
    (P : AuditBody → Type 0) (acc : List AuditBody) (rs : List AuditRecord)
    → All P acc
    → All P (map (λ r. r.body) rs)
    → All P (newest_first acc rs)
unfolding newest_first
All-newest_first P acc [] h k = h
All-newest_first P acc (r ∷ rs) h k = All-newest_first P (r.body ∷ acc) rs (k.0, h) k.1

newest_first-eq-reverse :
    (acc : List AuditBody) (rs : List AuditRecord)
    → newest_first acc rs ≡ reverse (map (λ r. r.body) rs) ++ acc
unfolding newest_first
newest_first-eq-reverse acc [] = refl
newest_first-eq-reverse acc (r ∷ rs) =
    rw (newest_first-eq-reverse (r.body ∷ acc) rs, reverse-cons)
      (sym (append_assoc (reverse (map (λ q. q.body) rs)) (r.body ∷ []) acc))

same_of_newest_first :
    (rs qs : List AuditRecord)
    → newest_first [] rs ≡ newest_first [] qs
    → map (λ r. r.body) rs ≡ map (λ r. r.body) qs
same_of_newest_first rs qs e =
    sym (reverse-reverse _)
    ∙ ap reverse (
        sym (append-nil _)
        ∙ (sym (newest_first-eq-reverse [] rs)
            ∙ (e ∙ (newest_first-eq-reverse [] qs ∙ append-nil _))))
    ∙ reverse-reverse _

-- Two histories that verify and end in the same hash hold the same canonical records in the same
-- order, provided that no record of one has the hash of a different record of the other.
pub verified_histories_agree :
    (env : Env) (rs qs : List AuditRecord)
    → NoClash env (bodies rs) (bodies qs)
    → verify_audit_chain env rs ≡ true
    → verify_audit_chain env qs ≡ true
    → latest_hash rs ≡ latest_hash qs
    → bodies rs ≡ bodies qs
unfolding verify_audit_chain latest_hash
verified_histories_agree env rs qs free h k e =
    same_of_newest_first (sorted before rs) (sorted before qs) (
      Linked-unique env (last_hash none (sorted before rs)) _ _
        (All-newest_first _ [] (sorted before rs) tt
          (All-map _ _ (bodies rs) (λ b f. All-newest_first _ [] (sorted before qs) tt f) free))
        (verify_from-Linked env none (sorted before rs) [] h refl)
        (subst (λ q. Linked env q (newest_first [] (sorted before qs))) (sym e)
          (verify_from-Linked env none (sorted before qs) [] k refl)))
