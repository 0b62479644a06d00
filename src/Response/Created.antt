-- ===== src/Response/Created.antt =====
-- What engine/response_service.py creates, and what a repeated request returns.
use test_m_backend.Common.{
  find-snoc, ℕ, ◌≡◌, refl, sym, subst, ◌∙◌, ap, ◌⊎◌, inl, inr, String, Bool, true, false, ◌&&◌, not,
  Option, none, some, List, arith, ◌==◌, nat_eq, string_eq, ==_self, if◌then◌else◌, find, no_items,
  Bool-cases,
}
use test_m_backend.AccessControl.Models.{Error}
use test_m_backend.AccessControl.Service.Monad.{Result, ok, err}
use test_m_backend.Context.Rows.{Event}
use test_m_backend.Response.Sandbox.{Status, ActionType, ResponseAction, Desk}
use test_m_backend.Response.Graph.{EvidenceGraph, preview_blast_radius}
use test_m_backend.Response.Policy.{Reason, in_set, tier3}
use test_m_backend.Response.Approval.{evaluate_response_policy-human}
use test_m_backend.Response.Workflow.{Preview, new_action, route, move, moved, permitted}
use test_m_backend.Response.Creation.{
  action_name, CaseRow, Store, existing_of, chosen_scope, invalid_values, as_preview, decide,
  preview_action, opened, follow, resolve, create_action,
}

-- The first transition of a new action.
abbrev first_status : Preview → Status
first_status p =
    if not p.allow
    then Status.rejected
    else if p.approval_required
    then Status.awaiting_approval
    else Status.auto_authorized

route-keeps :
    (by : String) (remark : Option String) (now : ℕ) (p : Preview) (d : Desk)
    → d.action.status ≡ Status.proposed
    → let a : ResponseAction = (route by remark now p d).1.action in
      (a.status ≡ first_status p)
      × (a.idempotency_key ≡ d.action.idempotency_key)
      × (a.case_id ≡ d.action.case_id)
      × (a.action_type ≡ d.action.action_type)
      × (a.requested_by ≡ d.action.requested_by)
unfolding route move moved permitted
route-keeps by remark now p d h = ground arith

value-injective : {A : Type 0} {a b : A} → ok a ≡ ok b → a ≡ b
value-injective {A = A} {a = a} e = ap (λ r. elim r as (λ _. A) [ ok x ↦ x | err _ ↦ a ]) e

-- The action has the key of the request, as `find` asks for it.
abbrev has_key : String → ResponseAction → Bool
has_key key a = a.idempotency_key == key

-- The request that an action was created for.
abbrev answers : CaseRow → ActionType → String → ResponseAction → Bool
answers c kind by a =
    (a.case_id == c.id)
    && ((action_name a.action_type == action_name kind) && (a.requested_by == by))

module _ (message : Reason → String) (graph : EvidenceGraph) (table : List Event) (c : CaseRow)
    (kind : ActionType) (key by : String) where
  abbrev creates :
      List (String × String) → Option String → ℕ → ℕ → Store → Result ResponseAction × Store
  creates asked remark id now s =
      create_action message graph table c kind asked key by remark id now s

  abbrev resolves :
      List (String × String)
      → Option String
      → ℕ
      → ℕ
      → Store
      → Option ResponseAction
      → Result ResponseAction × Store
  resolves asked remark id now s o =
      resolve message graph table c kind asked key by remark id now s o

  resolve-again :
      (asked : List (String × String)) (remark : Option String) (id now : ℕ) (s : Store)
      (a : ResponseAction)
      → answers c kind by a ≡ true
      → resolves asked remark id now s (some a) ≡ (ok a, s)
  unfolding resolve
  resolve-again asked remark id now s a m = rw m refl

  resolve-other :
      (asked : List (String × String)) (remark : Option String) (id now : ℕ) (s : Store)
      (a : ResponseAction)
      → answers c kind by a ≡ false
      → resolves asked remark id now s (some a) ≡ (err Error.value_error, s)
  unfolding resolve
  resolve-other asked remark id now s a m = rw m refl

  abbrev begun : Option String → ℕ → ℕ → Preview → Store → Desk
  begun remark id now p s = record {
    action = new_action id c.id kind key by remark now p;
    controls = s.controls;
    logs = s.logs;
  }

  abbrev started : Option String → ℕ → ℕ → Preview → Store → ResponseAction
  started remark id now p s = (route by remark now p (begun remark id now p s)).1.action

  begun-answers :
      (remark : Option String) (id now : ℕ) (p : Preview) (s : Store)
      → answers c kind by (started remark id now p s) ≡ true
  unfolding new_action
  begun-answers remark id now p s =
      let q = route-keeps by remark now p (begun remark id now p s) refl in
      rw (q.2, q.3, q.4, ==_self c.id, ==_self (action_name kind), ==_self by) refl

  follow-found :
      (remark : Option String) (id now : ℕ) (s t : Store) (a : ResponseAction) (r : Result Preview)
      → find (has_key key) s.actions ≡ none
      → follow message graph table c kind key by remark id now s r ≡ (ok a, t)
      → (find (has_key key) t.actions ≡ some a) × (answers c kind by a ≡ true)
  unfolding follow new_action
  follow-found remark id now s t a (err e) f h = absurd (let w = ap (λ q. q.0) h in cc)
  follow-found remark id now s t a (ok p) f h =
      let q = route-keeps by remark now p (begun remark id now p s) refl in
      let a_path = value-injective (ap (λ r. r.0) h) in
      let t_path = ap (λ r. r.1.actions) h in
      let hit =
        find-snoc (has_key key) s.actions (started remark id now p s) f
          (ap (λ k. k == key) q.1 ∙ ==_self key) in
      (
        subst (λ x. find (has_key key) t.actions ≡ some x) a_path
            (subst (λ xs. find (has_key key) xs ≡ some (started remark id now p s)) t_path hit),
        subst (λ x. answers c kind by x ≡ true) a_path (begun-answers remark id now p s),
      )

  resolve-found :
      (asked : List (String × String)) (remark : Option String) (id now : ℕ) (s t : Store)
      (a : ResponseAction) (o : Option ResponseAction)
      → find (has_key key) s.actions ≡ o
      → resolves asked remark id now s o ≡ (ok a, t)
      → (find (has_key key) t.actions ≡ some a) × (answers c kind by a ≡ true)
  unfolding resolve
  resolve-found asked remark id now s t a (some b) e h = elim (Bool-cases (answers c kind by b)) [
    | inl m ↦
        let k : (ok b, s) ≡ (ok a, t) = sym (resolve-again asked remark id now s b m) ∙ h in
        let a_path = value-injective (ap (λ r. r.0) k) in
        let s_path = ap (λ r. r.1.actions) k in
        (
          subst (λ xs. find (has_key key) xs ≡ some a) s_path (e ∙ ap some a_path),
          subst (λ x. answers c kind by x ≡ true) a_path m,
        )
    | inr m ↦
        absurd (let k = ap (λ r. r.0) (sym (resolve-other asked remark id now s b m) ∙ h) in cc)
  ]
  resolve-found asked remark id now s t a none e h =
      follow-found remark id now s t a (preview_action message graph table c kind asked s) e h

  created-found :
      (asked : List (String × String)) (remark : Option String) (id now : ℕ) (s t : Store)
      (a : ResponseAction)
      → creates asked remark id now s ≡ (ok a, t)
      → (find (has_key key) t.actions ≡ some a) × (answers c kind by a ≡ true)
  unfolding create_action
  created-found asked remark id now s t a h =
      resolve-found asked remark id now s t a (find (has_key key) s.actions) refl h

  -- A request that was answered with an action is answered with it again under the same key, whatever
  -- scope, note and time it comes with, and changes nothing.
  pub create_action-again :
      (asked : List (String × String)) (remark : Option String) (id now : ℕ) (s t : Store)
      (a : ResponseAction) (asked2 : List (String × String)) (remark2 : Option String)
      (id2 now2 : ℕ)
      → creates asked remark id now s ≡ (ok a, t)
      → creates asked2 remark2 id2 now2 t ≡ (ok a, t)
  unfolding create_action
  create_action-again asked remark id now s t a asked2 remark2 id2 now2 h =
      let k = created-found asked remark id now s t a h in
      ap (resolves asked2 remark2 id2 now2 t) k.0 ∙ resolve-again asked2 remark2 id2 now2 t a k.1

  follow-human :
      (remark : Option String) (id now : ℕ) (s t : Store) (a : ResponseAction) (r : Result Preview)
      → ((p : Preview) → r ≡ ok p → p.allow ≡ true → p.approval_required ≡ true)
      → follow message graph table c kind key by remark id now s r ≡ (ok a, t)
      → (a.status ≡ Status.rejected) ⊎ (a.status ≡ Status.awaiting_approval)
  unfolding follow opened new_action
  follow-human remark id now s t a (err e) f h = absurd (let w = ap (λ q. q.0) h in cc)
  follow-human remark id now s t a (ok p) f h =
      let q = route-keeps by remark now p (begun remark id now p s) refl in
      let a_path = value-injective (ap (λ r. r.0) h) in
      let status_path : a.status ≡ first_status p = sym (ap (λ x. x.status) a_path) ∙ q.0 in
      let human = f p refl in ground arith

  -- What allows a high-impact action asks for an approval.
  decide-human :
      (scope : List (String × String)) (s : Store)
      → in_set tier3 (action_name kind) ≡ true
      → (decide message graph table c kind scope s).allow ≡ true
      → (decide message graph table c kind scope s).approval_required ≡ true
  unfolding decide
  decide-human scope s h e =
      let k =
        (evaluate_response_policy-human c.assessment scope
          (preview_blast_radius graph scope c.explanation_breakdown) (action_name kind)
          (existing_of s c)).1 in
      ground arith

  preview-human :
      (asked : List (String × String)) (s : Store)
      → in_set tier3 (action_name kind) ≡ true
      → (p : Preview) → preview_action message graph table c kind asked s ≡ ok p
      → p.allow ≡ true
      → p.approval_required ≡ true
  unfolding preview_action as_preview
  preview-human asked s h p e k =
      elim (Bool-cases (not (no_items (invalid_values graph (chosen_scope table c kind asked))))) [
        | inl b ↦ absurd (let w = rw b at e in cc)
        | inr b ↦
            let p_path = value-injective (rw b at e) in
            sym (ap (λ x. x.approval_required) p_path)
            ∙ decide-human (chosen_scope table c kind asked) s h (ap (λ x. x.allow) p_path ∙ k)
      ]

  -- A new action that revokes, isolates or disables is never authorised by the policy alone.
  pub create_action-human :
      (asked : List (String × String)) (remark : Option String) (id now : ℕ) (s t : Store)
      (a : ResponseAction)
      → find (λ (x : ResponseAction). x.idempotency_key == key) s.actions ≡ none
      → in_set tier3 (action_name kind) ≡ true
      → creates asked remark id now s ≡ (ok a, t)
      → (a.status ≡ Status.rejected) ⊎ (a.status ≡ Status.awaiting_approval)
  unfolding create_action
  create_action-human asked remark id now s t a e h k =
      follow-human remark id now s t a (preview_action message graph table c kind asked s)
        (preview-human asked s h) (sym (ap (resolves asked remark id now s) e) ∙ k)
