-- ===== src/Routes/Entries.antt =====
-- The entries of the idempotency table: what one begun and finished answers from then on.
use mathlib.Core.Option.{some-injective}
use test_m_backend.Common.{
  ℕ, ◌≡◌, refl, ap, ◌∙◌, subst, inl, inr, String, Bool, true, false, Option, none, some, List, map,
  ◌==◌, nat_eq, string_eq, ==_self, if◌then◌else◌, find, find-true, find-mapped, filter, length,
  Bool-cases,
}
use test_m_backend.Routes.Scopes.{answered, problem}
use test_m_backend.Routes.Answers.{ResponseBody}
use test_m_backend.Routes.Idempotency.{
  Operation, MutationIdempotency, Replay, same_target, is_entry, new_entry, replay_of, looked_up,
  idempotency_replay, finished, idempotency_finish,
}

target_self : (o : Option ℕ) → same_target o o ≡ true
unfolding same_target
target_self none = refl
target_self (some n) = ==_self n

module _ (tenant : String) (operation : Operation) (key : String) where
  finished-entry :
      (body : ResponseBody) (status : ℕ) (m : MutationIdempotency)
      → is_entry tenant operation key (finished tenant operation key body status m)
        ≡ is_entry tenant operation key m
  unfolding finished is_entry
  finished-entry body status m = either (is_entry tenant operation key m)
    where
      either :
          (b : Bool)
          → is_entry tenant operation key (
              if b
              then record m { response_body = some body; response_status = some status }
              else m)
            ≡ is_entry tenant operation key m
      either true = refl
      either false = refl

  pub new_entry-found :
      (digest : String)
      → is_entry tenant operation key (new_entry tenant operation key digest) ≡ true
  unfolding is_entry new_entry
  new_entry-found digest =
      rw (==_self tenant, ==_self operation.name, target_self operation.target, ==_self key) refl

  -- The row of an answered call.
  abbrev pub HasAnswer : String → ResponseBody → List MutationIdempotency → Type 0
  HasAnswer digest body rows =
      (m : MutationIdempotency) × (find (is_entry tenant operation key) rows ≡ some m)
      × (m.request_hash ≡ digest)
      × (m.response_body ≡ some body)

  finished-row :
      (body : ResponseBody) (status : ℕ) (m : MutationIdempotency)
      → is_entry tenant operation key m ≡ true
      → ((finished tenant operation key body status m).request_hash ≡ m.request_hash)
        × ((finished tenant operation key body status m).response_body ≡ some body)
  unfolding finished
  finished-row body status m h = rw h (refl, refl)

  pub finish-answers :
      (digest : String) (body : ResponseBody) (status : ℕ) (rows left : List MutationIdempotency)
      (m : MutationIdempotency)
      → find (is_entry tenant operation key) rows ≡ some m
      → m.request_hash ≡ digest
      → idempotency_finish tenant operation key body status rows ≡ some left
      → HasAnswer digest body left
  unfolding idempotency_finish
  finish-answers digest body status rows left m h e k =
      elim (Bool-cases (length (filter (is_entry tenant operation key) rows) == 1)) [
        | inr q ↦ absurd (let w = rw q at k in cc)
        | inl q ↦
            let same : map (finished tenant operation key body status) rows ≡ left =
              some-injective _ _ (rw q at k) in
            let row = finished-row body status m (find-true _ rows m h) in
            (
              finished tenant operation key body status m,
              subst
                  (λ xs.
                    find (is_entry tenant operation key) xs
                    ≡ some (finished tenant operation key body status m))
                  same (find-mapped _ _ rows m (finished-entry body status) h),
              row.0 ∙ e,
              row.1,
            )
      ]

  -- The look-up finds the answer of the same body, and a conflict for another.
  pub replay-again :
      (digest other : String) (body : ResponseBody) (rows : List MutationIdempotency)
      → HasAnswer digest body rows
      → idempotency_replay tenant operation key other rows
        ≡ (if digest == other then answered (Replay.replayed body) else problem 409)
  unfolding idempotency_replay looked_up replay_of
  replay-again digest other body rows h =
      ap (looked_up tenant operation key other rows) h.1 ∙ rw (h.2, h.3) refl
