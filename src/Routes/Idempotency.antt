-- ===== src/Routes/Idempotency.antt =====
-- api/access_routes.py: idempotency keys. The digest of a body and the round trip through JSON are
-- arguments.
use Prim.Native.String.{count}
use test_m_backend.Common.{
  ℕ, String, Bool, true, false, ◌&&◌, ◌||◌, Option, none, some, List, [], ◌∷◌, ◌++◌, map, ◌==◌,
  nat_eq, string_eq, if◌then◌else◌, ltb, filter, find, length,
}
use test_m_backend.Routes.Scopes.{Answer, answered, problem}
use test_m_backend.Routes.Answers.{ResponseBody}

-- The formatted operations, `f"{operation}:{request_id}"` and so on.
pub record Operation : Type 0 where
  pub name : String
  pub target : Option ℕ

pub record MutationIdempotency : Type 0 where
  pub tenant_id : String
  pub operation : Operation
  pub idempotency_key : String
  pub request_hash : String
  pub response_body : Option ResponseBody
  pub response_status : Option ℕ

-- `_required_idempotency`
unfoldable pub required_idempotency : Option String → Answer String
required_idempotency none = problem 400
required_idempotency (some value) =
    if (value == "") || (ltb (count value) 8 || ltb 128 (count value))
    then problem 400
    else answered value

unfoldable pub same_target : Option ℕ → Option ℕ → Bool
same_target none none = true
same_target (some a) (some b) = a == b
same_target _ _ = false

-- the filter of both queries
unfoldable pub is_entry : String → Operation → String → MutationIdempotency → Bool
unfolding same_target
is_entry tenant operation key m =
    (m.tenant_id == tenant)
    && (((m.operation.name == operation.name) && same_target m.operation.target operation.target)
        && (m.idempotency_key == key))

-- What the look-up leads to: the body of an earlier answer, or a new row.
pub data Replay : Type 0 where
  replayed : ResponseBody → Replay
  begun : List MutationIdempotency → Replay

unfoldable pub new_entry : String → Operation → String → String → MutationIdempotency
new_entry tenant operation key digest = record {
  tenant_id = tenant;
  operation = operation;
  idempotency_key = key;
  request_hash = digest;
  response_body = none;
  response_status = none;
}

-- a row without a body is false to the callers, which go on
unfoldable pub replay_of : Option ResponseBody → List MutationIdempotency → Replay
replay_of (some body) rows = replayed body
replay_of none rows = begun rows

unfoldable pub looked_up :
    String
    → Operation
    → String
    → String
    → List MutationIdempotency
    → Option MutationIdempotency
    → Answer Replay
unfolding new_entry replay_of
looked_up tenant operation key digest rows none =
    answered (begun (rows ++ new_entry tenant operation key digest ∷ []))
looked_up tenant operation key digest rows (some m) =
    if m.request_hash == digest then answered (replay_of m.response_body rows) else problem 409

-- `_idempotency_replay`
unfoldable pub idempotency_replay :
    String → Operation → String → String → List MutationIdempotency → Answer Replay
unfolding is_entry looked_up
idempotency_replay tenant operation key digest rows =
    looked_up tenant operation key digest rows (find (is_entry tenant operation key) rows)

-- the writes of `_idempotency_finish`, to the row that it finds
unfoldable pub finished :
    String → Operation → String → ResponseBody → ℕ → MutationIdempotency → MutationIdempotency
finished tenant operation key body status m =
    if is_entry tenant operation key m
    then record m { response_body = some body; response_status = some status }
    else m

-- `_idempotency_finish`, whose `one()` raises unless there is one row
unfoldable pub idempotency_finish :
    String
    → Operation
    → String
    → ResponseBody
    → ℕ
    → List MutationIdempotency
    → Option (List MutationIdempotency)
unfolding finished
idempotency_finish tenant operation key body status rows =
    if length (filter (is_entry tenant operation key) rows) == 1
    then some (map (finished tenant operation key body status) rows)
    else none
