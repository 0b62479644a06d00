-- ===== src/Response/Graph.antt =====
-- engine/response_graph.py: the scope and the reach of an action in the evidence graph. The graph's
-- paths and cycles are answers of NetworkX, and so data here.
use test_m_backend.Common.{
  ℕ, String, Bool, true, false, ◌||◌, not, Option, none, some, List, [], ◌∷◌, map, ◌==◌, nat_eq,
  string_eq, if◌then◌else◌, leb, any, filter,
}
use test_m_backend.Common.Order.{sorted, sorted_set, text_before}
use test_m_backend.Context.Rows.{ExplanationStatus}
use test_m_backend.Context.Classify.{is_match}

-- `type` of a node
pub data NodeKind : Type 0 where
  entity case_node device session resource destination privilege : NodeKind
  context_revision response_action : NodeKind

pub record Node : Type 0 where
  pub id : String
  pub kind : NodeKind
  pub label : String

pub record Edge : Type 0 where
  pub id : String
  pub source : String
  pub target : String
  pub relation : String
  pub event_id : Option ℕ

pub record EvidenceGraph : Type 0 where
  pub nodes : List Node
  pub edges : List Edge
  pub evidence_paths : List (List String)
  pub generated_at : ℕ

pub record BlastRadius : Type 0 where
  pub affected_sessions : List String
  pub affected_resources : List String
  pub affected_destinations : List String
  pub affected_permissions : List String
  pub potentially_disrupted_legitimate_activity : List ℕ
  pub unaffected_activity : List ℕ
  pub affected_event_ids : List ℕ
  pub evidence_paths : List (List String)
  pub graph_generated_at : ℕ

-- the kinds whose labels an action may target
unfoldable pub is_target : NodeKind → Bool
is_target NodeKind.device = true
is_target NodeKind.session = true
is_target NodeKind.resource = true
is_target NodeKind.destination = true
is_target NodeKind.privilege = true
is_target NodeKind.entity = true
is_target _ = false

unfoldable pub valid_scope_values : EvidenceGraph → List String
unfolding is_target
valid_scope_values g = map (λ (n : Node). n.label) (filter (λ (n : Node). is_target n.kind) g.nodes)

unfoldable pub text_in : List String → String → Bool
text_in xs x = any (λ y. y == x) xs

unfoldable pub id_in : List ℕ → ℕ → Bool
id_in xs x = any (λ y. y == x) xs

unfoldable pub affected_nodes : EvidenceGraph → List (String × String) → List Node
unfolding text_in
affected_nodes g scope =
    filter (λ (n : Node). text_in (map (λ (p : String × String). p.1) scope) n.label) g.nodes

-- the event of each edge that touches an affected node
unfoldable pub touched : List String → List Edge → List ℕ
touched ids [] = []
touched ids (e ∷ es) =
    let rest = touched ids es in
    elim e.event_id [
      | none ↦ rest
      | some k ↦ if text_in ids e.source || text_in ids e.target then k ∷ rest else rest
    ]

-- the status that a dictionary of the explanations, in order, holds for an event
unfoldable pub explanation_of : List (ℕ × ExplanationStatus) → ℕ → Option ExplanationStatus
explanation_of [] k = none
explanation_of ((i, s) ∷ rest) k =
    let later = explanation_of rest k in
    elim later [ some t ↦ some t | none ↦ if i == k then some s else none ]

unfoldable pub is_legitimate : List (ℕ × ExplanationStatus) → ℕ → Bool
unfolding explanation_of
is_legitimate explanations k = elim (explanation_of explanations k) [
  | none ↦ false
  | some s ↦ is_match s
]

unfoldable pub same_kind : NodeKind → NodeKind → Bool
same_kind NodeKind.session NodeKind.session = true
same_kind NodeKind.resource NodeKind.resource = true
same_kind NodeKind.destination NodeKind.destination = true
same_kind NodeKind.privilege NodeKind.privilege = true
same_kind _ _ = false

unfoldable pub labels_of : NodeKind → List Node → List String
unfolding same_kind
labels_of kind nodes =
    sorted text_before
      (map (λ (n : Node). n.label) (filter (λ (n : Node). same_kind kind n.kind) nodes))

-- `path[-1]` stands in the list
unfoldable pub ends_in : List String → List String → Bool
ends_in ids [] = false
ends_in ids (x ∷ []) = text_in ids x
ends_in ids (x ∷ y ∷ rest) = ends_in ids (y ∷ rest)

unfoldable pub preview_blast_radius :
    EvidenceGraph → List (String × String) → List (ℕ × ExplanationStatus) → BlastRadius
unfolding affected_nodes touched is_legitimate labels_of ends_in id_in
preview_blast_radius g scope explanations =
    let affected : List Node = affected_nodes g scope in
    let ids : List String = map (λ (n : Node). n.id) affected in
    let events : List ℕ = sorted_set leb (touched ids g.edges) in
    let known : List ℕ = map (λ (p : ℕ × ExplanationStatus). p.0) explanations in
    record {
      affected_sessions = labels_of NodeKind.session affected;
      affected_resources = labels_of NodeKind.resource affected;
      affected_destinations = labels_of NodeKind.destination affected;
      affected_permissions = labels_of NodeKind.privilege affected;
      potentially_disrupted_legitimate_activity = filter (is_legitimate explanations) events;
      unaffected_activity = filter (λ k. not (id_in events k)) (sorted_set leb known);
      affected_event_ids = events;
      evidence_paths = filter (ends_in ids) g.evidence_paths;
      graph_generated_at = g.generated_at;
    }
