-- ===== src/Relational/Schema.antt =====
-- Nodes and edges of the relational graph (loop_engine/relational/schema.py). A value of a
-- dictionary is a text or something else, which stands by its JSON text. Nothing reads a
-- confidence, so a number stands for it.
use shadows.Prelude.{nth, Comparable, enum_eq, ℕ, String, ◌≡◌, refl, List, [], ◌∷◌}

pub data EpistemicStatus : Type 0 where
  proposed inferred observed verified qualified : EpistemicStatus
  authoritative contested superseded invalidated : EpistemicStatus

pub data NodeType : Type 0 where
  objective subproblem requirement unknown claim : NodeType
  capability shadow tool model worker : NodeType
  candidate artifact evidence verifier acquisition_target : NodeType
  problem_pattern : NodeType

pub data RelationType : Type 0 where
  requires blocks depends_on decomposes_into contradicts : RelationType
  can_contribute_to provided_by compatible_with produces acquires : RelationType
  supported_by challenged_by produced_by performed_by derived_from : RelationType
  verified_by authorized_by invalidates transfers_to repaired_by : RelationType

abbrev status_position : EpistemicStatus → ℕ
status_position proposed = 0
status_position inferred = 1
status_position observed = 2
status_position verified = 3
status_position qualified = 4
status_position authoritative = 5
status_position contested = 6
status_position superseded = 7
status_position invalidated = 8

abbrev statuss : List EpistemicStatus
statuss =
    proposed ∷ inferred ∷ observed ∷ verified ∷ qualified ∷ authoritative ∷ contested ∷ superseded
    ∷ invalidated ∷ []

abbrev status_member : ℕ → EpistemicStatus
status_member n = nth proposed statuss n

pub member-status : (x : EpistemicStatus) → status_member (status_position x) ≡ x
member-status proposed = refl
member-status _ = refl

instance abbrev pub status_eq : Comparable EpistemicStatus
status_eq = enum_eq status_position status_member member-status

abbrev node_type_position : NodeType → ℕ
node_type_position objective = 0
node_type_position subproblem = 1
node_type_position requirement = 2
node_type_position unknown = 3
node_type_position claim = 4
node_type_position capability = 5
node_type_position shadow = 6
node_type_position tool = 7
node_type_position model = 8
node_type_position worker = 9
node_type_position candidate = 10
node_type_position artifact = 11
node_type_position evidence = 12
node_type_position verifier = 13
node_type_position acquisition_target = 14
node_type_position problem_pattern = 15

abbrev node_types : List NodeType
node_types =
    objective ∷ subproblem ∷ requirement ∷ unknown ∷ claim ∷ capability ∷ shadow ∷ tool ∷ model
    ∷ worker ∷ candidate ∷ artifact ∷ evidence ∷ verifier ∷ acquisition_target ∷ problem_pattern
    ∷ []

abbrev node_type_member : ℕ → NodeType
node_type_member n = nth objective node_types n

pub member-node_type : (x : NodeType) → node_type_member (node_type_position x) ≡ x
member-node_type objective = refl
member-node_type _ = refl

instance abbrev pub node_type_eq : Comparable NodeType
node_type_eq = enum_eq node_type_position node_type_member member-node_type

abbrev relation_position : RelationType → ℕ
relation_position requires = 0
relation_position blocks = 1
relation_position depends_on = 2
relation_position decomposes_into = 3
relation_position contradicts = 4
relation_position can_contribute_to = 5
relation_position provided_by = 6
relation_position compatible_with = 7
relation_position produces = 8
relation_position acquires = 9
relation_position supported_by = 10
relation_position challenged_by = 11
relation_position produced_by = 12
relation_position performed_by = 13
relation_position derived_from = 14
relation_position verified_by = 15
relation_position authorized_by = 16
relation_position invalidates = 17
relation_position transfers_to = 18
relation_position repaired_by = 19

abbrev relations : List RelationType
relations =
    requires ∷ blocks ∷ depends_on ∷ decomposes_into ∷ contradicts ∷ can_contribute_to ∷ provided_by
    ∷ compatible_with ∷ produces ∷ acquires ∷ supported_by ∷ challenged_by ∷ produced_by
    ∷ performed_by ∷ derived_from ∷ verified_by ∷ authorized_by ∷ invalidates ∷ transfers_to
    ∷ repaired_by ∷ []

abbrev relation_member : ℕ → RelationType
relation_member n = nth requires relations n

pub member-relation : (x : RelationType) → relation_member (relation_position x) ≡ x
member-relation requires = refl
member-relation _ = refl

instance abbrev pub relation_eq : Comparable RelationType
relation_eq = enum_eq relation_position relation_member member-relation

pub data Value : Type 0 where
  text other : String → Value

pub record RelationalNode : Type 0 where
  pub node_id : String
  pub node_type : NodeType
  pub label : String
  pub properties : List (String × Value)
  pub epistemic_status : EpistemicStatus
  pub provenance_digest : String
  pub created_at : String

pub record RelationalEdge : Type 0 where
  pub edge_id : String
  pub source_id : String
  pub target_id : String
  pub relation_type : RelationType
  pub epistemic_status : EpistemicStatus
  pub modality : String
  pub confidence : ℕ
  pub created_at : String
  pub metadata : List (String × Value)

-- RelationalNode.with_status
abbrev pub node_with_status : EpistemicStatus → RelationalNode → RelationalNode
node_with_status new_status node = record {
  node_id = node.node_id;
  node_type = node.node_type;
  label = node.label;
  properties = node.properties;
  epistemic_status = new_status;
  provenance_digest = node.provenance_digest;
  created_at = node.created_at;
}

-- RelationalEdge.with_status
abbrev pub edge_with_status : EpistemicStatus → RelationalEdge → RelationalEdge
edge_with_status new_status edge = record {
  edge_id = edge.edge_id;
  source_id = edge.source_id;
  target_id = edge.target_id;
  relation_type = edge.relation_type;
  epistemic_status = new_status;
  modality = edge.modality;
  confidence = edge.confidence;
  created_at = edge.created_at;
  metadata = edge.metadata;
}
