-- ===== src/Requests.antt =====
-- `AnalysisRequest` of src/kdiff/analysis/requests.py; the child Planning has `plan_request`.
-- A request's context has its three fields, and its relations are registered ones.
pub mod Names
pub mod Planning
pub mod Plans
mod Examples
use knowledge_diffusion.Base.{
  Bool, Key, List, Option, Result, String, is_some, length, not, ok, raise_if, ℕ, ◌==◌, ◌>>◌, ◌||◌,
}
use knowledge_diffusion.Time.{Window}
use knowledge_diffusion.Graph
use knowledge_diffusion.Graph.{EntityType, Relation}
use knowledge_diffusion.Values
use knowledge_diffusion.Values.{Attribution, TemporalRule}
use knowledge_diffusion.Program
use knowledge_diffusion.Program.{
  Call, Step, GraphProgram, ProgramError, Metric, AggregateArgs, valid_program, within,
}

pub data Family : Type 0 where
  count comparison sites path timeline state returns identity : Family

pub record Request : Type 0 where
  pub family : Family
  pub kind : EntityType
  pub identifier : Option Key
  pub name : Option String
  pub institution : Option Key
  pub role : Option Key
  pub source : Option Key
  pub window : Window
  pub before : Option Window
  pub topic_id : Option Key
  pub institution_id : Option Key
  pub target_id : Option Key
  pub relations : List Relation
  pub max_hops : ℕ
  pub temporal_rule : TemporalRule
  pub out : Bool

pub data RequestError : Type 0 where
  no_windows no_target wrong_kind hop_limit : RequestError
  bad_program : ProgramError → RequestError

abbrev pub is_author : EntityType → Bool
is_author k = Graph.same_kind k Graph.author

abbrev pub is_institution : EntityType → Bool
is_institution k = Graph.same_kind k Graph.institution

-- The conditions of `AnalysisRequest.valid` for a family.
abbrev pub check_family : Family → Request → Result RequestError (Unit {0})
check_family comparison r = do
  raise_if (not (is_some r.before)) no_windows
  raise_if (not (is_author r.kind || is_institution r.kind)) wrong_kind
check_family path r = raise_if (not (is_some r.target_id) || length r.relations == 0) no_target
check_family count r = raise_if (not (is_author r.kind || is_institution r.kind)) wrong_kind
check_family sites r = raise_if (not (is_institution r.kind)) wrong_kind
check_family timeline r = raise_if (not (is_author r.kind)) wrong_kind
check_family state r = raise_if (not (is_author r.kind)) wrong_kind
check_family returns r = raise_if (not (is_author r.kind)) wrong_kind
check_family identity r = ok tt

-- `AnalysisRequest.valid`, with the bounds on its hops.
unfoldable pub valid_request : Request → Result RequestError Request
valid_request r = do raise_if (not (within 1 6 r.max_hops)) hop_limit; check_family r.family r; ok r
