-- ===== src/Requests/Plans.antt =====
-- Which requests of src/kdiff/analysis/requests.py have a plan that the program's validator accepts.
use knowledge_diffusion.Base.{Bool, is_some, leb, length, not, true, ◌||◌}
use knowledge_diffusion.Requests
use knowledge_diffusion.Requests.{Family, Request, RequestError, check_family, is_institution}

-- The subject is given by an identifier or a name.
abbrev pub named : Request → Bool
named r = is_some r.identifier || is_some r.name

-- What a family needs besides: an institution to whose output papers are attributed, an identified
-- subject for a trace, and few enough relations.
abbrev pub suffices : Family → Request → Bool
suffices Requests.count r =
    not (is_institution r.kind) || is_some r.institution_id || is_some r.identifier
suffices Requests.comparison r =
    not (is_institution r.kind) || is_some r.institution_id || is_some r.identifier
suffices Requests.path r = leb (length r.relations) 8
suffices Requests.state r = is_some r.identifier
suffices Requests.returns r = is_some r.identifier
suffices _ r = true
