-- ===== src/Claims/Rendering.antt =====
-- `render` of src/kdiff/analysis/claims.py.
-- A sentence is its template with what is filled in. The ratio of a comparison stands for its value,
-- which the source writes with two places.
use knowledge_diffusion.Base.{
  Bool, Key, List, Option, Result, Result-cases, ap, arith, err, inl, inr, is_ok, length, none, ok,
  or_raise, refl, some, true, ℕ, ℤ, ◌>>=◌, ◌≡◌,
}
use knowledge_diffusion.Time.{Date}
use knowledge_diffusion.Graph.{EntityType}
use knowledge_diffusion.Values
use knowledge_diffusion.Values.{Value, Attribution, Operation}
use knowledge_diffusion.Claims
use knowledge_diffusion.Claims.{
  AtomicClaim, Predicate, ClaimValue, Scope, Verification, Pool, pool_get, verify,
}
use knowledge_diffusion.Claims.Licences.{Agrees, Licenses, verify-Licenses}

pub data Sentence : Type 0 where
  distinct_objects : ℕ → EntityType → Date → Date → Attribution → Sentence
  output_changes : ℕ → ℕ → Operation → ℤ → ℕ → Sentence
  qualifying_paths : ℕ → ℕ → Sentence
  no_matching_records : Sentence
  matching_assertions : ℕ → Sentence
  resolves_to : List Key → Sentence
  dated_states : ℕ → Sentence
  documented_returns : ℕ → ℕ → Sentence

-- `missing_field` is a KeyError.
pub data RenderError : Type 0 where
  missing_field unlicensed_interpretation : RenderError

abbrev pub render_count : Value → Result RenderError Sentence
render_count (Values.aggregate a) =
    ok (distinct_objects a.value a.unit a.window.start a.window.end a.attribution)
render_count _ = err missing_field

abbrev pub render_comparison : Value → Result RenderError Sentence
render_comparison (Values.comparison c) =
    ok (output_changes c.before.value c.after.value c.operation c.numerator c.denominator)
render_comparison _ = err missing_field

abbrev pub render_paths : Value → Result RenderError Sentence
render_paths (Values.paths p) = ok (qualifying_paths (length p.found) p.max_hops)
render_paths _ = err missing_field

-- `result['ids']`
abbrev pub ids_of : Value → Option (List Key)
ids_of (Values.entities ids kind inputs) = some ids
ids_of (Values.edges e) = some e.ids
ids_of (Values.aggregate a) = some a.ids
ids_of _ = none

abbrev pub render_state : Value → Result RenderError Sentence
render_state (Values.event_trace t) = ok (dated_states (length t.states))
render_state _ = err missing_field

abbrev pub render_returns : Value → Result RenderError Sentence
render_returns (Values.mobility_returns r) =
    ok (documented_returns (length r.returns) (length r.ambiguous_candidates))
render_returns _ = err missing_field

abbrev pub render_as : Predicate → Value → Result RenderError Sentence
render_as Claims.recorded_count v = render_count v
render_as Claims.recorded_comparison v = render_comparison v
render_as Claims.recorded_paths v = render_paths v
render_as Claims.scoped_absence v = ok no_matching_records
render_as Claims.recorded_facts v = do
  ids ← or_raise (ids_of v) missing_field
  ok (matching_assertions (length ids))
render_as Claims.recorded_identity v = do
  ids ← or_raise (ids_of v) missing_field
  ok (resolves_to ids)
render_as Claims.recorded_state v = render_state v
render_as Claims.recorded_returns v = render_returns v
render_as _ v = err unlicensed_interpretation

unfoldable pub render : AtomicClaim → Pool → Result RenderError Sentence
render claim pool = do
  result ← or_raise (pool_get pool claim.step_id) missing_field
  render_as claim.predicate result

-- A predicate that a result is presented by has a sentence.
presentable-renders :
    (v : Value) (q : Predicate) → Claims.presentable v ≡ some q → is_ok (render_as q v) ≡ true
presentable-renders (Values.aggregate a) q h = ground arith
presentable-renders v q h = ground arith

render_as-Agrees :
    (claim : AtomicClaim) (v : Value) → Agrees claim v → is_ok (render_as claim.predicate v) ≡ true
render_as-Agrees claim v (inl (p, _, _)) = rw p refl
render_as-Agrees claim v (inr (p, _)) = presentable-renders v claim.predicate p

Licenses-same :
    (claim l : AtomicClaim) (v : Verification)
    → Licenses claim l v
    → (l.predicate ≡ claim.predicate) × (l.step_id ≡ claim.step_id)
Licenses-same claim l v (inl (_, e, _, _)) = (ap (λ k. k.predicate) e, ap (λ k. k.step_id) e)
Licenses-same claim l v (inr (_, _, _, _, p, _, s, _, _)) = (p, s)

module _ (digest_value : Value → Key) (digest_claim : Key → Predicate → ClaimValue → Scope → Key)
    (digest_scoped : Key → Key) where
  -- A claim that `verify` licenses, whole or narrowed, has a sentence over the same pool.
  pub verify-render :
      (claim l : AtomicClaim) (pool : Pool) (a c : Bool) (v : Verification)
      → verify digest_value digest_claim digest_scoped claim pool a c ≡ ok v
      → v.licensed_claim ≡ some l
      → (s : Sentence) × (render l pool ≡ ok s)
  unfolding render
  verify-render claim l pool a c v h k =
      let (backed, licenses) =
        verify-Licenses digest_value digest_claim digest_scoped claim l pool a c v h k in
      let (same_predicate, same_step) = Licenses-same claim l v licenses in
      let said = render_as-Agrees claim backed.result backed.agrees in
      elim (Result-cases (render_as claim.predicate backed.result)) [
        | inl (s, e) ↦ (s, rw (same_step, same_predicate, backed.in_pool) e)
        | inr (e, f) ↦ ground (arith, said, f)
      ]

  -- A supported claim is licensed as it is.
  pub verify-supported :
      (claim : AtomicClaim) (pool : Pool) (a c : Bool) (v : Verification)
      → verify digest_value digest_claim digest_scoped claim pool a c ≡ ok v
      → v.label ≡ Claims.supported
      → v.licensed_claim ≡ some claim
  unfolding verify Claims.verify_result Claims.verify_absence Claims.verify_recorded
      Claims.candidate
  verify-supported claim pool a c v h s = ground arith
