-- ===== src/Budget/Limits.antt =====
-- The limits of src/kdiff/inference/limits.py hold whatever the clients ask for and whatever the
-- provider answers.
use knowledge_diffusion.Base.{
  List, Option, [], ap, arith, get_elem?, if◌then◌else◌, is_ok, length, length-append, none, refl,
  some, suc, true, update_at, zero, ℕ, ◌++◌, ◌+◌, ◌<◌, ◌↔◌, ◌∷◌, ◌≡◌, ◌≤◌,
}
use knowledge_diffusion.Budget
use knowledge_diffusion.Budget.{Profile, Ticket, RunBudget, fresh, reserve, settle, Move, step, run}

abbrev pub tokens_reserved : List Ticket → ℕ
tokens_reserved [] = 0
tokens_reserved (x ∷ xs) = x.input_upper_estimate + x.output_cap + tokens_reserved xs

abbrev pub usd_reserved : List Ticket → ℕ
usd_reserved [] = 0
usd_reserved (x ∷ xs) = x.reserved_usd + usd_reserved xs

tokens_reserved-append :
    (xs ys : List Ticket) → tokens_reserved (xs ++ ys) ≡ tokens_reserved xs + tokens_reserved ys
tokens_reserved-append [] ys = omega arith
tokens_reserved-append (x ∷ xs) ys = omega (arith, tokens_reserved-append xs ys)

usd_reserved-append :
    (xs ys : List Ticket) → usd_reserved (xs ++ ys) ≡ usd_reserved xs + usd_reserved ys
usd_reserved-append [] ys = omega arith
usd_reserved-append (x ∷ xs) ys = omega (arith, usd_reserved-append xs ys)

-- A request that the limits of the profile leave room for.
pub record Fits (p : Profile) (size : ℕ) (b : RunBudget) : Type 0 where
  pub in_context : size + 1024 + p.max_output_tokens ≤ p.context_window
  pub call_left : b.calls < p.max_model_calls
  pub tokens_left : b.reserved_tokens + (size + 1024) + p.max_output_tokens ≤ p.max_total_tokens
  pub money_left :
      if Budget.is_openai p.profile
      then b.reserved_usd + Budget.price p (size + 1024) p.max_output_tokens ≤ p.max_cost_usd
      else Unit

-- A request is admitted exactly when it fits in the context window, a call is left, and the tokens
-- and, where the profile is charged, the money that it may cost fit in what is not yet reserved.
pub reserve-Fits :
    (p : Profile) (size : ℕ) (b : RunBudget) → (is_ok (reserve p size b) ≡ true) ↔ Fits p size b
unfolding reserve
reserve-Fits p size b = (λ r. ground arith, λ f. ground arith)

-- The reservations stand within the limits of the profile, and are those of the tickets; every
-- ticket is a call.
pub record IsWithin (p : Profile) (b : RunBudget) : Type 0 where
  pub calls_within : b.calls ≤ p.max_model_calls
  pub calls_counted : length b.events ≤ b.calls
  pub tokens_within : b.reserved_tokens ≤ p.max_total_tokens
  pub usd_within :
      if Budget.is_openai p.profile then b.reserved_usd ≤ p.max_cost_usd else b.reserved_usd ≡ 0
  pub tokens_counted : b.reserved_tokens ≡ tokens_reserved b.events
  pub usd_counted : b.reserved_usd ≡ usd_reserved b.events

reserve-IsWithin :
    (p : Profile) (size : ℕ) (b : RunBudget)
    → IsWithin p b
    → IsWithin p (Budget.admitted b (reserve p size b))
unfolding reserve
reserve-IsWithin p size b w =
    let new = Budget.new_ticket p b (size + 1024) ∷ [] in
    ground (
      arith,
      tokens_reserved-append b.events new,
      usd_reserved-append b.events new,
      length-append b.events new,
    )

-- A note on a ticket that leaves its reservation alone.
abbrev pub Keeps : (Ticket → Ticket) → Type 0
Keeps f =
    (x : Ticket)
    → ((f x).input_upper_estimate ≡ x.input_upper_estimate)
      × ((f x).output_cap ≡ x.output_cap)
      × ((f x).reserved_usd ≡ x.reserved_usd)

length-update_at :
    (i : ℕ) (f : Ticket → Ticket) (xs : List Ticket) → length (update_at i f xs) ≡ length xs
length-update_at i f [] = refl
length-update_at zero f (x ∷ xs) = refl
length-update_at (suc i) f (x ∷ xs) = ap suc (length-update_at i f xs)

tokens_reserved-update_at :
    (i : ℕ) (f : Ticket → Ticket) (xs : List Ticket)
    → Keeps f
    → (tokens_reserved (update_at i f xs) ≡ tokens_reserved xs)
      × (usd_reserved (update_at i f xs) ≡ usd_reserved xs)
tokens_reserved-update_at i f [] keep = (refl, refl)
tokens_reserved-update_at zero f (x ∷ xs) keep = omega (arith, keep x)
tokens_reserved-update_at (suc i) f (x ∷ xs) keep =
    omega (arith, tokens_reserved-update_at i f xs keep)

mark-IsWithin :
    (p : Profile) (i : ℕ) (f : Ticket → Ticket) (b : RunBudget)
    → Keeps f
    → IsWithin p b
    → IsWithin p (Budget.mark i f b)
mark-IsWithin p i f b keep w =
    ground (arith, tokens_reserved-update_at i f b.events keep, length-update_at i f b.events)

finish_at-IsWithin :
    (p : Profile) (i : ℕ) (ticket : Ticket) (usage : Option (ℕ × ℕ)) (b : RunBudget)
    → IsWithin p b
    → IsWithin p (Budget.finish_at p i ticket usage b).1
unfolding Budget.finish_at
finish_at-IsWithin p i ticket none b w =
    mark-IsWithin p i (Budget.set_status Budget.missing_usage) b (λ x. (refl, refl, refl)) w
finish_at-IsWithin p i ticket (some (prompt, completion)) b w = ground (
  arith,
  mark-IsWithin p i (Budget.report_usage prompt completion) (Budget.charge p prompt completion b)
      (λ x. (refl, refl, refl)) (ground arith),
)

finish_at-tickets :
    (p : Profile) (i : ℕ) (ticket : Ticket) (usage : Option (ℕ × ℕ)) (b : RunBudget)
    → length (Budget.finish_at p i ticket usage b).1.events ≡ length b.events
unfolding Budget.finish_at
finish_at-tickets p i ticket none b = length-update_at i _ b.events
finish_at-tickets p i ticket (some (prompt, completion)) b =
    ground (arith, length-update_at i (Budget.report_usage prompt completion) b.events)

settle_found-IsWithin :
    (p : Profile) (i : ℕ) (ticket : Option Ticket) (reply : Budget.Reply) (b : RunBudget)
    → IsWithin p b
    → IsWithin p (Budget.settle_found p i ticket reply b).1
unfolding Budget.settle_ticket
settle_found-IsWithin p i none reply b w = w
settle_found-IsWithin p i (some ticket) Budget.raised b w =
    mark-IsWithin p i (Budget.set_status Budget.failed_usage_unknown) b (λ x. (refl, refl, refl)) w
settle_found-IsWithin p i (some ticket) (Budget.answered usage) b w =
    finish_at-IsWithin p i ticket (Budget.usable usage.prompt_tokens usage.completion_tokens) b w

settle-IsWithin :
    (p : Profile) (i : ℕ) (reply : Budget.Reply) (b : RunBudget)
    → IsWithin p b
    → IsWithin p (settle p i reply b).1
unfolding settle
settle-IsWithin p i reply b w = settle_found-IsWithin p i (get_elem? b.events i) reply b w

step-IsWithin :
    (p : Profile) (b : RunBudget) (move : Move) → IsWithin p b → IsWithin p (step p b move)
unfolding step
step-IsWithin p b (Budget.admit size) w = reserve-IsWithin p size b w
step-IsWithin p b (Budget.reply_to i reply) w = ground (arith, settle-IsWithin p i reply b w)

run_from-IsWithin :
    (p : Profile) (b : RunBudget) (moves : List Move) → IsWithin p b → IsWithin p (run p b moves)
unfolding run
run_from-IsWithin p b [] w = w
run_from-IsWithin p b (move ∷ moves) w =
    run_from-IsWithin p (step p b move) moves (step-IsWithin p b move w)

fresh-IsWithin : (p : Profile) → IsWithin p fresh
fresh-IsWithin p = ground arith

-- The requests that a run admits.
abbrev pub admissions_at : Profile → RunBudget → Move → ℕ
admissions_at p b (Budget.admit size) = if is_ok (reserve p size b) then 1 else 0
admissions_at p b (Budget.reply_to i reply) = 0

abbrev pub admissions : Profile → RunBudget → List Move → ℕ
admissions p b [] = 0
admissions p b (move ∷ moves) = admissions_at p b move + admissions p (step p b move) moves

settle_found-tickets :
    (p : Profile) (i : ℕ) (ticket : Option Ticket) (reply : Budget.Reply) (b : RunBudget)
    → length (Budget.settle_found p i ticket reply b).1.events ≡ length b.events
unfolding Budget.settle_ticket
settle_found-tickets p i none reply b = refl
settle_found-tickets p i (some ticket) Budget.raised b = length-update_at i _ b.events
settle_found-tickets p i (some ticket) (Budget.answered usage) b =
    finish_at-tickets p i ticket (Budget.usable usage.prompt_tokens usage.completion_tokens) b

-- Every admission has a ticket.
step-tickets :
    (p : Profile) (b : RunBudget) (move : Move)
    → length (step p b move).events ≡ length b.events + admissions_at p b move
unfolding step settle reserve
step-tickets p b (Budget.admit size) =
    ground (arith, length-append b.events (Budget.new_ticket p b (size + 1024) ∷ []))
step-tickets p b (Budget.reply_to i reply) =
    ground (arith, settle_found-tickets p i (get_elem? b.events i) reply b)

run-tickets :
    (p : Profile) (b : RunBudget) (moves : List Move)
    → length (run p b moves).events ≡ length b.events + admissions p b moves
unfolding run
run-tickets p b [] = omega arith
run-tickets p b (move ∷ moves) =
    omega (arith, run-tickets p (step p b move) moves, step-tickets p b move)

-- However the calls of a run interleave, and whatever the providers answer: a run that starts with
-- a fresh budget admits no more requests than the profile's number of calls; and what it has
-- reserved, in tokens and in money, is what its tickets reserve and is within the profile's limits.
pub run-IsWithin :
    (p : Profile) (moves : List Move)
    → IsWithin p (run p fresh moves) × (admissions p fresh moves ≤ p.max_model_calls)
run-IsWithin p moves =
    let w = run_from-IsWithin p fresh moves (fresh-IsWithin p) in
    (w, omega (arith, w.calls_within, w.calls_counted, run-tickets p fresh moves))
