-- ===== src/Budget.antt =====
-- `RunBudget` and `BoundedClient` of src/kdiff/inference/limits.py: admission of model requests
-- against a run's limits.
-- Prices are whole multiples of a price step per million tokens, and money is in millionths of
-- that step, so that costs are exact. A ticket is known by its place in `events`, where the
-- source shares the dictionary.
pub mod Limits
mod Accounts
pub mod Spending
mod Examples
use knowledge_diffusion.Base.{
  Bool, List, Option, Result, [], any, err, false, get_elem?, if◌then◌else◌, leb, length, ltb, none,
  not, ok, pos, raise_if, some, true, update_at, ℕ, ℤ, ◌&&◌, ◌*◌, ◌++◌, ◌+◌, ◌==◌, ◌>>◌, ◌||◌, ◌∷◌,
}

pub data ProfileKind : Type 0 where
  mock local_dev openai : ProfileKind

-- The fields of `Provider` (src/kdiff/inference/client.py) that the limits read.
pub record Profile : Type 0 where
  pub profile : ProfileKind
  pub max_output_tokens : ℕ
  pub max_model_calls : ℕ
  pub max_total_tokens : ℕ
  pub context_window : ℕ
  pub max_cost_usd : ℕ
  pub input_usd_per_million : ℕ
  pub output_usd_per_million : ℕ

pub data Status : Type 0 where
  reserved missing_usage completed failed_usage_unknown : Status

pub record Ticket : Type 0 where
  pub call : ℕ
  pub input_upper_estimate : ℕ
  pub output_cap : ℕ
  pub reserved_usd : ℕ
  pub status : Status
  pub prompt_tokens : ℕ
  pub completion_tokens : ℕ

pub record RunBudget : Type 0 where
  pub calls : ℕ
  pub reserved_tokens : ℕ
  pub actual_tokens : ℕ
  pub reserved_usd : ℕ
  pub actual_usd : ℕ
  pub events : List Ticket

pub data BudgetError : Type 0 where
  context_exceeded budget_exhausted cost_exhausted : BudgetError
  unusable_accounting assumptions_exceeded overrides_disabled call_failed : BudgetError

abbrev pub fresh : RunBudget
fresh = record {
  calls = 0;
  reserved_tokens = 0;
  actual_tokens = 0;
  reserved_usd = 0;
  actual_usd = 0;
  events = [];
}

abbrev pub is_openai : ProfileKind → Bool
is_openai openai = true
is_openai _ = false

abbrev pub price : Profile → ℕ → ℕ → ℕ
price p prompt output = prompt * p.input_usd_per_million + output * p.output_usd_per_million

-- The cost of a request: only an `openai` profile is charged.
abbrev pub cost_of : Profile → ℕ → ℕ → ℕ
cost_of p prompt output = if is_openai p.profile then price p prompt output else 0

abbrev pub new_ticket : Profile → RunBudget → ℕ → Ticket
new_ticket p b prompt_bound = record {
  call = b.calls + 1;
  input_upper_estimate = prompt_bound;
  output_cap = p.max_output_tokens;
  reserved_usd = cost_of p prompt_bound p.max_output_tokens;
  status = reserved;
  prompt_tokens = 0;
  completion_tokens = 0;
}

-- The budget after an admission.
abbrev pub grown : Profile → RunBudget → ℕ → RunBudget
grown p b prompt_bound = record b {
  calls = b.calls + 1;
  reserved_tokens = b.reserved_tokens + prompt_bound + p.max_output_tokens;
  reserved_usd = b.reserved_usd + cost_of p prompt_bound p.max_output_tokens;
  events = b.events ++ new_ticket p b prompt_bound ∷ [];
}

-- `size` is the length of the canonical text of the messages and the tool schemas. The result is
-- the ticket's place in `events`.
pub reserve : Profile → ℕ → RunBudget → Result BudgetError (ℕ × RunBudget)
reserve p size b = do
  let prompt_bound = size + 1024
  let output = p.max_output_tokens
  raise_if (ltb p.context_window (prompt_bound + output)) context_exceeded
  raise_if
      (leb p.max_model_calls b.calls
        || ltb p.max_total_tokens (b.reserved_tokens + prompt_bound + output))
      budget_exhausted
  let cost = cost_of p prompt_bound output
  raise_if (is_openai p.profile && ltb p.max_cost_usd (b.reserved_usd + cost)) cost_exhausted
  ok (length b.events, grown p b prompt_bound)

-- The token counts that a provider reports, signed as they arrive.
pub record Usage : Type 0 where
  pub prompt_tokens : ℤ
  pub completion_tokens : ℤ

-- No count is negative, and not both are zero.
pub usable : ℤ → ℤ → Option (ℕ × ℕ)
usable (pos prompt) (pos completion) =
    if prompt + completion == 0 then none else some (prompt, completion)
usable _ _ = none

abbrev pub set_status : Status → Ticket → Ticket
set_status s ticket = record ticket { status = s }

abbrev pub report_usage : ℕ → ℕ → Ticket → Ticket
report_usage prompt completion ticket = record ticket {
  status = completed;
  prompt_tokens = prompt;
  completion_tokens = completion;
}

abbrev pub mark : ℕ → (Ticket → Ticket) → RunBudget → RunBudget
mark i f b = record b { events = update_at i f b.events }

abbrev pub charge : Profile → ℕ → ℕ → RunBudget → RunBudget
charge p prompt completion b = record b {
  actual_tokens = b.actual_tokens + (prompt + completion);
  actual_usd = b.actual_usd + cost_of p prompt completion;
}

-- `finish` raises after it has written: the budget comes back with the error.
pub finish_at :
    Profile → ℕ → Ticket → Option (ℕ × ℕ) → RunBudget → Result BudgetError (Unit {0}) × RunBudget
finish_at p i ticket none b = (err unusable_accounting, mark i (set_status missing_usage) b)
finish_at p i ticket (some (prompt, completion)) b =
    let b' = mark i (report_usage prompt completion) (charge p prompt completion b) in
    if ltb ticket.input_upper_estimate prompt || ltb ticket.output_cap completion
    then (err assumptions_exceeded, record b' { calls = p.max_model_calls })
    else (ok tt, b')

-- What the provider did with an admitted request.
pub data Reply : Type 0 where
  raised : Reply
  answered : Usage → Reply

-- What follows the provider's reply to an admitted request.
pub settle_ticket :
    Profile → ℕ → Ticket → Reply → RunBudget → Result BudgetError (Unit {0}) × RunBudget
unfolding finish_at
settle_ticket p i ticket raised b = (err call_failed, mark i (set_status failed_usage_unknown) b)
settle_ticket p i ticket (answered usage) b =
    finish_at p i ticket (usable usage.prompt_tokens usage.completion_tokens) b

abbrev pub settle_found :
    Profile → ℕ → Option Ticket → Reply → RunBudget → Result BudgetError (Unit {0}) × RunBudget
settle_found p i none reply b = (err call_failed, b)
settle_found p i (some ticket) reply b = settle_ticket p i ticket reply b

-- The part of `create` after the admission of ticket `i`.
pub settle : Profile → ℕ → Reply → RunBudget → Result BudgetError (Unit {0}) × RunBudget
unfolding settle_ticket
settle p i reply b = settle_found p i (get_elem? b.events i) reply b

abbrev pub after_reserve :
    Profile
    → Reply
    → RunBudget
    → Result BudgetError (ℕ × RunBudget)
    → Result BudgetError (Unit {0}) × RunBudget
after_reserve p reply b (err e) = (err e, b)
after_reserve p reply b (ok (i, b')) = settle p i reply b'

-- `BoundedClient.create`, with what the provider would answer.
pub create : Profile → Bool → ℕ → Reply → RunBudget → Result BudgetError (Unit {0}) × RunBudget
create p extra_create_args size reply b =
    if extra_create_args
    then (err overrides_disabled, b)
    else after_reserve p reply b (reserve p size b)

-- Clients of one run share its budget, and a call waits for its provider between the two halves
-- of `create`: the halves of several calls interleave.
pub data Move : Type 0 where
  admit : ℕ → Move
  reply_to : ℕ → Reply → Move

abbrev pub is_reserved : Status → Bool
is_reserved reserved = true
is_reserved _ = false

abbrev pub open_ticket : Option Ticket → Bool
open_ticket none = false
open_ticket (some ticket) = is_reserved ticket.status

abbrev pub admitted : RunBudget → Result BudgetError (ℕ × RunBudget) → RunBudget
admitted b (ok (_, b')) = b'
admitted b (err _) = b

-- A reply comes to a call that waits for one.
pub step : Profile → RunBudget → Move → RunBudget
step p b (admit size) = admitted b (reserve p size b)
step p b (reply_to i reply) =
    if open_ticket (get_elem? b.events i) then (settle p i reply b).1 else b

pub run : Profile → RunBudget → List Move → RunBudget
run p b [] = b
run p b (move ∷ moves) = run p (step p b move) moves

abbrev pub is_completed : Status → Bool
is_completed completed = true
is_completed _ = false

-- `usage_incomplete` of `report`.
pub usage_incomplete : RunBudget → Bool
usage_incomplete b = any (λ ticket. not (is_completed ticket.status)) b.events

-- `estimated_usd` of `report`: withheld where the usage of some call is unknown.
pub estimated_usd : Profile → RunBudget → Option ℕ
estimated_usd p b =
    if is_openai p.profile && not (usage_incomplete b) then some b.actual_usd else none

-- `current_budget`: the run's budget, which may not switch profiles, or a new one. `same` compares
-- the two profiles.
pub current_budget :
    (Profile → Profile → Bool)
    → Option (Profile × RunBudget)
    → Profile
    → Option (Profile × RunBudget)
current_budget same none p = some (p, fresh)
current_budget same (some (active, b)) p = if same active p then some (active, b) else none
