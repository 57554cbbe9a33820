-- ===== src/Budget/Accounts.antt =====
-- The account of what the providers report, kept through each half of a call, in src/kdiff/inference/limits.py.
use knowledge_diffusion.Base.{
  All, All-append, All-get_elem?, All-update_at, Bool-cases, List, Option, [], all, arith, false,
  get_elem?, if◌then◌else◌, inl, inr, ltb, none, refl, some, suc, true, update_at, zero, ℕ, ◌++◌,
  ◌+◌, ◌||◌, ◌∷◌, ◌≡◌, ◌≤◌, ◌⊎◌,
}
use knowledge_diffusion.Budget
use knowledge_diffusion.Budget.{Profile, Ticket, RunBudget, fresh, reserve, settle, Move, step, run}
use knowledge_diffusion.Budget.Limits.{tokens_reserved, usd_reserved}

module _ (p : Profile) where
  abbrev pub tokens_spent : List Ticket → ℕ
  tokens_spent [] = 0
  tokens_spent (x ∷ xs) = x.prompt_tokens + x.completion_tokens + tokens_spent xs

  abbrev pub usd_spent : List Ticket → ℕ
  usd_spent [] = 0
  usd_spent (x ∷ xs) = Budget.cost_of p x.prompt_tokens x.completion_tokens + usd_spent xs

  -- A ticket reserves the cost of its bounds, and one that waits for a reply has spent nothing.
  pub record IsTicket (x : Ticket) : Type 0 where
    pub priced : x.reserved_usd ≡ Budget.cost_of p x.input_upper_estimate x.output_cap
    pub unspent :
        if Budget.is_reserved x.status then x.prompt_tokens + x.completion_tokens ≡ 0 else Unit

  -- The provider kept to the ticket's bounds.
  pub record Honest (x : Ticket) : Type 0 where
    pub prompt_within : x.prompt_tokens ≤ x.input_upper_estimate
    pub completion_within : x.completion_tokens ≤ x.output_cap

  cost_of_mono : (a b c d : ℕ) → a ≤ c → b ≤ d → Budget.cost_of p a b ≤ Budget.cost_of p c d
  cost_of_mono a b c d h k = elim (Bool-cases (Budget.is_openai p.profile)) [
    | inl charged ↦ rw charged (grind arith)
    | inr free ↦ rw free (omega arith)
  ]

  cost_of_zero : (a b : ℕ) → a + b ≡ 0 → Budget.cost_of p a b ≡ 0
  cost_of_zero a b h =
      let none_in : a ≡ 0 = omega arith in
      let none_out : b ≡ 0 = omega arith in rw (none_in, none_out) (ground arith)

  pub Honest-spending :
      (xs : List Ticket)
      → All IsTicket xs
      → All Honest xs
      → (tokens_spent xs ≤ tokens_reserved xs) × (usd_spent xs ≤ usd_reserved xs)
  Honest-spending [] h k = omega arith
  Honest-spending (x ∷ xs) h k = omega (
    arith,
    h.0.priced,
    Honest-spending xs h.1 k.1,
    cost_of_mono x.prompt_tokens x.completion_tokens x.input_upper_estimate x.output_cap
        k.0.prompt_within k.0.completion_within,
  )

  -- The account of a run.
  pub record IsAccounted (b : RunBudget) : Type 0 where
    pub tickets : All IsTicket b.events
    pub tokens : b.actual_tokens ≡ tokens_spent b.events
    pub usd : b.actual_usd ≡ usd_spent b.events
    pub trusted : All Honest b.events ⊎ (p.max_model_calls ≤ b.calls)

  spent-append :
      (xs : List Ticket) (x : Ticket)
      → (tokens_spent (xs ++ x ∷ []) ≡ tokens_spent xs + (x.prompt_tokens + x.completion_tokens))
        × (usd_spent (xs ++ x ∷ [])
            ≡ usd_spent xs + Budget.cost_of p x.prompt_tokens x.completion_tokens)
  spent-append [] x = omega arith
  spent-append (y ∷ ys) x = omega (arith, spent-append ys x)

  trusted_more :
      (xs : List Ticket) (x : Ticket) (calls calls' : ℕ)
      → (All Honest xs ⊎ (p.max_model_calls ≤ calls))
      → Honest x
      → calls ≤ calls'
      → All Honest (xs ++ x ∷ []) ⊎ (p.max_model_calls ≤ calls')
  trusted_more xs x calls calls' (inl all) new le =
      inl (All-append Honest xs (x ∷ []) all (new, tt))
  trusted_more xs x calls calls' (inr spent) new le = inr (omega arith)

  grown-IsAccounted :
      (size : ℕ) (b : RunBudget) → IsAccounted b → IsAccounted (Budget.grown p b (size + 1024))
  grown-IsAccounted size b h =
      let new = Budget.new_ticket p b (size + 1024) in
      record {
        tickets = All-append IsTicket b.events (new ∷ []) h.tickets ((ground arith), tt);
        tokens = omega (arith, h.tokens, spent-append b.events new);
        usd = omega (arith, h.usd, spent-append b.events new, cost_of_zero 0 0 refl);
        trusted =
            trusted_more b.events new b.calls (b.calls + 1) h.trusted
              (record { prompt_within = omega arith; completion_within = omega arith })
              (omega arith);
      }

  reserve-grown :
      (size : ℕ) (b : RunBudget)
      → (Budget.admitted b (reserve p size b) ≡ b)
        ⊎ (Budget.admitted b (reserve p size b) ≡ Budget.grown p b (size + 1024))
  unfolding reserve
  reserve-grown size b = ground arith

  pub reserve-IsAccounted :
      (size : ℕ) (b : RunBudget)
      → IsAccounted b
      → IsAccounted (Budget.admitted b (reserve p size b))
  reserve-IsAccounted size b h = elim (reserve-grown size b) [
    | inl same ↦ rw same h
    | inr more ↦ rw more (grown-IsAccounted size b h)
  ]

  -- A ticket that waits is settled once.
  mark-spent :
      (i : ℕ) (f : Ticket → Ticket) (xs : List Ticket) (x : Ticket)
      → get_elem? xs i ≡ some x
      → x.prompt_tokens + x.completion_tokens ≡ 0
      → (tokens_spent (update_at i f xs)
          ≡ tokens_spent xs + ((f x).prompt_tokens + (f x).completion_tokens))
        × (usd_spent (update_at i f xs)
            ≡ usd_spent xs + Budget.cost_of p (f x).prompt_tokens (f x).completion_tokens)
  mark-spent i f [] x e zero_spent = cc
  mark-spent zero f (y ∷ ys) x e zero_spent =
      let same : y ≡ x = cc in
      rw same (omega (arith, cost_of_zero x.prompt_tokens x.completion_tokens zero_spent))
  mark-spent (suc i) f (y ∷ ys) x e zero_spent = omega (arith, mark-spent i f ys x e zero_spent)

  trusted_settled :
      (i : ℕ) (f : Ticket → Ticket) (xs : List Ticket) (x : Ticket) (calls calls' : ℕ)
      → get_elem? xs i ≡ some x
      → (All Honest xs ⊎ (p.max_model_calls ≤ calls))
      → (Honest (f x) ⊎ (p.max_model_calls ≤ calls'))
      → (calls ≡ calls') ⊎ (calls' ≡ p.max_model_calls)
      → All Honest (update_at i f xs) ⊎ (p.max_model_calls ≤ calls')
  trusted_settled i f xs x calls calls' e (inl all) (inl fine) keep =
      inl (All-update_at Honest i f xs x e all fine)
  trusted_settled i f xs x calls calls' e (inl all) (inr spent) keep = inr spent
  trusted_settled i f xs x calls calls' e (inr spent) fine keep = inr (omega arith)

  -- The account after a settlement that writes what the ticket reports.
  settled-IsAccounted :
      (i : ℕ) (f : Ticket → Ticket) (b : RunBudget) (x : Ticket) (calls' : ℕ)
      → get_elem? b.events i ≡ some x
      → x.prompt_tokens + x.completion_tokens ≡ 0
      → IsAccounted b
      → IsTicket (f x)
      → (Honest (f x) ⊎ (p.max_model_calls ≤ calls'))
      → (b.calls ≡ calls') ⊎ (calls' ≡ p.max_model_calls)
      → IsAccounted (record b {
        calls = calls';
        actual_tokens = b.actual_tokens + ((f x).prompt_tokens + (f x).completion_tokens);
        actual_usd = b.actual_usd + Budget.cost_of p (f x).prompt_tokens (f x).completion_tokens;
        events = update_at i f b.events;
      })
  settled-IsAccounted i f b x calls' e zero_spent h ticket fine keep = record {
    tickets = All-update_at IsTicket i f b.events x e h.tickets ticket;
    tokens = omega (arith, h.tokens, mark-spent i f b.events x e zero_spent);
    usd = omega (arith, h.usd, mark-spent i f b.events x e zero_spent);
    trusted = trusted_settled i f b.events x b.calls calls' e h.trusted fine keep;
  }

  -- A ticket that waits has spent nothing.
  waiting :
      (i : ℕ) (x : Ticket) (b : RunBudget)
      → get_elem? b.events i ≡ some x
      → Budget.is_reserved x.status ≡ true
      → IsAccounted b
      → x.prompt_tokens + x.completion_tokens ≡ 0
  waiting i x b e waits h =
      ground (arith, (All-get_elem? IsTicket b.events i x h.tickets e).unspent)

  noted-IsAccounted :
      (i : ℕ) (s : Budget.Status) (x : Ticket) (b : RunBudget)
      → get_elem? b.events i ≡ some x
      → Budget.is_reserved x.status ≡ true
      → Budget.is_reserved s ≡ false
      → IsAccounted b
      → IsAccounted (Budget.mark i (Budget.set_status s) b)
  noted-IsAccounted i s x b e waits closed h =
      let z = waiting i x b e waits h in
      let ticket = All-get_elem? IsTicket b.events i x h.tickets e in
      let spent = mark-spent i (Budget.set_status s) b.events x e z in
      let free = cost_of_zero x.prompt_tokens x.completion_tokens z in
      record {
        tickets =
            All-update_at IsTicket i (Budget.set_status s) b.events x e h.tickets
              (record { priced = ticket.priced; unspent = ground arith });
        tokens = omega (arith, h.tokens, spent, z);
        usd = omega (arith, h.usd, spent, free);
        trusted =
            trusted_settled i (Budget.set_status s) b.events x b.calls b.calls e h.trusted
              (inl (record { prompt_within = omega arith; completion_within = omega arith }))
              (inl refl);
      }

  finish_at-IsAccounted :
      (i : ℕ) (x : Ticket) (usage : Option (ℕ × ℕ)) (b : RunBudget)
      → get_elem? b.events i ≡ some x
      → Budget.is_reserved x.status ≡ true
      → IsAccounted b
      → IsAccounted (Budget.finish_at p i x usage b).1
  unfolding Budget.finish_at
  finish_at-IsAccounted i x none b e waits h =
      noted-IsAccounted i Budget.missing_usage x b e waits refl h
  finish_at-IsAccounted i x (some (prompt, completion)) b e waits h =
      let z = waiting i x b e waits h in
      let ticket : IsTicket (Budget.report_usage prompt completion x) = record {
        priced = (All-get_elem? IsTicket b.events i x h.tickets e).priced;
        unspent = tt;
      } in
      elim (Bool-cases (ltb x.input_upper_estimate prompt || ltb x.output_cap completion)) [
        | inl over ↦ rw over (
            settled-IsAccounted i (Budget.report_usage prompt completion) b x p.max_model_calls e z
              h ticket (inr (omega arith)) (inr refl))
        | inr fine ↦ rw fine (
            settled-IsAccounted i (Budget.report_usage prompt completion) b x b.calls e z h ticket
              (inl (record { prompt_within = ground arith; completion_within = ground arith }))
              (inl refl))
      ]

  pub settle-IsAccounted :
      (i : ℕ) (x : Ticket) (reply : Budget.Reply) (b : RunBudget)
      → get_elem? b.events i ≡ some x
      → Budget.is_reserved x.status ≡ true
      → IsAccounted b
      → IsAccounted (settle p i reply b).1
  unfolding settle Budget.settle_ticket
  settle-IsAccounted i x Budget.raised b e waits h =
      rw e (noted-IsAccounted i Budget.failed_usage_unknown x b e waits refl h)
  settle-IsAccounted i x (Budget.answered usage) b e waits h = rw e (
      finish_at-IsAccounted i x (Budget.usable usage.prompt_tokens usage.completion_tokens) b e
        waits h)
