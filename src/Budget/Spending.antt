-- ===== src/Budget/Spending.antt =====
-- What the providers report against what was reserved, in src/kdiff/inference/limits.py.
use knowledge_diffusion.Base.{
  Bool-cases, List, Option-cases, [], arith, false, get_elem?, inl, inr, is_ok, refl, ℕ, ◌∷◌, ◌≡◌,
  ◌≤◌, ◌⊎◌,
}
use knowledge_diffusion.Budget
use knowledge_diffusion.Budget.{Profile, Ticket, RunBudget, fresh, reserve, settle, Move, step, run}
use knowledge_diffusion.Budget.Limits.{IsWithin, run-IsWithin}
use knowledge_diffusion.Budget.Accounts.{
  IsAccounted, Honest-spending, reserve-IsAccounted, settle-IsAccounted,
}

module _ (p : Profile) where
  step-IsAccounted : (b : RunBudget) (move : Move) → IsAccounted p b → IsAccounted p (step p b move)
  unfolding step
  step-IsAccounted b (Budget.admit size) h = reserve-IsAccounted p size b h
  step-IsAccounted b (Budget.reply_to i reply) h = elim (Option-cases (get_elem? b.events i)) [
    | inl absent ↦ rw absent h
    | inr (x, e) ↦ elim (Bool-cases (Budget.is_reserved x.status)) [
      | inl waits ↦ rw (e, waits) (settle-IsAccounted p i x reply b e waits h)
      | inr closed ↦ rw (e, closed) h
    ]
  ]

  run-IsAccounted :
      (b : RunBudget) (moves : List Move) → IsAccounted p b → IsAccounted p (run p b moves)
  unfolding run
  run-IsAccounted b [] h = h
  run-IsAccounted b (move ∷ moves) h =
      run-IsAccounted (step p b move) moves (step-IsAccounted b move h)

  fresh-IsAccounted : IsAccounted p fresh
  fresh-IsAccounted = record { tickets = tt; tokens = refl; usd = refl; trusted = inl tt }

  -- No request is admitted where no call is left.
  no_calls_left :
      (size : ℕ) (b : RunBudget) → p.max_model_calls ≤ b.calls → is_ok (reserve p size b) ≡ false
  unfolding reserve
  no_calls_left size b h = ground arith

  within_reservation :
      (b : RunBudget)
      → IsAccounted p b
      → IsWithin p b
      → ((b.actual_tokens ≤ b.reserved_tokens) × (b.actual_usd ≤ b.reserved_usd))
        ⊎ ((size : ℕ) → is_ok (reserve p size b) ≡ false)
  within_reservation b h w = elim h.trusted [
    | inl honest ↦ inl (
        omega (
          arith,
          Honest-spending p b.events h.tickets honest,
          h.tokens,
          h.usd,
          w.tokens_counted,
          w.usd_counted,
        ))
    | inr spent ↦ inr (λ size. no_calls_left size b spent)
  ]

-- After any interleaving of calls that starts with a fresh budget, whatever the providers answer:
-- the tokens and the money that they have reported are within what was reserved for them, or a
-- further request, of any size, is refused.
pub run-spending :
    (p : Profile) (moves : List Move) (size : ℕ)
    → let b = run p fresh moves in
      ((b.actual_tokens ≤ b.reserved_tokens) × (b.actual_usd ≤ b.reserved_usd))
      ⊎ (is_ok (reserve p size b) ≡ false)
run-spending p moves size =
    let b = run p fresh moves in
    elim (within_reservation p b (run-IsAccounted p fresh moves (fresh-IsAccounted p))
      (run-IsWithin p moves).0) [ inl kept ↦ inl kept | inr refused ↦ inr (refused size) ]
