-- ===== src/Renewal/Closing/Bounds.antt =====
-- How much the goroutine of vault/vault.go still does for a closed client.
use bank_vaults.Prelude.{true, ℕ, suc, ◌+◌, ◌≤◌, ◌≡◌, refl, arith, subst}
use bank_vaults.Renewal.{
  Pc, logging_in, logged_in, token_set, announced, State, close-cases, Step, Run, here, later,
}

-- The tokens that a run sets.
abbrev pub tokens_set : {s t : State} → Run s t → ℕ
tokens_set here = 0
tokens_set (later r (Step.set_token x a)) = suc (tokens_set r)
tokens_set (later r _) = tokens_set r

-- The tokens, and the renewers, that a closed client may still get.
abbrev tokens_due : Pc → ℕ
tokens_due logging_in = 1
tokens_due (logged_in x) = 1
tokens_due _ = 0

abbrev renewers_due : Pc → ℕ
renewers_due logging_in = 1
renewers_due (logged_in x) = 1
renewers_due (token_set x) = 1
renewers_due announced = 1
renewers_due _ = 0

-- Where the client is closed and has got its share of tokens and renewers.
record Closed (tokens renewers set : ℕ) (s : State) : Type 0 where
  closed : s.closed ≡ true
  few : set + tokens_due s.pc ≤ tokens
  made : s.made + renewers_due s.pc ≤ renewers

Closed-at :
    {tokens renewers set : ℕ} {s : State} {p : Pc}
    → s.pc ≡ p
    → Closed tokens renewers set s
    → (set + tokens_due p ≤ tokens) × (s.made + renewers_due p ≤ renewers)
Closed-at {tokens} {renewers} {set} {s} at h =
    subst (λ q. (set + tokens_due q ≤ tokens) × (s.made + renewers_due q ≤ renewers)) at
      (h.few, h.made)

Step-Closed :
    {tokens renewers : ℕ} {s t u : State} (r : Run s t) (st : Step t u)
    → Closed tokens renewers (tokens_set r) t
    → Closed tokens renewers (tokens_set (later r st)) u
Step-Closed r (Step.leave a b) h =
    let (few, made) = Closed-at a h in
    record { closed = h.closed; few = omega (arith, few); made = omega (arith, made) }
Step-Closed r (Step.go_on a b) h = absurd (let c = h.closed in cc)
Step-Closed r (Step.login_fails a) h =
    let (few, made) = Closed-at a h in
    record { closed = h.closed; few = omega (arith, few); made = omega (arith, made) }
Step-Closed r (Step.login_crashes a) h =
    let (few, made) = Closed-at a h in
    record { closed = h.closed; few = omega (arith, few); made = omega (arith, made) }
Step-Closed r (Step.login x a) h =
    let (few, made) = Closed-at a h in
    record { closed = h.closed; few = omega (arith, few); made = omega (arith, made) }
Step-Closed r (Step.set_token x a) h =
    let (few, made) = Closed-at a h in
    record { closed = h.closed; few = omega (arith, few); made = omega (arith, made) }
Step-Closed r (Step.announce x a b c) h =
    let (few, made) = Closed-at a h in
    record { closed = h.closed; few = omega (arith, few); made = omega (arith, made) }
Step-Closed r (Step.skip_announcing x a b) h =
    let (few, made) = Closed-at a h in
    record { closed = h.closed; few = omega (arith, few); made = omega (arith, made) }
Step-Closed r (Step.renewer_fails a) h =
    let (few, made) = Closed-at a h in
    record { closed = h.closed; few = omega (arith, few); made = omega (arith, made) }
Step-Closed r (Step.make_renewer a) h =
    let (few, made) = Closed-at a h in
    record { closed = h.closed; few = omega (arith, few); made = omega (arith, made) }
Step-Closed r (Step.publish n a) h =
    let (few, made) = Closed-at a h in
    record { closed = h.closed; few = omega (arith, few); made = omega (arith, made) }
Step-Closed r (Step.run n a) h =
    let (few, made) = Closed-at a h in
    record { closed = h.closed; few = omega (arith, few); made = omega (arith, made) }
Step-Closed r (Step.renewed n a) h = h
Step-Closed r (Step.done n a) h =
    let (few, made) = Closed-at a h in
    record { closed = h.closed; few = omega (arith, few); made = omega (arith, made) }
Step-Closed r (Step.receive id waits there live) h = record {
  closed = h.closed;
  few = h.few;
  made = h.made;
}
Step-Closed {tokens} {renewers} {t} r (Step.closing l k) h =
    close-cases (Closed tokens renewers (tokens_set r)) t (λ _. h)
      (λ _ _. record { closed = refl; few = h.few; made = h.made })

Run-Closed :
    {s t : State} (r : Run s t)
    → s.closed ≡ true
    → Closed (tokens_due s.pc) (s.made + renewers_due s.pc) (tokens_set r) t
Run-Closed here h = record { closed = h; few = omega arith; made = omega arith }
Run-Closed (later r st) h = Step-Closed r st (Run-Closed r h)

due-le : (p : Pc) → (tokens_due p ≤ 1) × (renewers_due p ≤ 1)
due-le p = ground arith

-- From when Close has taken effect, wherever the goroutine then stands, it sets at most one more
-- token and makes at most one more renewer.
pub close_bounds_renewal :
    {s t : State} → s.closed ≡ true → (r : Run s t) → (tokens_set r ≤ 1) × (t.made ≤ suc s.made)
close_bounds_renewal {s} {t} closed r =
    let h = Run-Closed r closed in
    let (one, other) = due-le s.pc in (omega (arith, h.few, one), omega (arith, h.made, other))
