-- ===== src/Renewal/Closing.antt =====
-- What Close of vault/vault.go does to the goroutine.
pub mod Bounds
use Prim.Native.Nat.{compare}
use bank_vaults.Prelude.{
  String, Bool, true, false, ℕ, zero, suc, ◌+◌, ◌≤◌, Option, none, some, ◌≡◌, ◌⊎◌, inl, inr, refl,
  arith, ◌∙◌, subst,
}
use bank_vaults.Renewal.{
  Pc, checking, logging_in, logged_in, token_set, announced, renewer_made, published, waiting, over,
  crashed, Caller, returned, State, put, start, close, close-cases, Step, Run, here, later,
}

-- A renewer that has been published is the client's.
abbrev Known : Pc → Option ℕ → Type 0
Known (published n) o = o ≡ some n
Known (waiting n) o = o ≡ some n
Known _ o = Unit {0}

abbrev Inv : State → Type 0
Inv s = Known s.pc s.token_renewer

Step-Inv : {s t : State} → Inv s → Step s t → Inv t
Step-Inv inv (Step.leave a b) = tt
Step-Inv inv (Step.go_on a b) = tt
Step-Inv inv (Step.login_fails a) = tt
Step-Inv inv (Step.login_crashes a) = tt
Step-Inv inv (Step.login x a) = tt
Step-Inv inv (Step.set_token x a) = tt
Step-Inv inv (Step.announce x a b c) = tt
Step-Inv inv (Step.skip_announcing x a b) = tt
Step-Inv inv (Step.renewer_fails a) = tt
Step-Inv inv (Step.make_renewer a) = tt
Step-Inv inv (Step.publish n a) = refl
Step-Inv {s} inv (Step.run n a) = subst (λ p. Known p s.token_renewer) a inv
Step-Inv inv (Step.renewed n a) = inv
Step-Inv inv (Step.done n a) = tt
Step-Inv inv (Step.receive id waits there live) = inv
Step-Inv {s} inv (Step.closing r l) = close-cases Inv s (λ _. inv) (λ _ _. inv)

Run-Inv : {t : State} → Run start t → Inv t
Run-Inv here = tt
Run-Inv (later r st) = Step-Inv (Run-Inv r) st

put-keeps : (m n : ℕ) (f : ℕ → Bool) → f n ≡ true → put m f n ≡ true
put-keeps m n f h = ground arith

put_self : (n : ℕ) (f : ℕ → Bool) → put n f n ≡ true
put_self n f = ground arith

-- The goroutine waits on a stopped renewer, or is on its way out.
record Ending (n : ℕ) (token : String) (s : State) : Type 0 where
  closed : s.closed ≡ true
  stopped : s.stopped n ≡ true
  same : s.token ≡ token
  place : (s.pc ≡ waiting n) ⊎ ((s.pc ≡ checking) ⊎ (s.pc ≡ over))

Ending-close : (n : ℕ) (token : String) (s : State) → Ending n token s → Ending n token (close s)
Ending-close n token s h =
    close-cases (Ending n token) s (λ _. h)
      (λ m _. record {
        closed = refl;
        stopped = put-keeps m n s.stopped h.stopped;
        same = h.same;
        place = h.place;
      })

Step-Ending :
    (n : ℕ) (token : String) {s t : State} → Ending n token s → Step s t → Ending n token t
Step-Ending n token h (Step.leave a b) = record {
  closed = h.closed;
  stopped = h.stopped;
  same = h.same;
  place = inr (inr refl);
}
Step-Ending n token h (Step.go_on a b) = absurd (let c = h.closed in cc)
Step-Ending n token h (Step.login_fails a) = absurd (ground (arith, h.place))
Step-Ending n token h (Step.login_crashes a) = absurd (ground (arith, h.place))
Step-Ending n token h (Step.login x a) = absurd (ground (arith, h.place))
Step-Ending n token h (Step.set_token x a) = absurd (ground (arith, h.place))
Step-Ending n token h (Step.announce x a b c) = absurd (ground (arith, h.place))
Step-Ending n token h (Step.skip_announcing x a b) = absurd (ground (arith, h.place))
Step-Ending n token h (Step.renewer_fails a) = absurd (ground (arith, h.place))
Step-Ending n token h (Step.make_renewer a) = absurd (ground (arith, h.place))
Step-Ending n token h (Step.publish m a) = absurd (ground (arith, h.place))
Step-Ending n token h (Step.run m a) = absurd (ground (arith, h.place))
Step-Ending n token h (Step.renewed m a) = h
Step-Ending n token h (Step.done m a) = record {
  closed = h.closed;
  stopped = h.stopped;
  same = h.same;
  place = inr (inl refl);
}
Step-Ending n token h (Step.receive id waits there live) = record {
  closed = h.closed;
  stopped = h.stopped;
  same = h.same;
  place = h.place;
}
Step-Ending n token {s} h (Step.closing r l) = Ending-close n token s h

Run-Ending : (n : ℕ) (token : String) {s t : State} → Ending n token s → Run s t → Ending n token t
Run-Ending n token h here = h
Run-Ending n token h (later r st) = Step-Ending n token (Run-Ending n token h r) st

-- If a user closes the client while the goroutine waits on a renewer, then this renewer is stopped,
-- and in every later state the client has the token that it had, and the goroutine waits on this
-- renewer, stands before the check of `closed`, or is over: it neither logs in again nor waits on
-- another renewer.
pub close_ends_renewal :
    {s t : State} (n : ℕ)
    → Run start s
    → s.pc ≡ waiting n
    → Run (close s) t
    → (t.stopped n ≡ true)
      × (t.token ≡ s.token)
      × ((t.pc ≡ waiting n) ⊎ ((t.pc ≡ checking) ⊎ (t.pc ≡ over)))
close_ends_renewal {s} n r at after =
    let known : s.token_renewer ≡ some n = subst (λ p. Known p s.token_renewer) at (Run-Inv r) in
    let closing : Ending n s.token (close s) =
      close-cases (Ending n s.token) s (λ e. cc)
        (λ m e. record {
          closed = refl;
          stopped =
              let same : m ≡ n = ground (arith, e, known) in
              subst (λ k. put m s.stopped k ≡ true) same (put_self m s.stopped);
          same = refl;
          place = inl at;
        }) in
    let h = Run-Ending n s.token closing after in (h.stopped, h.same, h.place)
