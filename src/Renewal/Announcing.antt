-- ===== src/Renewal/Announcing.antt =====
-- The first token of the client of vault/vault.go.
use bank_vaults.Prelude.{
  String, Bool, true, false, Option, none, Bool-cases, ◌≡◌, inl, inr, refl, arith,
}
use bank_vaults.Renewal.{
  Caller, awaiting, returned, State, start, close-cases, Step, Run, here, later,
}

-- What holds of `initialTokenSent`, the channel and the caller.
record Announced (sent : Bool) (arrived : Option String) (caller : Caller) : Type 0 where
  unsent : sent ≡ false → (arrived ≡ none) × (caller ≡ awaiting)
  received : caller ≡ returned → (sent ≡ true) × (arrived ≡ none)

abbrev Inv : State → Type 0
Inv s = Announced s.sent s.arrived s.caller

Step-Inv : {s t : State} → Inv s → Step s t → Inv t
Step-Inv inv (Step.leave a b) = inv
Step-Inv inv (Step.go_on a b) = inv
Step-Inv inv (Step.login_fails a) = inv
Step-Inv inv (Step.login_crashes a) = inv
Step-Inv inv (Step.login x a) = inv
Step-Inv inv (Step.set_token x a) = inv
Step-Inv inv (Step.announce x a unsent free) = record {
  unsent = λ h. ground arith;
  received = λ h. let waits = (inv.unsent unsent).1 in cc;
}
Step-Inv inv (Step.skip_announcing x a b) = inv
Step-Inv inv (Step.renewer_fails a) = inv
Step-Inv inv (Step.make_renewer a) = inv
Step-Inv inv (Step.publish n a) = inv
Step-Inv inv (Step.run n a) = inv
Step-Inv inv (Step.renewed n a) = inv
Step-Inv inv (Step.done n a) = inv
Step-Inv {s} inv (Step.receive id waits there live) = record {
  unsent = λ h. let empty = (inv.unsent h).0 in cc;
  received = λ h.
      (elim (Bool-cases s.sent) [ inl e ↦ e | inr e ↦ let empty = (inv.unsent e).0 in cc ], refl);
}
Step-Inv {s} inv (Step.closing r l) = close-cases Inv s (λ _. inv) (λ _ _. inv)

Run-Inv : {t : State} → Run start t → Inv t
Run-Inv here = record { unsent = λ h. (refl, refl); received = λ h. cc }
Run-Inv (later r st) = Step-Inv (Run-Inv r) st

-- In every state that the client can reach: until the first token is announced the channel is empty,
-- so that the send, which happens once, does not block, and NewClient still waits for it; and when
-- NewClient has returned the token was announced, and the channel stays empty.
pub announces_once :
    {s : State}
    → Run start s
    → (s.sent ≡ false → (s.arrived ≡ none) × (s.caller ≡ awaiting))
      × (s.caller ≡ returned → (s.sent ≡ true) × (s.arrived ≡ none))
announces_once r = let inv = Run-Inv r in (inv.unsent, inv.received)
