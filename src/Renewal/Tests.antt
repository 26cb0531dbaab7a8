-- ===== src/Renewal/Tests.antt =====
-- Sample runs of the client of vault/vault.go, and the theorems about it there.
use bank_vaults.Prelude.{true, false, ◌≤◌, none, some, ◌≡◌, ◌⊎◌, refl}
use bank_vaults.Renewal.{
  Secret, checking, logging_in, waiting, over, awaiting, returned, State, start, close, put,
  announced, Step, Run, here, later,
}
use bank_vaults.Renewal.Announcing.{announces_once}
use bank_vaults.Renewal.Closing.{close_ends_renewal}
use bank_vaults.Renewal.Closing.Bounds.{tokens_set, close_bounds_renewal}

abbrev secret : Secret
secret = record { client_token = "s.1"; lease_id = "lease" }

-- After a login that fails and one that works, with the first token in the channel.
abbrev token_given : State
token_given = record start { pc = announced; token = "s.1"; arrived = some "lease"; sent = true }

first_token : Run start token_given
first_token =
    later
      (later
        (later
          (later (later (later here (Step.go_on refl refl)) (Step.login_fails refl))
            (Step.go_on refl refl))
          (Step.login secret refl))
        (Step.set_token secret refl))
      (Step.announce secret refl refl refl)

-- NewClient has returned, and the goroutine has not made a renewer yet.
abbrev client_given : State
client_given = record token_given { caller = returned; arrived = none }

client_run : Run start client_given
client_run = later first_token (Step.receive "lease" refl refl refl)

announces_once_example :
    (client_given.sent ≡ false → (client_given.arrived ≡ none) × (client_given.caller ≡ awaiting))
    × (client_given.caller ≡ returned → (client_given.sent ≡ true) × (client_given.arrived ≡ none))
announces_once_example = announces_once client_run

-- To close this client does nothing: the goroutine goes on, and `closed` stays false.
close_is_lost : Run start client_given × (close client_given ≡ client_given)
close_is_lost = (client_run, refl)

abbrev renewing : State
renewing = record client_given {
  pc = waiting 0;
  token_renewer = some 0;
  made = 1;
  started = put 0 (λ _. false);
}

renewing_run : Run start renewing
renewing_run =
    later (later (later client_run (Step.make_renewer refl)) (Step.publish 0 refl))
      (Step.run 0 refl)

-- The stopped renewer ends, and the goroutine with it.
abbrev ended : State
ended = record (close renewing) { pc = over }

ended_run : Run (close renewing) ended
ended_run = later (later here (Step.done 0 refl)) (Step.leave refl refl)

close_ends_renewal_example :
    (ended.stopped 0 ≡ true)
    × (ended.token ≡ "s.1")
    × ((ended.pc ≡ waiting 0) ⊎ ((ended.pc ≡ checking) ⊎ (ended.pc ≡ over)))
close_ends_renewal_example = close_ends_renewal 0 renewing_run refl ended_run

-- The client is closed after the check of `closed`, while the goroutine logs in again.
abbrev closed_late : State
closed_late = close (record renewing { pc = logging_in })

closed_late_run : Run start closed_late
closed_late_run =
    later (later (later renewing_run (Step.done 0 refl)) (Step.go_on refl refl))
      (Step.closing refl refl)

-- Then it waits on a renewer that runs and that nobody stops.
abbrev leaked : State
leaked = record closed_late {
  pc = waiting 1;
  token_renewer = some 1;
  made = 2;
  started = put 1 (put 0 (λ _. false));
}

leaked_run : Run closed_late leaked
leaked_run =
    later
      (later
        (later
          (later (later (later here (Step.login secret refl)) (Step.set_token secret refl))
            (Step.skip_announcing secret refl refl))
          (Step.make_renewer refl))
        (Step.publish 1 refl))
      (Step.run 1 refl)

leaks : (leaked.closed ≡ true) × (leaked.started 1 ≡ true) × (leaked.stopped 1 ≡ false)
leaks = (refl, refl, refl)

close_bounds_renewal_example : (tokens_set leaked_run ≤ 1) × (leaked.made ≤ 2)
close_bounds_renewal_example = close_bounds_renewal refl leaked_run
