-- ===== src/Kv/Kms/Contract.antt =====
-- The encrypting stores and the contract of a key store: what is asked of the key management
-- service, and the proof.

use bank_vaults.Prelude.{
  String, Option, none, some, Exec, Result, ok, err, panic, wrapped, ◌>>=◌, continue-eq-ok,
  continue-eq-err, ◌≡◌, ◌≢◌, inl, inr, arith,
}
use bank_vaults.Kv.{Service, Error, not_found, plain}
use bank_vaults.Kv.Spec.{Faithful}
use bank_vaults.Kv.Kms.{get, set, test, encrypted}

-- What a key management service documents: `open_with c` is the plaintext of the ciphertext `c`, if
-- it is one of the key; encryption makes such a ciphertext, and the store below is not touched.
pub record KmsLaws {W : Type 0} (encrypt decrypt : String → Exec W Error String)
    (plaintext : String → Option String) (below : W → String → Option String) : Type 0 where
  pub encrypts : (p c : String) (w : W) → (encrypt p w).0 ≡ ok c → plaintext c ≡ some p
  pub decrypts : (c p : String) (w : W) → (decrypt c w).0 ≡ ok p → plaintext c ≡ some p
  pub never_missing : (c m : String) (w : W) → (decrypt c w).0 ≢ err (not_found m)
  pub encrypt_keeps : (p j : String) (w : W) → below (encrypt p w).1 j ≡ below w j
  pub decrypt_keeps : (c j : String) (w : W) → below (decrypt c w).1 j ≡ below w j

-- The plaintext of what is stored, if there is one.
abbrev pub opened : (String → Option String) → Option String → Option String
opened plaintext none = none
opened plaintext (some c) = plaintext c

-- An SDK's error is passed on with its text, never as a NotFoundError.
pub wrapped-ne-not_found :
    (r : Result String String) (m : String) → wrapped plain r ≢ err (not_found m)
wrapped-ne-not_found (ok a) m h = cc
wrapped-ne-not_found (err e) m h = cc
wrapped-ne-not_found (panic s) m h = cc

module _ {W : Type 0} (store : Service W) (encrypt decrypt : String → Exec W Error String)
    (plaintext : String → Option String) (below : W → String → Option String)
    (laws : KmsLaws encrypt decrypt plaintext below) (faithful : Faithful store below) where
  got :
      (key v : String) (w : W)
      → (get store encrypt decrypt key w).0 ≡ ok v
      → opened plaintext (below w key) ≡ some v
  unfolding get ◌>>=◌
  got key v w h =
      let (c, found, opens) = continue-eq-ok (store.get key w).0 decrypt (store.get key w).1 h in
      rw (faithful.got key c w found) (laws.decrypts c v _ opens)

  missing :
      (key m : String) (w : W)
      → (get store encrypt decrypt key w).0 ≡ err (not_found m)
      → opened plaintext (below w key) ≡ none
  unfolding get ◌>>=◌
  missing key m w h = elim (continue-eq-err (store.get key w).0 decrypt (store.get key w).1 h) [
    | inl e ↦ rw (faithful.missing key m w e)
    | inr (c, found, e) ↦ absurd (laws.never_missing c m _ e)
  ]

  -- If the store below keeps the contract and the service decrypts what it encrypted, then the
  -- encrypting store keeps the contract for the plaintexts.
  pub encrypted-Faithful :
      Faithful (encrypted store encrypt decrypt) (λ w k. opened plaintext (below w k))
  unfolding encrypted get set test ◌>>=◌
  encrypted-Faithful = record {
    got = got;
    missing = missing;
    get_keeps = λ key j w. grind (arith, faithful.get_keeps, laws.decrypt_keeps);
    stored = λ key v w h. grind (arith, faithful.stored, laws.encrypts);
    set_keeps = λ key v j w n. grind (arith, faithful.set_keeps, laws.encrypt_keeps);
    test_keeps =
        λ key j w. grind (arith, faithful.test_keeps, laws.encrypt_keeps, laws.decrypt_keeps);
  }
