-- ===== src/Vault/Unseal/Progress.antt =====
-- `Unseal` against the documented unseal protocol of a Vault server (`sys/unseal`): the server
-- collects different key shares until it has as many as its threshold.
use bank_vaults.Prelude.{
  String, Bool, true, false, ℕ, zero, suc, ◌+◌, ◌-◌, ◌≤◌, ◌<◌, Option, some, Result, ok, map_err,
  ◌>>=◌, List, [], ◌∷◌, concat, leb, ◌≡◌, ◌≢◌, refl, arith, ap, ◌∙◌, subst, length,
}
use bank_vaults.Kv.{Error, plain}
use bank_vaults.Kv.Spec.{Reliable}
use bank_vaults.Vault.{Vault}
use bank_vaults.Vault.Api.{Client}
use bank_vaults.Vault.Keys.{unseal_key_for_id}
use bank_vaults.Vault.Unseal.{attempt, settle, unseal_from, unseal}

-- Not an element of the list.
abbrev pub Absent : String → List String → Type 0
Absent k [] = Unit {0}
Absent k (x ∷ xs) = (k ≢ x) × Absent k xs

-- The protocol: `entered w` are the shares of the current attempt, and `IsShare` tells the shares
-- of the server's key.
pub record Protocol {W : Type 0} (cl : Client W) (IsShare : String → Type 0) (threshold : ℕ)
    (is_sealed : W → Bool) (entered : W → List String) : Type 0 where
  pub accepts :
      (k : String) (w : W)
      → is_sealed w ≡ true
      → IsShare k
      → Absent k (entered w)
      → suc (length (entered w)) < threshold
      → (cl.unseal k w).0 ≡ ok (record { sealed = true; progress = suc (length (entered w)) })
  pub collects :
      (k : String) (w : W)
      → is_sealed w ≡ true
      → IsShare k
      → Absent k (entered w)
      → suc (length (entered w)) < threshold
      → (is_sealed (cl.unseal k w).1 ≡ true) × (entered (cl.unseal k w).1 ≡ k ∷ entered w)
  pub completes :
      (k : String) (w : W)
      → is_sealed w ≡ true
      → IsShare k
      → Absent k (entered w)
      → suc (length (entered w)) ≡ threshold
      → (cl.unseal k w).0 ≡ ok (record { sealed = false; progress = 0 })
  pub opens :
      (k : String) (w : W)
      → is_sealed w ≡ true
      → IsShare k
      → Absent k (entered w)
      → suc (length (entered w)) ≡ threshold
      → is_sealed (cl.unseal k w).1 ≡ false

-- The first `n` shares, the last one first.
abbrev pub shares_up_to : (ℕ → String) → ℕ → List String
shares_up_to share zero = []
shares_up_to share (suc n) = share n ∷ shares_up_to share n

length-shares_up_to : (share : ℕ → String) (n : ℕ) → length (shares_up_to share n) ≡ n
length-shares_up_to share zero = refl
length-shares_up_to share (suc n) = omega (arith, length-shares_up_to share n)

shares_up_to-Absent :
    (share : ℕ → String) (i n : ℕ)
    → n ≤ i
    → ((j : ℕ) → j < i → share i ≢ share j)
    → Absent (share i) (shares_up_to share n)
shares_up_to-Absent share i zero h differ = tt
shares_up_to-Absent share i (suc n) h differ =
    (differ n (omega arith), shares_up_to-Absent share i n (omega arith) differ)

leb-suc_zero : (n : ℕ) → leb (suc n) 0 ≡ false
leb-suc_zero n = ground arith

-- The key store and the server do not touch one another's state.
pub record Separate {W : Type 0} (v : Vault W) (view : W → String → Option String)
    (is_sealed : W → Bool) (entered : W → List String) : Type 0 where
  pub get_sealed : (k : String) (w : W) → is_sealed (v.key_store.get k w).1 ≡ is_sealed w
  pub get_entered : (k : String) (w : W) → entered (v.key_store.get k w).1 ≡ entered w
  pub get_view : (k j : String) (w : W) → view (v.key_store.get k w).1 j ≡ view w j
  pub unseal_view : (k j : String) (w : W) → view (v.cl.unseal k w).1 j ≡ view w j

-- The run returned without an error and left the server unsealed.
abbrev pub Unseals : {W : Type 0} → (W → Bool) → Option (Result Error (Unit {0}) × W) → Type 0
Unseals {W} is_sealed o = (w : W) × (o ≡ some (ok tt, w)) × (is_sealed w ≡ false)

module _ {W : Type 0} (v : Vault W) (view : W → String → Option String)
    (reliable : Reliable v.key_store view) (IsShare : String → Type 0) (threshold : ℕ)
    (is_sealed : W → Bool) (entered : W → List String)
    (protocol : Protocol v.cl IsShare threshold is_sealed entered)
    (separate : Separate v view is_sealed entered) (share : ℕ → String)
    (shares : (j : ℕ) → j < threshold → IsShare (share j))
    (differ : (i j : ℕ) → j < i → i < threshold → share i ≢ share j) where
  -- The state before round `i`: the shares below `i` are entered, and the store has all of them.
  record Ready (i : ℕ) (w : W) : Type 0 where
    locked : is_sealed w ≡ true
    so_far : entered w ≡ shares_up_to share i
    kept : (j : ℕ) → j < threshold → view w (unseal_key_for_id j) ≡ some (share j)

  abbrev after_get : ℕ → W → W
  after_get i w = (v.key_store.get (unseal_key_for_id i) w).1

  Ready-after_get : (i : ℕ) (w : W) → Ready i w → Ready i (after_get i w)
  Ready-after_get i w r = record {
    locked = separate.get_sealed _ w ∙ r.locked;
    so_far = separate.get_entered _ w ∙ r.so_far;
    kept = λ j h. separate.get_view _ _ w ∙ r.kept j h;
  }

  round :
      (i : ℕ) (w : W)
      → i < threshold
      → Ready i w
      → attempt v i w
        ≡ map_err
            (λ e. plain (concat ("fail to send unseal request to vault: " ∷ e ∷ [])))
            (v.cl.unseal (share i))
            (after_get i w)
  unfolding attempt ◌>>=◌
  round i w h r = rw (reliable.reads _ (share i) w (r.kept i h))

  new_share : (i : ℕ) (w : W) → i < threshold → Ready i w → Absent (share i) (entered w)
  new_share i w h r =
      rw r.so_far (shares_up_to-Absent share i i (omega arith) (λ j lt. differ i j lt h))

  count_entered : (i : ℕ) (w : W) → Ready i w → length (entered w) ≡ i
  count_entered i w r = rw r.so_far (length-shares_up_to share i)

  last_round :
      (i : ℕ) (w : W) (fuel : ℕ)
      → suc i ≡ threshold
      → Ready i w
      → Unseals is_sealed (unseal_from v (suc fuel) i w)
  unfolding unseal_from settle ◌>>=◌
  last_round i w fuel h r =
      let r' = Ready-after_get i w r in
      let k' = new_share i (after_get i w) (omega arith) r' in
      let n' = count_entered i (after_get i w) r' in
      rw (round i w (omega arith) r) (
        rw
          (protocol.completes (share i) (after_get i w) r'.locked (shares i (omega arith)) k'
            (omega arith))
          (
            _,
            refl,
            protocol.opens (share i) (after_get i w) r'.locked (shares i (omega arith)) k'
                (omega arith),
          ))

  unseal_from-Unseals :
      (n i : ℕ) (w : W)
      → suc n + i ≡ threshold
      → Ready i w
      → Unseals is_sealed (unseal_from v (suc n) i w)
  unfolding unseal_from settle ◌>>=◌
  unseal_from-Unseals zero i w h r = last_round i w 0 (omega arith) r
  unseal_from-Unseals (suc n) i w h r =
      let r' = Ready-after_get i w r in
      let k' = new_share i (after_get i w) (omega arith) r' in
      let n' = count_entered i (after_get i w) r' in
      let next =
        protocol.collects (share i) (after_get i w) r'.locked (shares i (omega arith)) k'
          (omega arith) in
      rw (round i w (omega arith) r) (
        rw
          (
            protocol.accepts (share i) (after_get i w) r'.locked (shares i (omega arith)) k'
                (omega arith),
            n',
            leb-suc_zero i,
          )
          (unseal_from-Unseals n (suc i) (v.cl.unseal (share i) (after_get i w)).1 (omega arith)
            (record {
              locked = next.0;
              so_far = next.1 ∙ ap (λ l. share i ∷ l) r'.so_far;
              kept = λ j lt. separate.unseal_view _ _ _ ∙ r'.kept j lt;
            })))

  -- If the server follows the unseal protocol and is sealed with no share entered, the store holds
  -- different shares of the key under the first `threshold` names, and reads do not fail, then
  -- `Unseal` returns without an error after `threshold` rounds and leaves the server unsealed.
  pub unseal_succeeds :
      (w : W)
      → 0 < threshold
      → is_sealed w ≡ true
      → entered w ≡ []
      → ((j : ℕ) → j < threshold → view w (unseal_key_for_id j) ≡ some (share j))
      → Unseals is_sealed (unseal v threshold w)
  unfolding unseal
  unseal_succeeds w h locked none_entered kept =
      let n = threshold - 1 in
      subst (λ t. Unseals is_sealed (unseal_from v t 0 w)) {x = suc n} (omega arith)
        (unseal_from-Unseals n 0 w (omega arith)
          (record { locked = locked; so_far = none_entered; kept = kept }))
