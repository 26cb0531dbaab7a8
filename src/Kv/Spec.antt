-- ===== src/Kv/Spec.antt =====
-- What kv.Service (pkg/kv/kv.go) promises: a map from keys to values that calls may fail to
-- reach. A failed call says nothing about its own key, and never touches another one.
use bank_vaults.Prelude.{String, Option, none, some, ◌≡◌, ◌≢◌, subst, ok, err}
use bank_vaults.Kv.{Service, not_found}

-- `view w k` is what the store holds under `k` in the world `w`. A store may take some keys for the
-- same one, those that `same` maps to one text: then a write of a key keeps those that differ by it.
pub record FaithfulBy {W : Type 0} (same : String → String) (s : Service W)
    (view : W → String → Option String) : Type 0 where
  pub got : (k v : String) (w : W) → (s.get k w).0 ≡ ok v → view w k ≡ some v
  pub missing : (k m : String) (w : W) → (s.get k w).0 ≡ err (not_found m) → view w k ≡ none
  pub get_keeps : (k j : String) (w : W) → view (s.get k w).1 j ≡ view w j
  pub stored : (k v : String) (w : W) → (s.set k v w).0 ≡ ok tt → view (s.set k v w).1 k ≡ some v
  pub set_keeps : (k v j : String) (w : W) → same k ≢ same j → view (s.set k v w).1 j ≡ view w j
  pub test_keeps : (k j : String) (w : W) → view (s.test k w).1 j ≡ view w j

-- A store that tells all keys apart.
abbrev pub Faithful : {W : Type 0} → Service W → (W → String → Option String) → Type 0
Faithful s view = FaithfulBy (λ k. k) s view

-- A store whose calls do not fail: a present key is read, an absent one is reported as not found,
-- and a write is accepted.
pub record Reliable {W : Type 0} (s : Service W) (view : W → String → Option String) : Type 0 where
  pub reads : (k v : String) (w : W) → view w k ≡ some v → (s.get k w).0 ≡ ok v
  pub reports :
      (k : String) (w : W) → view w k ≡ none → (m : String) × ((s.get k w).0 ≡ err (not_found m))
  pub writes : (k v : String) (w : W) → (s.set k v w).0 ≡ ok tt

-- The contract is one of the service, however it is written.
pub Faithful-same :
    {W : Type 0} {same : String → String} {s t : Service W} {view : W → String → Option String}
    → s ≡ t
    → FaithfulBy same s view
    → FaithfulBy same t view
Faithful-same {same} {view} e h = subst (λ x. FaithfulBy same x view) e h
