-- ===== src/Kv/Memory.antt =====
-- A key store in memory, as a sample for the contract of pkg/kv/kv.go.
use bank_vaults.Prelude.{
  String, Option, none, some, Exec, ok, err, ◌≡◌, refl, arith, eq_iff, Dict, lookup, insert,
  lookup-insert, eq_refl,
}
use bank_vaults.Kv.{Service, Error, not_found}
use bank_vaults.Kv.Spec.{Faithful, Reliable}

unfoldable pub get : String → Exec (Dict String) Error String
get k w = elim (lookup k w) [ none ↦ (err (not_found "missing"), w) | some v ↦ (ok v, w) ]

module _ {W : Type 0} (dict : W → Dict String) (store : Dict String → W → W) where
  abbrev pub memory : Service W
  memory = record {
    set = λ k v w. (ok tt, store (insert k v (dict w)) w);
    get = λ k w. ((get k (dict w)).0, w);
    test = λ k w. (ok tt, w);
  }

  abbrev pub memory_view : W → String → Option String
  memory_view w k = lookup k (dict w)

  module _ (store_dict : (d : Dict String) (w : W) → dict (store d w) ≡ d) where
    pub memory-Faithful : Faithful memory memory_view
    unfolding get
    memory-Faithful = record {
      got = λ k v w h. grind (arith);
      missing = λ k m w h. grind (arith);
      get_keeps = λ k j w. refl;
      stored = λ k v w h.
          rw (store_dict (insert k v (dict w)) w, lookup-insert k k v (dict w), eq_refl k);
      set_keeps = λ k v j w n.
          rw (store_dict (insert k v (dict w)) w, lookup-insert k j v (dict w))
            (ground (arith, eq_iff k j));
      test_keeps = λ k j w. refl;
    }

  pub memory-Reliable : Reliable memory memory_view
  unfolding get
  memory-Reliable = record {
    reads = λ k v w h. rw (h, get);
    reports = λ k w h. ("missing", rw (h, get));
    writes = λ k v w. refl;
  }
