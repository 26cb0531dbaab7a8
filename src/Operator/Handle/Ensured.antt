-- ===== src/Operator/Handle/Ensured.antt =====
-- The stateful set that stands after Handle of operator/pkg/stub/handler.go has seen to it.
use bank_vaults.Prelude.{
  String, Option, Result, ok, err, panic, wrapped-eq-ok, map_err, ◌>>=◌, ◌≡◌, refl, sym, ap, ◌∙◌,
  Keeps-pure, Gives, Gives-first,
}
use bank_vaults.Operator.Objects.{ObjectMeta, WorkloadSpec, Object, stateful_set}
use bank_vaults.Operator.Spec.{VaultCr}
use bank_vaults.Operator.Fabricate.{Library}
use bank_vaults.Operator.Fabricate.Etcd.{stateful_set_for_vault}
use bank_vaults.Operator.Fabricate.Etcd.Belongs.{set_meta}
use bank_vaults.Operator.Handle.{
  Cluster, failed, text, ApiError, already_exists, absent, other, found_set, replace,
  ensure_stateful_set,
}
use bank_vaults.Operator.Handle.Registry.{stateful_sets, Place, Registry}
use bank_vaults.Operator.Handle.Settled.{SetStands}
use bank_vaults.Operator.Fabricate.Etcd.Again.{CastLaws, stateful_set_for_vault-again}
use bank_vaults.Operator.Handle.Settled.{SetStands}
use bank_vaults.Operator.Handle.Calm.{place_same}

module _ {W Any : Type 0} (api : Cluster W Any) (lib : Library Any)
    (stands : W → Place → Option Object) (reg : Registry api stands) (laws : CastLaws lib.cast)
    (v : VaultCr Any) (t : String) (spec : WorkloadSpec)
    (made : (stateful_set_for_vault lib v t).0 ≡ ok (stateful_set (set_meta lib v) spec)) where
  abbrev v1 : VaultCr Any
  v1 = (stateful_set_for_vault lib v t).1

  made_again : (stateful_set_for_vault lib v1 t).0 ≡ ok (stateful_set (set_meta lib v) spec)
  made_again = ap (λ p. p.0) (stateful_set_for_vault-again lib laws t v _ made) ∙ made

  -- A set that was found is given the spec.
  replace-Ensures :
      (meta : ObjectMeta)
      → meta.namespace ≡ v.namespace
      → meta.name ≡ v.name
      → Gives
          (replace api lib v1 t meta (stateful_set (set_meta lib v) spec))
          (λ _ w. SetStands v.namespace v.name spec (stands w))
  unfolding replace ◌>>=◌
  replace-Ensures meta ns n = record {
    at = λ w a _ h. (
      meta,
      ns,
      n,
      sym (place_same api lib stands reg stateful_sets meta ns n _)
          ∙ reg.updates (stateful_set meta spec) w (
              wrapped-eq-ok (λ e. failed "update StatefulSet" (text e))
                (api.update (stateful_set meta spec) w).0 h),
    );
  }

  -- A set that is made has it.
  created :
      Gives
        (map_err
          (λ e. failed "create StatefulSet" (text e))
          (api.create (stateful_set (set_meta lib v) spec)))
        (λ _ w. SetStands v.namespace v.name spec (stands w))
  unfolding map_err
  created = record {
    at = λ w a _ h. (
      set_meta lib v,
      refl,
      refl,
      reg.creates _ w (
          wrapped-eq-ok (λ e. failed "create StatefulSet" (text e))
            (api.create (stateful_set (set_meta lib v) spec) w).0 h),
    );
  }

  found_set-Gives :
      (w0 : W) (r : Result ApiError (ObjectMeta × WorkloadSpec))
      → (api.get_stateful_set v.namespace v.name w0).0 ≡ r
      → Gives
          (found_set api lib v1 t (stateful_set (set_meta lib v) spec) r)
          (λ _ w. SetStands v.namespace v.name spec (stands w))
  unfolding found_set ◌>>=◌
  found_set-Gives w0 (ok (meta, x)) e =
      let (ns, n, x', held) = reg.gets_set v.namespace v.name meta x w0 e in
      rw made_again
        (record { at = (Gives-first _ _ (replace-Ensures meta ns n) (λ _. Keeps-pure _)).at })
  found_set-Gives w0 (err (absent m)) e = Gives-first _ _ created λ _. Keeps-pure _
  found_set-Gives w0 (err (already_exists m)) e = record { at = λ w a _ h. cc }
  found_set-Gives w0 (err (other m)) e = record { at = λ w a _ h. cc }
  found_set-Gives w0 (panic x) e = record { at = λ w a _ h. cc }

  pub ensure_stateful_set-Gives :
      Gives (ensure_stateful_set api lib v t) (λ _ w. SetStands v.namespace v.name spec (stands w))
  unfolding ensure_stateful_set ◌>>=◌
  ensure_stateful_set-Gives = rw made (record {
    at = λ w a _ h.
        (found_set-Gives w _ refl).at (api.get_stateful_set v.namespace v.name w).1 a tt h;
  })
