-- ===== src/Contrib/Services.antt =====
-- A service is one object.
use py_qgis_wps.Prelude.{
  ◌≡◌, ◌≢◌, refl, sym, ◌∙◌, subst, inl, inr, String, Option, none, some, List, [], ◌∷◌, lookup,
  insert, lookup-insert, str_dec, Option-cases, if_pos, if_neg,
}
use py_qgis_wps.Exceptions.{Result, ok, raise, ok-eq}
use py_qgis_wps.Exec.{Exec}
use py_qgis_wps.Contrib.{
  Creator, FactoryEntry, Components, registered, null_factory, register_factory, register_service,
  call_factory, create_instance, keep_service, get_service,
}

module _ {F A W : Type 0} (call : F → Exec (Components F A W) (Option A)) where
  -- The object is the service of the contract id.
  pub record Serves (contract_id : String) (object : A) (s : Components F A W) : Type 0 where
    pub entry : FactoryEntry F A
    pub there : lookup str_dec contract_id s.contract_ids ≡ some entry
    pub service : entry.service ≡ some object

  -- A service that is there is handed out, and nothing changes.
  pub get_service-Serves :
      (contract_id : String) (object : A) (s : Components F A W)
      → Serves contract_id object s
      → get_service call contract_id s ≡ (ok (some object), s)
  unfolding get_service
  get_service-Serves contract_id object s h = rw (h.there, h.service, get_service) refl

  keep_service-Serves :
      (contract_id : String) (fe : FactoryEntry F A) (object : A)
      (x : Result (Option A) × Components F A W)
      → (keep_service call contract_id fe x).0 ≡ ok (some object)
      → Serves contract_id object (keep_service call contract_id fe x).1
  unfolding keep_service
  keep_service-Serves contract_id fe object (raise e, s) h = absurd (cc (h))
  keep_service-Serves contract_id fe object (ok made, s) h = record {
    entry = record fe { service = made };
    there =
        lookup-insert str_dec contract_id contract_id (record fe { service = made }) s.contract_ids
        ∙ if_pos (str_dec contract_id contract_id) refl _ _;
    service = ok-eq h;
  }

  -- Once an object is handed out, it is the service.
  pub got-Serves :
      (contract_id : String) (object : A) (s : Components F A W)
      → (get_service call contract_id s).0 ≡ ok (some object)
      → Serves contract_id object (get_service call contract_id s).1
  unfolding get_service
  got-Serves contract_id object s h =
      elim (Option-cases (lookup str_dec contract_id s.contract_ids)) [
        | inl missing ↦ absurd (cc (rw (missing, get_service) at h))
        | inr (fe, there) ↦ elim (Option-cases fe.service) [
          | inr (o, old) ↦
              let same = ok-eq (rw (there, old, get_service) at h) in
              rw (there, old, get_service)
                (record { entry = fe; there = there; service = old ∙ same })
          | inl new ↦
              rw (there, new, get_service)
                (keep_service-Serves contract_id fe object (call_factory call fe.create_instance s)
                  (rw (there, new, get_service) at h))
        ]
      ]

  -- What a client of the manager does with the other contract ids.
  pub data Use : Type 0 where
    get : String → Use
    create : String → Use
    factory : String → Option F → Use
    service : String → Option A → Use

  unfoldable pub use_it : Use → Components F A W → Components F A W
  use_it (get id) s = (get_service call id s).1
  use_it (create id) s = (create_instance call id s).1
  use_it (factory id f) s = (register_factory id f s).1
  use_it (service id a) s = (register_service id a s).1

  unfoldable pub use_all : List Use → Components F A W → Components F A W
  use_all [] s = s
  use_all (u ∷ us) s = use_all us (use_it u s)

  -- The contract id is not registered again.
  abbrev pub Leaves : String → List Use → Type 0
  Leaves id [] = Unit
  Leaves id (get j ∷ us) = Leaves id us
  Leaves id (create j ∷ us) = Leaves id us
  Leaves id (factory j f ∷ us) = (j ≢ id) × Leaves id us
  Leaves id (service j a ∷ us) = (j ≢ id) × Leaves id us

  insert-Serves :
      (id j : String) (object : A) (fe : FactoryEntry F A) (s : Components F A W)
      → j ≢ id
      → Serves id object s
      → Serves id object (record s { contract_ids = insert str_dec j fe s.contract_ids })
  insert-Serves id j object fe s other h = record {
    entry = h.entry;
    there =
        lookup-insert str_dec j id fe s.contract_ids ∙ if_neg (str_dec j id) other _ _ ∙ h.there;
    service = h.service;
  }

  module _ (id : String) (object : A)
      (keeps : (f : F) (s : Components F A W)
        → Serves id object s
        → Serves id object (call f s).1) where
    call_factory-Serves :
        (f : Creator F) (s : Components F A W)
        → Serves id object s
        → Serves id object (call_factory call f s).1
    unfolding call_factory
    call_factory-Serves (registered f) s h = keeps f s h
    call_factory-Serves null_factory s h = h

    keep_service_other :
        (j : String) (fe : FactoryEntry F A) (x : Result (Option A) × Components F A W)
        → j ≢ id
        → Serves id object x.1
        → Serves id object (keep_service call j fe x).1
    unfolding keep_service
    keep_service_other j fe (raise e, s) other h = h
    keep_service_other j fe (ok made, s) other h =
        insert-Serves id j object (record fe { service = made }) s other h

    get_service_other :
        (j : String) (s : Components F A W)
        → j ≢ id
        → Serves id object s
        → Serves id object (get_service call j s).1
    unfolding get_service
    get_service_other j s other h = elim (Option-cases (lookup str_dec j s.contract_ids)) [
      | inl missing ↦ rw (missing, get_service) h
      | inr (fe, there) ↦ elim (Option-cases fe.service) [
        | inr (o, old) ↦ rw (there, old, get_service) h
        | inl new ↦
            rw (there, new, get_service)
              (keep_service_other j fe (call_factory call fe.create_instance s) other
                (call_factory-Serves fe.create_instance s h))
      ]
    ]

    create_instance-Serves :
        (j : String) (s : Components F A W)
        → Serves id object s
        → Serves id object (create_instance call j s).1
    unfolding create_instance
    create_instance-Serves j s h = elim (Option-cases (lookup str_dec j s.contract_ids)) [
      | inl missing ↦ rw (missing, create_instance) h
      | inr (fe, there) ↦ rw (there, create_instance) (call_factory-Serves fe.create_instance s h)
    ]

    use_it-Serves :
        (u : Use) (us : List Use) (s : Components F A W)
        → Leaves id (u ∷ us)
        → Serves id object s
        → Serves id object (use_it u s)
    unfolding use_it register_factory register_service
    use_it-Serves (get j) us s l h = elim (str_dec j id) [
      | yes same ↦
          subst (λ q. Serves id object (get_service call q s).1) (sym same)
            (subst (λ x. Serves id object x.1) (sym (get_service-Serves id object s h)) h)
      | no other ↦ get_service_other j s other h
    ]
    use_it-Serves (create j) us s l h = create_instance-Serves j s h
    use_it-Serves (factory j none) us s l h = h
    use_it-Serves (factory j (some f)) us s l h = insert-Serves id j object _ s l.0 h
    use_it-Serves (service j a) us s l h = insert-Serves id j object _ s l.0 h

    Leaves-rest : (u : Use) (us : List Use) → Leaves id (u ∷ us) → Leaves id us
    Leaves-rest (get j) us l = l
    Leaves-rest (create j) us l = l
    Leaves-rest (factory j f) us l = l.1
    Leaves-rest (service j a) us l = l.1

    use_all-Serves :
        (us : List Use) (s : Components F A W)
        → Leaves id us
        → Serves id object s
        → Serves id object (use_all us s)
    unfolding use_all
    use_all-Serves [] s l h = h
    use_all-Serves (u ∷ us) s l h =
        use_all-Serves us (use_it u s) (Leaves-rest u us l) (use_it-Serves u us s l h)

    -- Where the factories leave a service that is there, an object that was handed out for a
    -- contract id is the one that is handed out after any use of the manager that does not
    -- register the id again, without a factory being called.
    pub get_service-use_all :
        (us : List Use) (s : Components F A W)
        → Leaves id us
        → (get_service call id s).0 ≡ ok (some object)
        → get_service call id (use_all us (get_service call id s).1)
          ≡ (ok (some object), use_all us (get_service call id s).1)
    get_service-use_all us s l got =
        get_service-Serves id object (use_all us (get_service call id s).1)
          (use_all-Serves us (get_service call id s).1 l (got-Serves id object s got))
