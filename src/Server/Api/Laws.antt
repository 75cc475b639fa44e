-- ===== src/Server/Api/Laws.antt =====
-- What a request without the key can do to the server.
use sand_box_rust.Base.{
  ℕ, ◌≡◌, ◌↔◌, ◌⊎◌, inl, inr, refl, ap, Bool, true, false, List, [], Option, none, some, if-cases,
  codes, Option-cases, Bool-cases,
}
use sand_box_rust.Server.Config.{Config, same_text}
use sand_box_rust.Server.Dependencies.{install_python_dependencies}
use sand_box_rust.Server.Process.{Outcome, done, failed}
use sand_box_rust.Server.Api.{
  Endpoint, health, run, get_dependencies, update_dependencies, Served, Outside, from_request,
  guarded, handler, serve, unauthorized, unsupported, update_result,
}

module _ (to_str : List ℕ → Option (List ℕ)) (ct_eq : List ℕ → List ℕ → Bool) where
  -- The header is there, is text, and is the configured key.
  abbrev pub HasKey : Config → Option (List ℕ) → Type 0
  HasKey c none = ⊥
  HasKey c (some value) = to_str value ≡ some c.app.key

  -- Served with the key, or refused without it and without any effect.
  abbrev pub Guarded : Config → Option (List ℕ) → Served → Type 0
  Guarded c header s =
      (HasKey c header × (s.status ≡ 200)) ⊎ ((¬ HasKey c header) × (s ≡ unauthorized))

  abbrev pub Serves : Bool → Config → Option (List ℕ) → Endpoint → Served → Type 0
  Serves api c header health s = (s.status ≡ 200) × (s.effects ≡ [])
  Serves api c header (run _) s = Guarded c header s
  Serves true c header _ s = Guarded c header s
  Serves false c header _ s = (s.status ≡ 404) × (s.effects ≡ [])

  module _ (ct_eq_lem : (a b : List ℕ) → (ct_eq a b ≡ true) ↔ (a ≡ b)) where
    differs : (a b : List ℕ) → ct_eq a b ≡ false → a ≡ b → ⊥
    differs a b other same = cc ((ct_eq_lem a b).1 same, other)

    pub from_request-HasKey :
        (c : Config) (header : Option (List ℕ))
        → ((key : List ℕ) × ((from_request to_str ct_eq c header ≡ some key) × HasKey c header))
          ⊎ ((from_request to_str ct_eq c header ≡ none) × (¬ HasKey c header))
    unfolding from_request
    from_request-HasKey c none = inr (refl, λ h. h)
    from_request-HasKey c (some value) = elim (Option-cases (to_str value)) [
      | inl e ↦ rw (e, from_request) (inr (refl, λ h. cc h))
      | inr (val, e) ↦ elim (Bool-cases (ct_eq val c.app.key)) [
        | inl same ↦
            rw (e, from_request, same)
              (inl (val, (refl, ap some ((ct_eq_lem val c.app.key).0 same))))
        | inr other ↦
            rw (e, from_request, other)
              (inr (refl, λ h. absurd (differs val c.app.key other (cc h))))
      ]
    ]

    guarded-Guarded :
        (c : Config) (header : Option (List ℕ)) (s : Served)
        → s.status ≡ 200
        → Guarded c header (guarded to_str ct_eq c header s)
    guarded-Guarded c header s h = elim (from_request-HasKey c header) [
      | inl (key, (e, has)) ↦ rw (e, guarded) (inl (has, h))
      | inr (e, hasnt) ↦ rw (e, guarded) (inr (hasnt, refl))
    ]

    update_result_200 : (r : Outcome) → (update_result to_str ct_eq r).status ≡ 200
    unfolding update_result
    update_result_200 done = refl
    update_result_200 (failed e) = refl

    handler_200 :
        (o : Outside) (c : Config) (e : Endpoint) → (handler to_str ct_eq o c e).status ≡ 200
    unfolding handler unsupported
    handler_200 o c health = refl
    handler_200 o c (run req) = refl
    handler_200 o c (get_dependencies none) = refl
    handler_200 o c (get_dependencies (some language)) =
        if-cases (λ (s : Served). s.status ≡ 200) (same_text language (codes "python3")) _ _
          (λ _. refl) (λ _. refl)
    handler_200 o c (update_dependencies language) =
        if-cases (λ (s : Served). s.status ≡ 200) (same_text language (codes "python3")) _ _
          (λ _. update_result_200 (install_python_dependencies o.pip c o.requirements)) (λ _. refl)

    -- If `ct_eq` tells whether two texts are equal: a request for anything but the server's health
    -- is served exactly if it has the configured key in its header, and else is refused with 401
    -- and makes the server do nothing; without the feature the dependencies' endpoints are not
    -- found; and a request for the health submits no job and starts no process.
    pub serve-Serves :
        (api : Bool) (o : Outside) (c : Config) (header : Option (List ℕ)) (e : Endpoint)
        → Serves api c header e (serve to_str ct_eq api o c header e)
    unfolding serve handler
    serve-Serves api o c header health = (refl, refl)
    serve-Serves api o c header (run req) = guarded-Guarded c header _ (handler_200 o c (run req))
    serve-Serves true o c header (get_dependencies q) =
        guarded-Guarded c header _ (handler_200 o c (get_dependencies q))
    serve-Serves true o c header (update_dependencies l) =
        guarded-Guarded c header _ (handler_200 o c (update_dependencies l))
    serve-Serves false o c header (get_dependencies q) = (refl, refl)
    serve-Serves false o c header (update_dependencies l) = (refl, refl)
