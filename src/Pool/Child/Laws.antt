-- ===== src/Pool/Child/Laws.antt =====
-- A forked child runs the submitted code, confined, or no code.
use sand_box_rust.Base.{
  ℕ, ◌≡◌, ◌≢◌, ◌⊎◌, inl, inr, refl, sym, ap, ◌∙◌, Bool, true, false, List, [], ◌∷◌, Option, none,
  some, if◌then◌else◌, ℤ, pos, int_eq, int_eq→eq, subst, length, All, if-cases, Bool-cases,
}
use sand_box_rust.Server.Crypto.{encrypt_code, generate_key}
use sand_box_rust.Seccomp.Init.{Kernel, init_run, init_seccomp}
use sand_box_rust.Seccomp.Landlock.{Crate, apply_landlock}
use sand_box_rust.Zygote.Manager.{SandboxLimits}
use sand_box_rust.Pool.Cipher.Digits.{IsBytes}
use sand_box_rust.Pool.Cipher.Laws.{encrypt_code-xor}
use sand_box_rust.Pool.Child.{
  xor_decoded, Req, End, Act, landlock, seccomp, exec, Child, refused, then_act, exits, exit_of,
  c_bool, array, is_zero, exec_code, decrypted, child_exec,
}

-- What the server's payload is for the child.
abbrev pub req_of : List ℕ → List ℕ → SandboxLimits → Req
req_of code key l = record {
  uid = some l.uid;
  gid = some l.gid;
  net = some l.net;
  max_as = some l.max_as;
  privilege = some l.privilege;
  allowed_paths = some l.allowed_paths;
  code = some code;
  key = some key;
}

abbrev IsCode : Act → Type 0
IsCode (exec code) = Unit
IsCode (landlock paths) = ⊥
IsCode (seccomp calls) = ⊥

module _ {Ruleset : Type 0} (crate : Crate Ruleset) (k : Kernel)
    (b64decode : List ℕ → Option (List ℕ)) (compiles : List ℕ → Bool) (run : List ℕ → End)
    (lib_dir : List ℕ) where
  abbrev init_code : SandboxLimits → ℤ
  init_code l = init_seccomp k l.uid l.gid (c_bool l.net) l.max_as (c_bool l.privilege)

  abbrev landlock_code : SandboxLimits → Option ℤ
  landlock_code l = apply_landlock crate (some (array l.allowed_paths))

  abbrev calls : SandboxLimits → Act
  calls l = seccomp (init_run k l.uid l.gid (c_bool l.net) l.max_as (c_bool l.privilege)).trace

  -- The sandbox is complete, and then the code runs.
  abbrev Ran : SandboxLimits → List ℕ → Child → Type 0
  Ran l code child =
      (init_code l ≡ pos 0)
      × (child.exit ≡ exit_of (run code))
      × (((l.privilege ≡ true) × (child.acts ≡ calls l ∷ exec code ∷ []))
          ⊎ ((l.privilege ≡ false)
              × (landlock_code l ≡ some (pos 0))
              × (child.acts ≡ landlock l.allowed_paths ∷ calls l ∷ exec code ∷ [])))

  -- A step failed, and no code runs.
  abbrev Failed : Bool → SandboxLimits → List ℕ → Type 0
  Failed redirected l code =
      (redirected ≡ false)
      ⊎ ((init_code l ≢ pos 0)
          ⊎ (((l.privilege ≡ false) × (landlock_code l ≢ some (pos 0))) ⊎ (compiles code ≡ false)))

  abbrev Stopped : Child → Type 0
  Stopped child = (child.exit ≡ exits (pos 1)) × All (λ a. ¬ IsCode a) child.acts

  abbrev pub Runs : Bool → SandboxLimits → List ℕ → Child → Type 0
  Runs redirected l code child = Ran l code child ⊎ (Stopped child × Failed redirected l code)

  is_zero-false : (rc : Option ℤ) → is_zero rc ≡ false → rc ≢ some (pos 0)
  is_zero-false rc h e = let g : true ≡ false = ap is_zero (sym e) ∙ h in cc

  is_zero-true : (rc : Option ℤ) → is_zero rc ≡ true → rc ≡ some (pos 0)
  is_zero-true none h = cc
  is_zero-true (some rc) h = ap some (int_eq→eq rc (pos 0) h)

  int_eq-false : (rc : ℤ) → int_eq rc (pos 0) ≡ false → rc ≢ pos 0
  int_eq-false rc h e = is_zero-false (some rc) h (ap some e)

  abbrev code_part : List ℕ → Child
  code_part code =
      if compiles code then record { acts = exec code ∷ []; exit = exit_of (run code) } else refused

  abbrev confined : SandboxLimits → List ℕ → Child
  confined l code = then_act (calls l) (int_eq (init_code l) (pos 0)) (code_part code)

  confined-Runs :
      (l : SandboxLimits) (code : List ℕ) → l.privilege ≡ true → Runs true l code (confined l code)
  confined-Runs l code e =
      if-cases (Runs true l code) (int_eq (init_code l) (pos 0)) _ _
        (λ sandboxed_. elim (Bool-cases (compiles code)) [
          | inl c ↦ rw (c) (inl (int_eq→eq _ _ sandboxed_, refl, inl (e, refl)))
          | inr c ↦ rw (c) (inr ((refl, ((λ h. h), tt)), inr (inr (inr refl))))
        ])
        (λ unsafe. inr ((refl, ((λ h. h), tt)), inr (inl (int_eq-false _ unsafe))))

  landlocked-Runs :
      (l : SandboxLimits) (code : List ℕ)
      → l.privilege ≡ false
      → Runs true l code
          (then_act (landlock l.allowed_paths) (is_zero (landlock_code l)) (confined l code))
  landlocked-Runs l code e =
      let first = landlock l.allowed_paths in
      let behind : Child → Type 0 =
        λ rest. Runs true l code (record { acts = first ∷ rest.acts; exit = rest.exit }) in
      if-cases (Runs true l code) (is_zero (landlock_code l)) _ _
        (λ locked.
          if-cases behind (int_eq (init_code l) (pos 0)) _ _
            (λ sandboxed_. elim (Bool-cases (compiles code)) [
              | inl c ↦ rw (c) (
                  inl (
                    int_eq→eq _ _ sandboxed_,
                    refl,
                    inr (e, is_zero-true (landlock_code l) locked, refl),
                  ))
              | inr c ↦ rw (c) (inr ((refl, ((λ h. h), ((λ h. h), tt))), inr (inr (inr refl))))
            ])
            (λ unsafe. inr ((refl, ((λ h. h), ((λ h. h), tt))), inr (inl (int_eq-false _ unsafe)))))
        (λ unlocked.
          inr
            ((refl, ((λ h. h), tt)), inr (inr (inl (e, is_zero-false (landlock_code l) unlocked)))))

  -- Whatever the child's code: when the request's text and key decrypt to it, the child either has
  -- started the sandbox with the request's limits, under Landlock if it is not privileged, with
  -- every step reporting success, and then has run exactly that code and ends as the code does; or a
  -- step has failed, and the child has run nothing and exits with 1.
  pub child_exec-Runs :
      (redirected : Bool) (l : SandboxLimits) (code text key : List ℕ)
      → decrypted crate k b64decode compiles run lib_dir (some text) (some key) ≡ some code
      → Runs redirected l code
          (child_exec crate k b64decode compiles run lib_dir redirected (req_of text key l))
  unfolding child_exec
  child_exec-Runs false l code text key e = inr ((refl, tt), inl refl)
  child_exec-Runs true l code text key e =
      let inside : Option (List ℕ) → Child = λ o.
        then_act (calls l) (int_eq (init_code l) (pos 0))
          (exec_code crate k b64decode compiles run lib_dir o) in
      let whole : Option (List ℕ) → Child = λ o.
        if l.privilege
        then inside o
        else then_act (landlock l.allowed_paths) (is_zero (landlock_code l)) (inside o) in
      subst (λ o. Runs true l code (whole o)) (sym e)
        (if-cases (Runs true l code) l.privilege _ _ (confined-Runs l code)
          (landlocked-Runs l code))

-- With a generator that fills as many entries as it is given, with bytes, and an engine whose
-- `decode` undoes its `encode`: for every submitted code of bytes, whatever the kernel, the landlock
-- crate and the compiler answer, the server's encryption under a key of 64 bytes succeeds, and
-- the child that is given the text and the encoded key, with the request's limits, either starts the
-- sandbox with these limits, under Landlock if it is not privileged, with every step reporting
-- success, and then runs exactly the submitted code and ends as the code does; or a step fails, and
-- the child runs nothing and exits with 1.
pub encrypt_code-child_exec :
    {Ruleset : Type 0} (crate : Crate Ruleset) (k : Kernel) (fill_bytes encode : List ℕ → List ℕ)
    (decode : List ℕ → Option (List ℕ)) (compiles : List ℕ → Bool) (run : List ℕ → End)
    (lib_dir : List ℕ) (redirected : Bool) (l : SandboxLimits) (code : List ℕ)
    → ((bs : List ℕ) → length (fill_bytes bs) ≡ length bs)
    → ((bs : List ℕ) → IsBytes (fill_bytes bs))
    → ((bs : List ℕ) → decode (encode bs) ≡ some bs)
    → IsBytes code
    → let key = generate_key fill_bytes 64 in
      (text : List ℕ) × (encrypt_code encode code key ≡ some text)
      × Runs crate k decode compiles run lib_dir redirected l code
          (child_exec crate k decode compiles run lib_dir redirected (req_of text (encode key) l))
encrypt_code-child_exec crate k fill_bytes encode decode compiles run lib_dir redirected l code
      keeps fills back h =
    let key = generate_key fill_bytes 64 in
    let (text, cipher, e_text, e_cipher, e_code, _) =
      encrypt_code-xor fill_bytes encode decode code keeps fills back h in
    (
      text,
      e_text,
      child_exec-Runs crate k decode compiles run lib_dir redirected l code text (encode key) (
          ap (λ o. xor_decoded crate k decode compiles run lib_dir o (decode (encode key))) e_cipher
          ∙ ap (xor_decoded crate k decode compiles run lib_dir (some cipher)) (back key)
          ∙ e_code),
    )
