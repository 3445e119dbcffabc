-- ===== src/Runner/Execute/Spawned.antt =====
-- The driver processes of a run of an accepted scenario.
use client_rust_test.Base.{
  ◌≡◌, inl, inr, refl, sym, ◌∙◌, Option, none, some, List, [], ◌∷◌, map, Bool, true, false, not,
  Bool-cases, Bytes, bytes_eq, bytes_eq→eq, text, All,
}
use mathlib.Core.Path.{subst}
use mathlib.Core.Bool.{true≢false}
use client_rust_test.Base.Map.{Map, get, insert, get-insert_self, get-insert_ne}
use client_rust_test.Base.Result.{Result, ok, err, Call, lift, Outcome, Ensures, bind-Ensures}
use client_rust_test.Base.Check.{ok_or, forbid, map_err}
use client_rust_test.Proto.Trace.{RoleBinding}
use client_rust_test.Proto.Command.{Command}
use client_rust_test.Runner.Scenario.{Run, is_driver}
use client_rust_test.Runner.Process.{
  Environment, RunnerError, protocol_version, Driver, send_to, spawn, relabel,
}
use client_rust_test.Runner.Execute.{Binaries, binary_of, spawn_roles, bindings}

-- The errors of the processes that the runner talks to.
abbrev pub IsOutside : RunnerError → Type 0
IsOutside (RunnerError.process name message) = Unit
IsOutside (RunnerError.no_hello name) = Unit
IsOutside (RunnerError.drifted name theirs) = Unit
IsOutside (RunnerError.no_observation step) = Unit
IsOutside _ = ⊥

abbrev pub Has : {V : Type 0} → Map V → Bytes → Type 0
Has {V} m r = (v : V) × (get r m ≡ some v)

pub Has-insert : {V : Type 0} (m : Map V) (k r : Bytes) (v : V) → Has m r → Has (insert k v m) r
Has-insert m k r v (u, e) = elim (Bool-cases (bytes_eq k r)) [
  | inl y ↦
      (v, subst (λ j. get j (insert k v m) ≡ some v) (bytes_eq→eq k r y) (get-insert_self k v m))
  | inr n ↦ (u, get-insert_ne r k v m n ∙ e)
]

pub ensure_some :
    {W A : Type 0} (o : Option A) (e : RunnerError) (a : A)
    → o ≡ some a
    → Ensures {W = W} (λ x. x ≡ a) IsOutside (lift (ok_or o e))
ensure_some none e a h w = absurd (cc)
ensure_some (some x) e a h w = cc

pub ensure-IsOutside :
    {W A : Type 0} (o : Option A) (e : RunnerError)
    → IsOutside e
    → Ensures {W = W} (λ x. Unit {0}) IsOutside (lift (ok_or o e))
ensure-IsOutside none e h w = h
ensure-IsOutside (some x) e h w = tt

pub ensure_process :
    {W A : Type 0} (name : Bytes) (m : Call W Bytes A)
    → Ensures (λ x. Unit {0}) IsOutside (relabel (RunnerError.process name) m)
ensure_process {W} {A} name m w = go (m w).0
  where
    go :
        (r : Result Bytes A)
        → Outcome (λ x. Unit {0}) IsOutside (map_err (RunnerError.process name) r)
    go (ok a) = tt
    go (err e) = tt

pub ensure_forbid :
    {W : Type 0} (b : Bool) (e : RunnerError)
    → IsOutside e
    → Ensures {W = W} (λ x. Unit {0}) IsOutside (lift (forbid b e))
ensure_forbid true e h w = h
ensure_forbid false e h w = tt

pub Ensures-mono :
    {W E A : Type 0} (P R : A → Type 0) (Q : E → Type 0) (m : Call W E A)
    → Ensures P Q m
    → ((a : A) → P a → R a)
    → Ensures R Q m
Ensures-mono {W} {E} {A} P R Q m h f w = go (m w).0 (h w)
  where
    go : (r : Result E A) → Outcome P Q r → Outcome R Q r
    go (ok a) p = f a p
    go (err e) q = q

module _ (env : Environment) where
  pub spawn-IsOutside :
      (name : Bytes) (binary : env.Binary)
      → Ensures (λ d. Unit {0}) IsOutside (spawn env name binary)
  unfolding spawn send_to
  spawn-IsOutside name binary =
      bind-Ensures (λ x. Unit {0}) (λ d. Unit {0}) IsOutside
        (relabel (RunnerError.process name) (env.start binary)) _
        (ensure_process name (env.start binary))
        (λ child p.
          bind-Ensures (λ x. Unit {0}) (λ d. Unit {0}) IsOutside
            (send_to env name child Command.hello) _
            (ensure_process name (env.exchange child Command.hello))
            (λ resp q.
              bind-Ensures (λ x. Unit {0}) (λ d. Unit {0}) IsOutside
                (lift (ok_or resp.hello (RunnerError.no_hello name))) _
                (ensure-IsOutside resp.hello (RunnerError.no_hello name) tt)
                (λ hello r.
                  bind-Ensures (λ x. Unit {0}) (λ d. Unit {0}) IsOutside
                    (lift (
                      forbid (not (bytes_eq hello.protocol protocol_version))
                        (RunnerError.drifted name hello.protocol)))
                    _ (ensure_forbid _ (RunnerError.drifted name hello.protocol) tt)
                    (λ u s w. tt))))

  pub binary_ok :
      (bins : Binaries env) (d : Bytes)
      → is_driver d ≡ true
      → (b : env.Binary) × (binary_of env bins d ≡ ok b)
  unfolding binary_of
  binary_ok bins d h = elim (Bool-cases (bytes_eq d (text "rust"))) [
    | inl y ↦ (bins.rust, rw y refl)
    | inr n ↦ elim (Bool-cases (bytes_eq d (text "go"))) [
      | inl y ↦ (bins.go, rw (n, y) refl)
      | inr m ↦ absurd (true≢false (sym h ∙ rw (n, m) refl))
    ]
  ]

  abbrev pub Bound : Run → List Bytes → Type 0
  Bound run = All (λ role. (d : Bytes) × (get role run.bind ≡ some d) × (is_driver d ≡ true))

  pub ensure_binary :
      (bins : Binaries env) (d : Bytes)
      → is_driver d ≡ true
      → Ensures {W = env.World} (λ x. Unit {0}) IsOutside (lift (binary_of env bins d))
  ensure_binary bins d h w =
      let (b, e) = binary_ok bins d h in subst (λ r. Outcome (λ x. Unit {0}) IsOutside r) (sym e) tt

  -- A driver for each role, and for each that had one.
  abbrev pub Kept : Map (Driver env) → List Bytes → Map (Driver env) → Type 0
  Kept drivers roles m = ((r : Bytes) → Has drivers r → Has m r) × All (Has m) roles

  pub spawn_all :
      (run : Run) (bins : Binaries env) (roles : List Bytes) (drivers : Map (Driver env))
      → Bound run roles
      → Ensures (Kept drivers roles) IsOutside (spawn_roles env run bins roles drivers)
  unfolding spawn_roles
  spawn_all run bins [] drivers h = λ w. (λ r p. p, tt)
  spawn_all run bins (role ∷ roles) drivers ((d, found, known), h) =
      bind-Ensures (λ x. x ≡ d) (Kept drivers (role ∷ roles)) IsOutside
        (lift (ok_or (get role run.bind) (RunnerError.unbound_role run.name role))) _
        (ensure_some (get role run.bind) _ d found)
        (λ driver_name same.
          bind-Ensures (λ x. Unit {0}) (Kept drivers (role ∷ roles)) IsOutside
            (lift (binary_of env bins driver_name)) _
            (ensure_binary bins driver_name (rw same known))
            (λ bin p.
              bind-Ensures (λ x. Unit {0}) (Kept drivers (role ∷ roles)) IsOutside
                (spawn env driver_name bin) _ (spawn-IsOutside driver_name bin)
                (λ child q.
                  Ensures-mono (Kept (insert role child drivers) roles)
                    (Kept drivers (role ∷ roles)) IsOutside
                    (spawn_roles env run bins roles (insert role child drivers))
                    (spawn_all run bins roles (insert role child drivers) h)
                    (λ m (keeps, rest). (
                      λ r has. keeps r (Has-insert drivers role r child has),
                      (keeps role (child, get-insert_self role child drivers), rest),
                    )))))

  pub bindings_ok :
      (drivers : Map (Driver env)) (roles : List Bytes)
      → All (Has drivers) roles
      → (bound : List RoleBinding) × (bindings env drivers roles ≡ ok bound)
        × (map (λ (b : RoleBinding). b.role) bound ≡ roles)
  unfolding bindings
  bindings_ok drivers [] h = ([], refl, refl)
  bindings_ok drivers (r ∷ roles) ((d, e), h) =
      let (later, q, named) = bindings_ok drivers roles h in
      (
        record { role = r; driver = d.hello.driver; hello = d.hello } ∷ later,
        rw (e, q) refl,
        rw named refl,
      )
