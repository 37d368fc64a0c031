-- ===== src/Examples/Steps.antt =====
-- The steps that the programs in examples/ share, on a whole `GloveSDK`.
use joyson_glove_sdk.Prelude.{
  ℕ, ◌≡◌, refl, ◌⊎◌, inl, inr, Bool, true, false, not, ◌||◌, is_some, if◌then◌else◌,
}
use joyson_glove_sdk.Prelude.Float.{Float}
use joyson_glove_sdk.Prelude.Monad.{Checked, Yields}
use joyson_glove_sdk.Prelude.State.{
  State, pure, lift, ◌>>=◌, Returns, Returns->>=, Returns-if, Returns-lift,
}
use joyson_glove_sdk.Udp.Os.{Os}
use joyson_glove_sdk.Udp.Client.{Link, get_statistics, no_statistics}
use joyson_glove_sdk.Udp.Sockets.{SocketLaws, IsValid}
use joyson_glove_sdk.Device.{UpdateThread, Outcome, returned, threw}
use joyson_glove_sdk.Sdk
use joyson_glove_sdk.Sdk.Parts.{GloveConfig, System, glove_sdk, on_world}
use joyson_glove_sdk.Sdk.Stable.{sockets_stable}
use joyson_glove_sdk.Sdk.States.{in_world-IsBuilt}
use joyson_glove_sdk.Sdk.Lifecycle.{IsIdle, IsReady, IsThread, all_parts}
use joyson_glove_sdk.Sdk.Initialize.{Initializes, initialize-Initializes}
use joyson_glove_sdk.Sdk.Shutdown.{shutdown-IsIdle}
use joyson_glove_sdk.Sdk.Phases.{idle, IsLive}
use joyson_glove_sdk.Sdk.CallKeeps.{IsReadyWith, KeepsReady, client-KeepsReady}
use joyson_glove_sdk.Sdk.Refinement.{shutdown-Idles}
use joyson_glove_sdk.Sdk.Histories.{new-IsIdle}
use joyson_glove_sdk.Examples.{or_fail, or_exit, sleep, leave, run_main}

module _ {os : Os} (F : Type 0) ⦃fl : Float F⦄ (laws : SocketLaws os) (others : ℕ → Bool) where
  -- The body of a program left it: with an exit code and nothing or everything there, or by an exception.
  abbrev pub Ends : Outcome ℕ → System os F → Type 0
  Ends (returned code) t = ((code ≡ 0) ⊎ (code ≡ 1)) × IsLive laws others t
  Ends threw t = IsReady laws others t

  -- The program ended: with an exit code, nothing there and no descriptor open that was not open
  -- before, or by an exception.
  abbrev pub Exits : Outcome ℕ → System os F → Type 0
  Exits (returned code) t = ((code ≡ 0) ⊎ (code ≡ 1)) × IsIdle laws others t
  Exits threw t = IsReady laws others t

  -- A computation on a whole system that leaves it whole, with the same thread.
  abbrev pub KeepsWhole : {A : Type 0} → State (System os F) A → Type 1
  KeepsWhole m = KeepsReady laws others m

  pub then-Ends :
      {A : Type 0} (m : State (System os F) A) (rest : A → State (System os F) (Outcome ℕ))
      (s : System os F)
      → KeepsWhole m
      → IsReady laws others s
      → ((a : A) (t : System os F) → IsReady laws others t → Returns (rest a t) Ends)
      → Returns ((m >>= rest) s) Ends
  then-Ends m rest s k h r =
      Returns->>= m rest (λ _ t. IsReady laws others t) Ends s (k IsThread s h) r

  pub or_fail-Ends :
      (rest : State (System os F) (Outcome ℕ)) (done : Bool) (s : System os F)
      → IsReady laws others s
      → Returns (rest s) Ends
      → Returns (or_fail rest done s) Ends
  or_fail-Ends rest done s h r =
      Returns-if (not done) (pure (returned 1)) rest Ends s (λ _. (inr refl, inr h)) (λ _. r)

  -- A program that initializes its SDK first.
  pub initialize-Ends :
      (rest : State (System os F) (Outcome ℕ)) (s : System os F)
      → IsIdle laws others s
      → ((t : System os F) → IsReady laws others t → Returns (rest t) Ends)
      → Returns ((Sdk.initialize >>= or_exit rest) s) Ends
  initialize-Ends rest s h r =
      Returns->>= Sdk.initialize (or_exit rest) _ Ends s (initialize-Initializes laws others s h)
        by_result
    where
      by_result :
          (o : Outcome Bool) (t : System os F)
          → Initializes laws others o t
          → Returns (or_exit rest o t) Ends
      by_result (returned true) t k = r t k
      by_result (returned false) t k = (inr refl, inl k)
      by_result threw t k = k.0

  -- The explicit end of a program.
  pub shutdown-Ends :
      (s : System os F)
      → IsReady laws others s
      → Returns ((Sdk.shutdown >>= λ _. pure (returned 0)) s) Ends
  shutdown-Ends s h =
      Returns->>= Sdk.shutdown _ _ Ends s (shutdown-IsIdle laws others s h)
        (λ _ t k. (inl refl, inl k))

  destroyed :
      (s : System os F)
      → IsLive laws others s
      → Returns (Sdk.shutdown s) (λ _ t. IsIdle laws others t)
  destroyed s (inl h) = shutdown-Idles F laws others idle s h
  destroyed s (inr h) = shutdown-IsIdle laws others s h

  pub leave-Exits : (o : Outcome ℕ) (s : System os F) → Ends o s → Returns (leave o s) Exits
  leave-Exits (returned code) s h =
      Returns->>= Sdk.shutdown _ _ Exits s (destroyed s (h.1)) (λ _ t k. (h.0, k))
  leave-Exits threw s h = h

module _ {os : Os} (F : Type 0) ⦃fl : Float F⦄ (laws : SocketLaws os) where
  pub run_main-Exits :
      (config : GloveConfig) (body : State (System os F) (Outcome ℕ)) (w : os.World)
      → ((s : System os F)
          → IsIdle laws (laws.opened w) s
          → Returns (body s) (Ends F laws (laws.opened w)))
      → Returns (run_main config body w) (Exits F laws (laws.opened w))
  unfolding run_main
  run_main-Exits config body w h =
      Returns->>= body leave _ _ (record { sdk = glove_sdk config; world = w })
        (h _ (new-IsIdle F laws config w)) (λ o t k. leave-Exits F laws (laws.opened w) o t k)

module _ {os : Os} (F : Type 0) ⦃fl : Float F⦄ (laws : SocketLaws os) (others : ℕ → Bool) where
  -- A call of the system that moves no descriptor.
  pub on_world-KeepsWhole :
      {A : Type 0} (call : os.World → A × os.World)
      → ((l : Link os)
          → IsValid laws others l
          → IsValid laws others (record l { world = (call l.world).1 }))
      → KeepsWhole F laws others (on_world call)
  on_world-KeepsWhole call k T s h =
      in_world-IsBuilt (IsValid laws others) true T (all_parts F) s ((call s.world).1)
        (λ c p. k (record { client = c; world = s.world }) p) h

  pub sleep-KeepsWhole : (nanoseconds : ℕ) → KeepsWhole F laws others (sleep nanoseconds)
  sleep-KeepsWhole nanoseconds =
      on_world-KeepsWhole (λ w. (tt, os.sleep_for nanoseconds w))
        ((sockets_stable laws others).sleep nanoseconds)

  pub steady_now-KeepsWhole : KeepsWhole F laws others (on_world os.steady_now)
  steady_now-KeepsWhole = on_world-KeepsWhole os.steady_now (sockets_stable laws others).tick

  pub seq-KeepsWhole :
      {A B : Type 0} (m : State (System os F) A) (rest : A → State (System os F) B)
      → KeepsWhole F laws others m
      → ((a : A) → KeepsWhole F laws others (rest a))
      → KeepsWhole F laws others (m >>= rest)
  seq-KeepsWhole m rest k r T s h =
      Returns->>= m rest (λ _ t. IsReadyWith laws others T t) _ s (k T s h) (λ a t i. r a T t i)

  pub if-KeepsWhole :
      {A : Type 0} (c : Bool) (m n : State (System os F) A)
      → KeepsWhole F laws others m
      → KeepsWhole F laws others n
      → KeepsWhole F laws others (if c then m else n)
  if-KeepsWhole c m n k l T s h = Returns-if c m n _ s (λ _. k T s h) (λ _. l T s h)

  pub statistics-KeepsWhole : KeepsWhole F laws others Sdk.get_network_statistics
  unfolding Sdk.get_network_statistics get_statistics
  statistics-KeepsWhole T s h =
      Returns-if (not s.sdk.initialized || not (is_some s.sdk.udp_client)) (pure no_statistics) _ _
        s (λ _. h) (λ _. client-KeepsReady laws others get_statistics (λ l v. v) T s h)

  -- The same with something that is known of the result.
  abbrev pub Gives : {A : Type 0} → (A → Type 0) → State (System os F) A → Type 1
  Gives X m =
      (T : UpdateThread → Type 0) (s : System os F)
      → IsReadyWith laws others T s
      → Returns (m s) (λ a t. IsReadyWith laws others T t × X a)

  pub then-KeepsWhole :
      {A B : Type 0} (m : State (System os F) A) (X : A → Type 0) (rest : A → State (System os F) B)
      → Gives X m
      → ((a : A) → X a → KeepsWhole F laws others (rest a))
      → KeepsWhole F laws others (m >>= rest)
  then-KeepsWhole m X rest k r T s h =
      Returns->>= m rest (λ a t. IsReadyWith laws others T t × X a) _ s (k T s h)
        (λ a t i. r a (i.1) T t (i.0))

  pub lift-Gives : {A : Type 0} (r : Checked A) (X : A → Type 0) → Yields r X → Gives X (lift r)
  lift-Gives r X y T s h =
      Returns-lift r X (λ a t. IsReadyWith laws others T t × X a) s y (λ a x. (h, x))
