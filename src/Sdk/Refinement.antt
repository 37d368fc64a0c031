-- ===== src/Sdk/Refinement.antt =====
-- Every call of a `GloveSDK`, src/glove_sdk.cpp, is a step of the phases.
pub mod Threads
use joyson_glove_sdk.Prelude.{
  ℕ, ◌≡◌, refl, sym, ap, ◌∙◌, subst, ◌⊎◌, inl, inr, Bool, true, false, not,
}
use joyson_glove_sdk.Prelude.Float.{Float}
use joyson_glove_sdk.Prelude.State.{State, pure, Returns, Returns->>=, Returns-if, Returns-mono}
use joyson_glove_sdk.Udp.Os.{Os}
use joyson_glove_sdk.Udp.Sockets.{SocketLaws}
use joyson_glove_sdk.Device.{UpdateThread, no_thread, Outcome, returned, threw}
use joyson_glove_sdk.Sdk
use joyson_glove_sdk.Sdk.{forward, ensure_initialized}
use joyson_glove_sdk.Sdk.Parts.{System}
use joyson_glove_sdk.Sdk.Lifecycle.{IsThread, IsIdle, IsReady}
use joyson_glove_sdk.Sdk.Initialize.{Initializes, initialize-Initializes}
use joyson_glove_sdk.Sdk.Start.{start-IsReady}
use joyson_glove_sdk.Sdk.Shutdown.{shutdown-IsIdle}
use joyson_glove_sdk.Sdk.Calls.{initializing, starting, stopping, dropping}
use joyson_glove_sdk.Sdk.CallKeeps.{true_ne, IsReadyWith, KeepsReady}
use joyson_glove_sdk.Sdk.Phases.{Phase, Stays, idle, ready, running, raised, Next, thread_of, IsIn}

module _ {os : Os} (F : Type 0) ⦃fl : Float F⦄ (laws : SocketLaws os) (others : ℕ → Bool) where
  -- Where a computation that begins in a phase ends.
  abbrev pub Simulates : {A : Type 0} → (Phase → Phase → Type 0) → State (System os F) A → Type 0
  Simulates next m =
      (p : Phase) (s : System os F)
      → IsIn laws others p s
      → Returns (m s) (λ _ t. (q : Phase) × next p q × IsIn laws others q t)

  -- What keeps an idle system idle, and a whole one whole with the same thread, stays in its phase.
  pub Simulates-by :
      {A : Type 0} (m : State (System os F) A)
      → ((s : System os F) → IsIdle laws others s → Returns (m s) (λ _ t. IsIdle laws others t))
      → KeepsReady laws others m
      → Simulates Stays m
  Simulates-by m i k idle s h = Returns-mono (m s) _ _ (i s h) (λ _ t r. (idle, refl, r))
  Simulates-by m i k ready s h = Returns-mono (m s) _ _ (k _ s h) (λ _ t r. (ready, refl, r))
  Simulates-by m i k running s h = Returns-mono (m s) _ _ (k _ s h) (λ _ t r. (running, refl, r))
  Simulates-by m i k raised s h = Returns-mono (m s) _ _ (k _ s h) (λ _ t r. (raised, refl, r))

  pub not_initialized : (s : System os F) → IsIdle laws others s → ¬ (not s.sdk.initialized ≡ false)
  not_initialized s h e = true_ne (sym (ap not h.initialized) ∙ e)

  pub forward-Simulates :
      {A : Type 0} (a : A) (m : State (System os F) A)
      → KeepsReady laws others m
      → Simulates Stays (forward a m)
  unfolding forward ensure_initialized
  forward-Simulates a m k =
      Simulates-by (forward a m)
        (λ s h.
          Returns-if (not s.sdk.initialized) (pure a) m _ s (λ _. h)
            (λ e. absurd (not_initialized s h e)))
        (λ T s h. Returns-if (not s.sdk.initialized) (pure a) m _ s (λ _. h) (λ _. k T s h))

  pub dropping-Simulates :
      {A : Type 0} (next : Phase → Phase → Type 0) (m : State (System os F) A)
      → Simulates next m
      → Simulates next (dropping m)
  dropping-Simulates next m k p s h =
      Returns->>= m _ (λ _ t. (q : Phase) × next p q × IsIn laws others q t) _ s (k p s h)
        (λ _ t r. r)

  -- What is known of the thread of a whole system may be exchanged.
  pub whole_with :
      (T : UpdateThread → Type 0) (t : System os F) (U : UpdateThread → Type 0)
      → IsReadyWith laws others U t
      → T t.sdk.thread
      → IsReadyWith laws others T t
  whole_with T t U h k = record {
    initialized = h.initialized;
    thread = k;
    client = h.client;
    motor = h.motor;
    encoder = h.encoder;
    imu = h.imu;
  }

  -- The phase of a system that is whole.
  pub phase_of : (t : System os F) → IsReady laws others t → (q : Phase) × IsIn laws others q t
  phase_of t h = by_thread t.sdk.thread.running t.sdk.thread.joinable refl refl
    where
      by_thread :
          (r j : Bool)
          → t.sdk.thread.running ≡ r
          → t.sdk.thread.joinable ≡ j
          → (q : Phase) × IsIn laws others q t
      by_thread false false e f =
          (ready, whole_with _ t _ h (λ i. record { running = e i; joinable = f i }))
      by_thread true true e f =
          (running, whole_with _ t _ h (λ i. record { running = e i; joinable = f i }))
      by_thread true false e f =
          (raised, whole_with _ t _ h (λ i. record { running = e i; joinable = f i }))
      by_thread false true e f = absurd (true_ne (sym (h.thread f) ∙ e))

  -- A phase is idle or the system is whole in it.
  pub IsIn-cases :
      (p : Phase) (s : System os F)
      → IsIn laws others p s
      → (IsIdle laws others s × (p ≡ idle)) ⊎ IsReady laws others s
  IsIn-cases idle s h = inl (h, refl)
  IsIn-cases ready s h =
      inr (whole_with IsThread s (λ t. t ≡ no_thread) h (subst IsThread (sym h.thread) (λ e. e)))
  IsIn-cases running s h = inr (
      whole_with IsThread s (λ t. t ≡ thread_of running) h (subst IsThread (sym h.thread) (λ e. e)))
  IsIn-cases raised s h = inr (
      whole_with IsThread s (λ t. t ≡ thread_of raised) h
        (subst IsThread (sym h.thread) (λ e. refl)))

  -- Once it is initialized, a system stays as it is under `initialize`.
  pub initialized_already :
      (T : UpdateThread → Type 0) (s : System os F)
      → IsReadyWith laws others T s
      → Returns (Sdk.initialize s) (λ _ t. IsReadyWith laws others T t)
  unfolding Sdk.initialize
  initialized_already T s h =
      Returns-if s.sdk.initialized (pure (returned true)) _ _ s (λ _. h)
        (λ e. absurd (true_ne (sym h.initialized ∙ e)))

  pub initialize-Simulates : Simulates (Next initializing) Sdk.initialize
  initialize-Simulates idle s h =
      Returns-mono (Sdk.initialize s) _ _ (initialize-Initializes laws others s h) reached
    where
      from_whole :
          (t : System os F) → IsReady laws others t → (q : Phase) × Unit {0} × IsIn laws others q t
      from_whole t k = let (q, i) = phase_of t k in (q, tt, i)

      reached :
          (r : Outcome Bool) (t : System os F)
          → Initializes laws others r t
          → (q : Phase) × Unit {0} × IsIn laws others q t
      reached (returned true) t k = from_whole t k
      reached (returned false) t k = (idle, tt, k)
      reached threw t k = from_whole t (k.0)
  initialize-Simulates ready s h =
      Returns-mono (Sdk.initialize s) _ _ (initialized_already _ s h) (λ _ t k. (ready, refl, k))
  initialize-Simulates running s h =
      Returns-mono (Sdk.initialize s) _ _ (initialized_already _ s h) (λ _ t k. (running, refl, k))
  initialize-Simulates raised s h =
      Returns-mono (Sdk.initialize s) _ _ (initialized_already _ s h) (λ _ t k. (raised, refl, k))

  -- Where nothing is there, `shutdown` leaves it so.
  shutdown-IsIdle_of_IsIdle :
      (s : System os F)
      → IsIdle laws others s
      → Returns (Sdk.shutdown s) (λ _ t. IsIdle laws others t)
  unfolding Sdk.shutdown ensure_initialized
  shutdown-IsIdle_of_IsIdle s h =
      Returns-if (not s.sdk.initialized) (pure tt) _ _ s (λ _. h)
        (λ e. absurd (not_initialized s h e))

  pub shutdown-Idles :
      (p : Phase) (s : System os F)
      → IsIn laws others p s
      → Returns (Sdk.shutdown s) (λ _ t. IsIdle laws others t)
  shutdown-Idles p s h = elim (IsIn-cases p s h) [
    | inl i ↦ shutdown-IsIdle_of_IsIdle s (i.0)
    | inr k ↦ shutdown-IsIdle laws others s k
  ]
