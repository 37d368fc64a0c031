-- ===== src/Sdk/Refinement/Threads.antt =====
-- `start` and `stop` of a `GloveSDK`, src/glove_sdk.cpp, against the machine of its phases.
use joyson_glove_sdk.Prelude.{ℕ, ◌≡◌, refl, sym, ap, ◌∙◌, subst, inl, inr, Bool, true, false, not}
use joyson_glove_sdk.Prelude.Float.{Float}
use joyson_glove_sdk.Prelude.State.{pure, Returns, Returns-if, Returns-mono}
use joyson_glove_sdk.Udp.Os.{Os}
use joyson_glove_sdk.Udp.Sockets.{SocketLaws}
use joyson_glove_sdk.Device.{UpdateThread, no_thread, returned}
use joyson_glove_sdk.Sdk
use joyson_glove_sdk.Sdk.{forward, ensure_initialized}
use joyson_glove_sdk.Sdk.Parts.{System}
use joyson_glove_sdk.Sdk.Lifecycle.{IsThread, IsIdle}
use joyson_glove_sdk.Sdk.Start.{start-IsReady}
use joyson_glove_sdk.Sdk.Calls.{starting, stopping}
use joyson_glove_sdk.Sdk.CallKeeps.{true_ne, IsReadyWith}
use joyson_glove_sdk.Sdk.Phases.{Phase, idle, ready, running, raised, Next, IsIn}
use joyson_glove_sdk.Sdk.Refinement.{Simulates, not_initialized, whole_with, phase_of}

module _ {os : Os} (F : Type 0) ⦃fl : Float F⦄ (laws : SocketLaws os) (others : ℕ → Bool) where
  start_ready :
      (s : System os F)
      → IsIn laws others ready s
      → Returns (Sdk.start s) (λ _ t. (q : Phase) × Next starting ready q × IsIn laws others q t)
  start_ready s h =
      Returns-mono (Sdk.start s) _ _
        (start-IsReady laws others s (
          whole_with F laws others IsThread s (λ t. t ≡ no_thread) h
            (subst IsThread (sym h.thread) (λ e. e))))
        (λ _ t k. let (q, i) = phase_of F laws others t (k.0) in (q, up q t i (k.1), i))
    where
      up :
          (q : Phase) (t : System os F)
          → IsIn laws others q t
          → t.sdk.thread.running ≡ true
          → Next starting ready q
      up running t i e = inl refl
      up raised t i e = inr refl
      up ready t i e = absurd (true_ne (sym e ∙ ap (λ x. x.running) i.thread))
      up idle t i e = absurd (true_ne (sym e ∙ ap (λ x. x.running) i.thread))

  start_again :
      (x : UpdateThread) (s : System os F)
      → x.running ≡ true
      → IsReadyWith laws others (λ t. t ≡ x) s
      → Returns (Sdk.start s) (λ _ t. IsReadyWith laws others (λ t. t ≡ x) t)
  unfolding Sdk.start ensure_initialized
  start_again x s e h =
      Returns-if (not s.sdk.initialized) (pure (returned tt)) _ _ s (λ _. h)
        (λ _.
          Returns-if s.sdk.thread.running (pure (returned tt)) _ _ s (λ _. h)
            (λ f. absurd (true_ne (sym e ∙ sym (ap (λ x. x.running) h.thread) ∙ f))))

  start-IsIdle :
      (s : System os F) → IsIdle laws others s → Returns (Sdk.start s) (λ _ t. IsIdle laws others t)
  unfolding Sdk.start ensure_initialized
  start-IsIdle s h =
      Returns-if (not s.sdk.initialized) (pure (returned tt)) _ _ s (λ _. h)
        (λ e. absurd (not_initialized F laws others s h e))

  pub start-Simulates : Simulates F laws others (Next starting) Sdk.start
  start-Simulates idle s h =
      Returns-mono (Sdk.start s) _ _ (start-IsIdle s h) (λ _ t k. (idle, refl, k))
  start-Simulates ready s h = start_ready s h
  start-Simulates running s h =
      Returns-mono (Sdk.start s) _ _ (start_again _ s refl h) (λ _ t k. (running, refl, k))
  start-Simulates raised s h =
      Returns-mono (Sdk.start s) _ _ (start_again _ s refl h) (λ _ t k. (raised, refl, k))

  stop_whole :
      (x : UpdateThread) (s : System os F)
      → IsThread x
      → IsReadyWith laws others (λ t. t ≡ x) s
      → (x.running ≡ false → x ≡ no_thread)
      → Returns (Sdk.stop s) (λ _ t. IsReadyWith laws others (λ t. t ≡ no_thread) t)
  unfolding Sdk.stop
  stop_whole x s k h n =
      Returns-if (not s.sdk.thread.running) (pure tt) _ _ s
        (λ e.
          whole_with F laws others (λ t. t ≡ no_thread) s (λ t. t ≡ x) h
            (h.thread ∙ n (sym (ap (λ x. x.running) h.thread) ∙ stopped s.sdk.thread.running e)))
        (λ _. record {
          initialized = h.initialized;
          thread = refl;
          client = h.client;
          motor = h.motor;
          encoder = h.encoder;
          imu = h.imu;
        })
    where
      stopped : (b : Bool) → not b ≡ true → b ≡ false
      stopped true e = sym e
      stopped false e = refl

  stop-IsIdle :
      (s : System os F) → IsIdle laws others s → Returns (Sdk.stop s) (λ _ t. IsIdle laws others t)
  unfolding Sdk.stop
  stop-IsIdle s h =
      Returns-if (not s.sdk.thread.running) (pure tt) _ _ s (λ _. h)
        (λ _. record {
          initialized = h.initialized;
          thread = refl;
          client = h.client;
          motor = h.motor;
          encoder = h.encoder;
          imu = h.imu;
          opened = h.opened;
        })

  pub stop-Simulates : Simulates F laws others (Next stopping) Sdk.stop
  stop-Simulates idle s h =
      Returns-mono (Sdk.stop s) _ _ (stop-IsIdle s h) (λ _ t k. (idle, refl, k))
  stop-Simulates ready s h =
      Returns-mono (Sdk.stop s) _ _ (stop_whole _ s (λ e. e) h (λ _. refl))
        (λ _ t k. (ready, refl, k))
  stop-Simulates running s h =
      Returns-mono (Sdk.stop s) _ _ (stop_whole _ s (λ e. e) h (λ e. absurd (true_ne e)))
        (λ _ t k. (ready, refl, k))
  stop-Simulates raised s h =
      Returns-mono (Sdk.stop s) _ _ (stop_whole _ s (λ e. refl) h (λ e. absurd (true_ne e)))
        (λ _ t k. (ready, refl, k))
