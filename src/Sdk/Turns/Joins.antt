-- ===== src/Sdk/Turns/Joins.antt =====
-- `stop` and `shutdown` of src/glove_sdk.cpp on both sides of their join.
use joyson_glove_sdk.Prelude.{
  ℕ, ◌≡◌, refl, sym, subst, Bool, true, false, not, List, [], ◌∷◌, if◌then◌else◌,
}
use joyson_glove_sdk.Prelude.Float.{Float}
use joyson_glove_sdk.Prelude.State.{pure, ◌>>=◌, ◌>>◌, Returns}
use joyson_glove_sdk.Udp.Os.{Os}
use joyson_glove_sdk.Udp.Sockets.{SocketLaws}
use joyson_glove_sdk.Device.{UpdateThread, no_thread}
use joyson_glove_sdk.Sdk
use joyson_glove_sdk.Sdk.{cleanup_resources, ensure_initialized}
use joyson_glove_sdk.Sdk.Parts.{System, on_sdk}
use joyson_glove_sdk.Sdk.States.{IsSoundMotor, IsSoundEncoder, IsSoundImu}
use joyson_glove_sdk.Sdk.Lifecycle.{IsIdle, all_parts, cleanup_resources-IsIdle}
use joyson_glove_sdk.Sdk.Creation.{Has-Each}
use joyson_glove_sdk.Sdk.Initialize.{some-of}
use joyson_glove_sdk.Sdk.Calls.{ApiCall, stopping}
use joyson_glove_sdk.Sdk.CallKeeps.{IsReadyWith}
use joyson_glove_sdk.Sdk.Phases.{Phase, idle, ready, running, raised, IsIn, thread_of}
use joyson_glove_sdk.Sdk.Turns.{
  ended, calling, gone, begin_stop, finish_shutdown, shut, begin_call, caller_turn,
}

-- Where the update thread is at its end, the two turns of a `stop` are `stop`.
stop_turns-stop :
    {os : Os} {F : Type 0} ⦃fl : Float F⦄ (s : System os F) (calls : List ApiCall)
    → let t : System os F = record s {
      sdk = record s.sdk { thread = record { running = true; joinable = true } };
    } in
      (caller_turn (calling (stopping ∷ calls)) ended >>= λ (stage, place). caller_turn stage place)
        t
      ≡ (Sdk.stop >>= λ _. pure (calling calls, ended)) t
unfolding caller_turn begin_call begin_stop Sdk.stop
stop_turns-stop s calls = refl

-- So are those of the destructor.
destroy_turns-shutdown :
    {os : Os} {F : Type 0} ⦃fl : Float F⦄ (s : System os F)
    → let t : System os F = record s {
      sdk = record s.sdk {
        initialized = true;
        thread = record { running = true; joinable = true };
      };
    } in
      (caller_turn (calling []) ended >>= λ (stage, place). caller_turn stage place) t
      ≡ (Sdk.shutdown >>= λ _. pure (gone, ended)) t
unfolding caller_turn shut begin_stop finish_shutdown Sdk.shutdown ensure_initialized Sdk.stop
destroy_turns-shutdown s = refl

-- The phase behind a `stop` that need not join.
abbrev pub stopped : Phase → Phase
stopped idle = idle
stopped _ = ready

module _ {os : Os} (F : Type 0) ⦃fl : Float F⦄ (laws : SocketLaws os) (others : ℕ → Bool) where
  -- The thread of a phase.
  pub IsIn-thread :
      (p : Phase) (s : System os F) → IsIn laws others p s → s.sdk.thread ≡ thread_of p
  IsIn-thread idle s h = h.thread
  IsIn-thread ready s h = h.thread
  IsIn-thread running s h = h.thread
  IsIn-thread raised s h = h.thread

  -- Everything is there, and the flag is down while the thread is still joinable.
  abbrev pub IsJoining : System os F → Type 0
  IsJoining = IsReadyWith laws others (λ t. t ≡ record { running = false; joinable = true })

  -- A join waits for the thread of the phase `running`.
  abbrev pub Halts : Phase → Bool → System os F → Type 0
  Halts p true t = (p ≡ running) × IsJoining t
  Halts p false t = ¬ (p ≡ running) × IsIn laws others (stopped p) t

  with_thread :
      {T : UpdateThread → Type 0} (s : System os F) (x : UpdateThread)
      → IsReadyWith laws others T s
      → IsReadyWith laws others (λ t. t ≡ x) (record s { sdk = record s.sdk { thread = x } })
  with_thread s x h = record {
    initialized = h.initialized;
    thread = refl;
    client = h.client;
    motor = h.motor;
    encoder = h.encoder;
    imu = h.imu;
  }

  pub begin_stop-Halts :
      (p : Phase) (s : System os F)
      → IsIn laws others p s
      → Returns (begin_stop s) (λ waits t. Halts p waits t)
  unfolding begin_stop
  begin_stop-Halts p s h =
      subst
        (λ x.
          Returns
            ((if not x.running
                then pure false
                else (on_sdk (λ k. record k { thread = record x { running = false } })
                    >> pure x.joinable))
              s)
            (λ waits t. Halts p waits t))
        (sym (IsIn-thread p s h)) (by_phase p h)
    where
      by_phase :
          (p : Phase)
          → IsIn laws others p s
          → let x : UpdateThread = thread_of p in
            Returns
              ((if not x.running
                  then pure false
                  else (on_sdk (λ k. record k { thread = record x { running = false } })
                      >> pure x.joinable))
                s)
              (λ waits t. Halts p waits t)
      by_phase idle h = ((λ e. cc), h)
      by_phase ready h = ((λ e. cc), h)
      by_phase running h = (refl, with_thread s (record { running = false; joinable = true }) h)
      by_phase raised h = ((λ e. cc), with_thread s no_thread h)

  -- Behind the join nothing is left.
  pub finish_shutdown-IsIdle :
      (s : System os F)
      → IsIn laws others ready s
      → Returns (finish_shutdown s) (λ _ t. IsIdle laws others t)
  unfolding finish_shutdown
  finish_shutdown-IsIdle s h =
      cleanup_resources-IsIdle laws others (record s { sdk = record s.sdk { initialized = false } })
        (some-of laws others (all_parts F) (record s { sdk = record s.sdk { initialized = false } })
          (λ o. Has-Each IsSoundMotor o) (λ o. Has-Each IsSoundEncoder o)
          (λ o. Has-Each IsSoundImu o)
          (record {
            initialized = refl;
            thread = h.thread;
            client = h.client;
            motor = h.motor;
            encoder = h.encoder;
            imu = h.imu;
          }))

  pub joined :
      (s : System os F)
      → IsJoining s
      → IsIn laws others ready (record s { sdk = record s.sdk { thread = no_thread } })
  joined s h = with_thread s no_thread h
