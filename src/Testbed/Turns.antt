-- ===== src/Testbed/Turns.antt =====
-- An example for the two threads of src/glove_sdk.cpp.
use joyson_glove_sdk.Prelude.{ℕ, ◌≡◌, refl, Bool, true, false, ◌||◌, ◌==◌, List, [], ◌∷◌, some}
use joyson_glove_sdk.Prelude.State.{Returns}
use joyson_glove_sdk.Device.{no_thread}
use joyson_glove_sdk.Sdk.Parts.{System, default_config}
use joyson_glove_sdk.Sdk.Lifecycle.{IsIdle}
use joyson_glove_sdk.Sdk.CallKeeps.{IsReadyWith}
use joyson_glove_sdk.Sdk.Phases.{running, thread_of}
use joyson_glove_sdk.Sdk.Loop.{motor_next}
use joyson_glove_sdk.Sdk.Turns.{
  loading, ended, calling, stopping_before, gone, thread_turn, begin_stop, begin_call, caller_turn,
  Turns, of_thread, of_caller, Reach, here, next,
}
use joyson_glove_sdk.Sdk.Turns.Safety.{InJoin, turns-Returns}
use joyson_glove_sdk.Sdk.Calls.{ApiCall, starting, stopping}
use joyson_glove_sdk.Testbed.{whole_numbers}
use joyson_glove_sdk.Testbed.Replies.{board_os, board_laws, board-NeverCuts}
use joyson_glove_sdk.Testbed.Runs.{test_link, test_motors, first_world}
use joyson_glove_sdk.Testbed.Parts.{
  test_encoder, test_encoder-IsSound, test_orientation, test_offsets,
}

abbrev running_system : System board_os ℕ
running_system = record {
  sdk = record {
    config = default_config;
    initialized = true;
    thread = record { running = true; joinable = true };
    udp_client = some test_link.client;
    motor_controller = some (record {
      object = record {
        config = record { auto_start_thread = false; update_interval = 100 };
        cached_status = test_motors.object.cached_status;
      };
      thread = no_thread;
    });
    encoder_reader = some (record { object = test_encoder.object; thread = no_thread });
    imu_reader = some (record {
      object = record {
        config = record { auto_start_thread = false; update_interval = 100 };
        cached_data = test_orientation;
        calibration = test_offsets;
      };
      thread = no_thread;
    });
  };
  world = record first_world { in_use = true; inbox = [] };
}

running_system-IsReadyWith :
    IsReadyWith ⦃fl = whole_numbers⦄ board_laws
      (λ _. false)
      (λ t. t ≡ thread_of running)
      running_system
unfolding board_laws
running_system-IsReadyWith = record {
  initialized = refl;
  thread = refl;
  client = record {
    connected = refl;
    owned = record { fresh = λ m o. refl; opened = λ m. same (3 == m) };
  };
  motor = record { object = record { same = refl; slots = refl }; thread = refl };
  encoder = record { object = test_encoder-IsSound.object; thread = refl };
  imu = record { object = record { same = refl }; thread = refl };
}
  where
    same : (b : Bool) → b ≡ (b || false)
    same true = refl
    same false = refl

abbrev test_calls : List ApiCall
test_calls = stopping ∷ starting ∷ []

abbrev first_turns : Turns board_os ℕ
first_turns = record {
  place = loading motor_next;
  stage = calling test_calls;
  system = running_system;
}

-- The flag is lowered, and the update thread sees it.
abbrev later_turns : Turns board_os ℕ
later_turns = record {
  place = ended;
  stage = stopping_before (starting ∷ []);
  system = record running_system {
    sdk = record running_system.sdk { thread = record { running = false; joinable = true } };
  };
}

two_turns : Reach ⦃fl = whole_numbers⦄ first_turns later_turns
unfolding caller_turn begin_call begin_stop thread_turn
two_turns =
    next (next here (of_caller later_turns.stage (loading motor_next) later_turns.system refl))
      (of_thread ended later_turns.system refl)

turns-Returns_example :
    Returns
      (thread_turn ⦃fl = whole_numbers⦄ later_turns.place later_turns.system)
      (λ place _. InJoin later_turns.stage → place ≡ ended)
    × Returns
        (caller_turn ⦃fl = whole_numbers⦄ later_turns.stage later_turns.place later_turns.system)
        (λ _ _. Unit {0})
    × (later_turns.stage ≡ gone
        → (later_turns.place ≡ ended)
          × IsIdle ⦃fl = whole_numbers⦄ board_laws (λ _. false) later_turns.system)
turns-Returns_example =
    turns-Returns ℕ ⦃fl = whole_numbers⦄ board_laws board-NeverCuts (λ _. false) running
      running_system (loading motor_next) test_calls running_system-IsReadyWith tt (tt, (tt, tt))
      later_turns two_turns
