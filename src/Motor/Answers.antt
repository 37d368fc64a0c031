-- ===== src/Motor/Answers.antt =====
-- `get_motor_status` of `MotorController`, src/motor_controller.cpp, against an invariant of the link.
use joyson_glove_sdk.Prelude.{ℕ, ◌≡◌, refl, arith, not, Each, Option, none, some}
use joyson_glove_sdk.Prelude.Monad.{Checked, ok, Yields, out_of_bounds}
use joyson_glove_sdk.Prelude.State.{Returns, Returns-if, Returns-mono}
use joyson_glove_sdk.Protocol.Packet.{Packet}
use joyson_glove_sdk.Protocol.Codec.{encode_read_motor_status}
use joyson_glove_sdk.Protocol.Codec.Requests.{encode, read_motor_status}
use joyson_glove_sdk.Protocol.Parse.{MotorStatus, parse_motor_status}
use joyson_glove_sdk.Udp.Os.{Os}
use joyson_glove_sdk.Udp.Client.{Link}
use joyson_glove_sdk.Device.{Device, fetch}
use joyson_glove_sdk.Device.Keeps.{IsStable, IsSound, fetch-IsSound}
use joyson_glove_sdk.Motor.{MotorController, is_valid_motor_id, get_motor_status}
use joyson_glove_sdk.Protocol.Parse.Motor.{IsCut, parse_motor_status-out_of_bounds_iff}
use joyson_glove_sdk.Motor.Keeps.{encode-Yields}

parse_motor_status-Yields :
    (now : ℕ) (p : Packet) → ¬ (IsCut p) → Yields (parse_motor_status now p) (Each (λ _. Unit {0}))
parse_motor_status-Yields now p fine =
    by_result (parse_motor_status now p)
      (λ e. fine ((parse_motor_status-out_of_bounds_iff now p).0 e))
  where
    by_result :
        (r : Checked (Option MotorStatus)) → ¬ (r ≡ out_of_bounds) → Yields r (Each (λ _. Unit {0}))
    by_result (ok none) f = tt
    by_result (ok (some _)) f = tt
    by_result out_of_bounds f = absurd (f refl)

module _ {os : Os} {P : Link os → Type 0} {R : Packet → Type 0} (stable : IsStable P R)
    (whole : (p : Packet) → R p → ¬ (IsCut p)) where
  pub get_motor_status-IsSound :
      (Q : MotorController → Type 0) (motor_id : ℕ) (d : Device os MotorController)
      → IsSound P Q d
      → Returns (get_motor_status motor_id d) (λ _ t. IsSound P Q t)
  unfolding get_motor_status is_valid_motor_id encode
  get_motor_status-IsSound Q motor_id d h =
      Returns-if (not (is_valid_motor_id motor_id)) _ _ _ d (λ _. h)
        (λ i.
          Returns-mono (fetch (encode_read_motor_status motor_id) parse_motor_status d) _ _
            (fetch-IsSound Q stable (λ _. Unit {0}) (encode_read_motor_status motor_id)
              parse_motor_status d (encode-Yields (read_motor_status motor_id) (ground (arith, i)))
              (λ now p r. parse_motor_status-Yields now p (whole p r)) h)
            (λ _ t k. k.0))
