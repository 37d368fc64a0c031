-- ===== src/Motor/Slots.antt =====
-- The slots of the cache of `MotorController`, src/motor_controller.cpp, one after the other.
use joyson_glove_sdk.Prelude.{
  ℕ, suc, ◌+◌, ◌-◌, ◌≤◌, ◌<◌, ◌≡◌, refl, ap, ◌∙◌, arith, List, [], ◌∷◌, ◌++◌, map, length, set,
  take, get_elem?, length-map, map-set, take-set,
}
use joyson_glove_sdk.Prelude.Monad.{in_bounds, Total-Yields, in_bounds-get_elem?}
use joyson_glove_sdk.Prelude.State.{lift, Returns, Returns->>=, Returns-lift}
use joyson_glove_sdk.Protocol.Parse.{MotorStatus}
use joyson_glove_sdk.Udp.Os.{Os}
use joyson_glove_sdk.Device.{Device}
use joyson_glove_sdk.Motor.{MotorController, cached, set_cached}
use joyson_glove_sdk.Motor.Reports.{timeless}

abbrev pub timeless_cache : MotorController → List MotorStatus
timeless_cache c = map timeless c.cached_status

module _ {os : Os} where
  pub set_cached_lem :
      (motor_id : ℕ) (s : MotorStatus) (d : Device os MotorController)
      → motor_id - 1 < length d.object.cached_status
      → Returns (set_cached motor_id s d) (λ _ t. t ≡ record d {
        object = record d.object { cached_status = set d.object.cached_status (motor_id - 1) s };
      })
  unfolding set_cached cached
  set_cached_lem motor_id s d h =
      Returns->>= (lift (in_bounds (get_elem? d.object.cached_status (motor_id - 1)))) _
        (λ _ t. t ≡ d) _ d
        (Returns-lift (in_bounds (get_elem? d.object.cached_status (motor_id - 1))) _ _ d
          (Total-Yields _ (in_bounds-get_elem? d.object.cached_status (motor_id - 1) h))
          (λ _ _. refl))
        (λ _ t e.
          ap {A = Device os MotorController} {B = Device os MotorController}
            (λ t. record t {
              object = record t.object {
                cached_status = set t.object.cached_status (motor_id - 1) s;
              };
            })
            e)

-- The prefix of a cache that ends with the slot that was set.
pub prefix_after_set :
    {os : Os} (motor_id : ℕ) (x s : MotorStatus) (d t u : Device os MotorController)
    → 1 ≤ motor_id
    → motor_id ≤ 6
    → length d.object.cached_status ≡ 6
    → t.object ≡ d.object
    → timeless x ≡ timeless s
    → u ≡ record t {
      object = record t.object { cached_status = set t.object.cached_status (motor_id - 1) x };
    }
    → take (motor_id + 1 - 1) (timeless_cache u.object)
      ≡ take (motor_id - 1) (timeless_cache d.object) ++ timeless s ∷ []
prefix_after_set motor_id x s d t u low high slots o same f =
    let next : motor_id + 1 - 1 ≡ suc (motor_id - 1) = omega (arith, low) in
    let bound : motor_id - 1 < length (timeless_cache t.object) = omega (
      arith,
      length-map {0, 0} timeless t.object.cached_status,
      slots,
      high,
      ap (λ c. length c.cached_status) o,
    ) in
    ap (λ u. take (motor_id + 1 - 1) (timeless_cache u.object)) f
    ∙ ap (λ l. take (motor_id + 1 - 1) l) (map-set timeless t.object.cached_status (motor_id - 1) x)
    ∙ ap (λ n. take n (set (timeless_cache t.object) (motor_id - 1) (timeless x))) next
    ∙ take-set (timeless_cache t.object) (motor_id - 1) (timeless x) bound
    ∙ ap (λ y. take (motor_id - 1) (timeless_cache t.object) ++ y ∷ []) same
    ∙ ap (λ c. take (motor_id - 1) (timeless_cache c) ++ timeless s ∷ []) o
