-- ===== src/Sdk/Turns/Places.antt =====
-- Where the update thread of src/glove_sdk.cpp is in each phase, and behind a call that joins none.
use joyson_glove_sdk.Prelude.{◌≡◌, refl, sym, subst, if◌then◌else◌}
use joyson_glove_sdk.Device.{UpdateThread}
use joyson_glove_sdk.Sdk.Calls.{
  ApiCall, initializing, shutting_down, starting, stopping, setting_mode, setting_position,
  setting_force, setting_speed, setting_all_modes, setting_all_positions, setting_all_forces,
  reading_angles, reading_orientation, reading_statistics, resetting_statistics, calibrating,
  calibrating_encoders, calibrating_imu,
}
use joyson_glove_sdk.Sdk.Phases.{Phase, idle, ready, running, raised, Next, thread_of}
use joyson_glove_sdk.Sdk.Loop.{LoadOf}
use joyson_glove_sdk.Sdk.Turns.{Place, loading, ended, alive}

-- All calls but those that stop the update thread.
abbrev pub GoesOn : ApiCall → Type 0
GoesOn shutting_down = ⊥
GoesOn stopping = ⊥
GoesOn _ = Unit

pub GoesOn-running :
    (call : ApiCall) → GoesOn call → (q : Phase) → Next call running q → q ≡ running
GoesOn-running initializing g q n = n
GoesOn-running shutting_down g q n = absurd g
GoesOn-running starting g q n = n
GoesOn-running stopping g q n = absurd g
GoesOn-running (setting_mode id m) g q n = n
GoesOn-running (setting_position id p) g q n = n
GoesOn-running (setting_force id f) g q n = n
GoesOn-running (setting_speed id s p) g q n = n
GoesOn-running (setting_all_modes m) g q n = n
GoesOn-running (setting_all_positions positions) g q n = n
GoesOn-running (setting_all_forces forces) g q n = n
GoesOn-running reading_angles g q n = n
GoesOn-running reading_orientation g q n = n
GoesOn-running reading_statistics g q n = n
GoesOn-running resetting_statistics g q n = n
GoesOn-running calibrating g q n = n
GoesOn-running calibrating_encoders g q n = n
GoesOn-running calibrating_imu g q n = n

-- The update thread is there in the phase `running`, and only then.
abbrev pub IsAlive : Phase → Place → Type 0
IsAlive running (loading point) = Unit
IsAlive running ended = ⊥
IsAlive _ (loading point) = ⊥
IsAlive _ ended = Unit

pub IsAlive-running : (p : Phase) (point : LoadOf) → IsAlive p (loading point) → p ≡ running
IsAlive-running idle point a = absurd a
IsAlive-running ready point a = absurd a
IsAlive-running running point a = refl
IsAlive-running raised point a = absurd a

pub IsAlive-ended : (p : Phase) (place : Place) → IsAlive p place → ¬ (p ≡ running) → place ≡ ended
IsAlive-ended p (loading point) a n = absurd (n (IsAlive-running p point a))
IsAlive-ended p ended a n = refl

-- The place behind a call, which may have made the thread but stopped none.
pub IsAlive-alive :
    (p q : Phase) (place : Place) (x : UpdateThread)
    → x ≡ thread_of q
    → (p ≡ running → q ≡ running)
    → IsAlive p place
    → IsAlive q (if x.joinable then alive place else place)
IsAlive-alive p q place x e on a =
    subst (λ x. IsAlive q (if x.joinable then alive place else place)) (sym e)
      (by_phase q place on a)
  where
    by_phase :
        (q : Phase) (place : Place)
        → (p ≡ running → q ≡ running)
        → IsAlive p place
        → IsAlive q (if (thread_of q).joinable then alive place else place)
    by_phase running (loading point) on a = tt
    by_phase running ended on a = tt
    by_phase idle (loading point) on a =
        let e : idle ≡ running = on (IsAlive-running p point a) in cc
    by_phase idle ended on a = tt
    by_phase ready (loading point) on a =
        let e : ready ≡ running = on (IsAlive-running p point a) in cc
    by_phase ready ended on a = tt
    by_phase raised (loading point) on a =
        let e : raised ≡ running = on (IsAlive-running p point a) in cc
    by_phase raised ended on a = tt
