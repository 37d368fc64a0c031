-- ===== src/Device/Rounds.antt =====
-- The loops of the update threads of src/motor_controller.cpp, src/encoder_reader.cpp and
-- src/imu_reader.cpp, over an update that keeps an invariant.
use joyson_glove_sdk.Prelude.{
  ℕ, ◌+◌, ◌-◌, ◌*◌, ◌^◌, ◌<◌, ◌≡◌, refl, sym, subst, tests, Bool, true, false, List, [], ◌∷◌, ltb,
  if◌then◌else◌,
}
use joyson_glove_sdk.Prelude.Monad.{ok}
use joyson_glove_sdk.Prelude.State.{State, lift, ◌>>=◌, Returns, Returns->>=}
use joyson_glove_sdk.Udp.Os.{Os}
use joyson_glove_sdk.Udp.Client.{Link}
use joyson_glove_sdk.Device.{Device}
use joyson_glove_sdk.Device.Keeps.{IsTimed}
use joyson_glove_sdk.Device.Loop.{sleep_rest, count_failures, round}

-- How many rounds the loads of the flag allow.
abbrev pub rounds : List Bool → ℕ
rounds [] = 0
rounds (false ∷ _) = 0
rounds (true ∷ loads) = rounds loads + 1

abbrev pub checked_rounds : List Bool → ℕ
checked_rounds [] = 0
checked_rounds (false ∷ _) = 0
checked_rounds (true ∷ []) = 0
checked_rounds (true ∷ false ∷ _) = 0
checked_rounds (true ∷ true ∷ loads) = checked_rounds loads + 1

-- The failures that are counted behind a round.
abbrev pub after_round : Bool → ℕ → ℕ
after_round true before = 0
after_round false before = before + 1

count_failures-eq-ok :
    (success : Bool) (before : ℕ)
    → before + 1 < 2 ^ 31
    → count_failures success before ≡ ok (after_round success before)
count_failures-eq-ok true before h = refl
count_failures-eq-ok false before h =
    let e : ltb (before + 1) (2 ^ 31) ≡ true = omega (tests, h) in rw e

-- A round behind which the counter fits.
pub Returns-count_failures :
    {S A : Type 0} (success : Bool) (before : ℕ) (rest : ℕ → State S A) (Q : A → S → Type 0) (s : S)
    → before + 1 < 2 ^ 31
    → Returns (rest (after_round success before) s) Q
    → Returns ((lift (count_failures success before) >>= rest) s) Q
Returns-count_failures success before rest Q s fits h =
    subst (λ r. Returns ((lift r >>= rest) s) Q) (sym (count_failures-eq-ok success before fits)) h

-- The device when its clock was read.
abbrev pub ticked : {os : Os} {C : Type 0} → Device os C → Device os C
ticked {os} d = record d { link = record d.link { world = (os.steady_now d.link.world).1 } }

module _ {os : Os} {C : Type 0} (interval : C → ℕ) (update_once : State (Device os C) Bool) where
  -- Rounds in a row that take the one device to the other, with what their updates returned. Behind
  -- the last one, the clock may have been read.
  pub data Ran : Device os C → List Bool → Device os C → Type 0 where
    over : (d : Device os C) → Ran d [] d
    left : (d : Device os C) → Ran d [] (ticked d)
    ran :
        (d t u : Device os C) (success : Bool) (results : List Bool)
        → round interval update_once d ≡ ok (success, t)
        → Ran t results u
        → Ran d (success ∷ results) u

module _ {os : Os} {P : Link os → Type 0} (timed : IsTimed P) where
  -- Also for the loop of `GloveSDK`.
  pub sleep_rest-keeps :
      (least interval started : ℕ) (l : Link os)
      → P l
      → P (record l { world = (sleep_rest os least interval started l.world).1 })
  unfolding sleep_rest
  sleep_rest-keeps least interval started l p =
      by_test (ltb ((os.steady_now l.world).0 + least) (interval * 10 ^ 6 + started))
    where
      awake : P (record l { world = (os.steady_now l.world).1 })
      awake = timed.tick l p

      left : ℕ
      left = interval * 10 ^ 6 + started - (os.steady_now l.world).0

      after : Bool → Unit {0} × os.World
      after b =
          if b
          then (tt, os.sleep_for left ((os.steady_now l.world).1))
          else (tt, (os.steady_now l.world).1)

      by_test : (b : Bool) → P (record l { world = (after b).1 })
      by_test true = timed.sleep _ _ awake
      by_test false = awake

  -- A round, where its update keeps `P` and establishes `Y`.
  pub round-keeps :
      {C : Type 0} (interval : C → ℕ) (update_once : State (Device os C) Bool)
      (Y : Bool → C → Type 0) (d : Device os C)
      → P d.link
      → ((l : Link os)
          → P l
          → Returns (update_once (record d { link = l })) (λ done t. P t.link × Y done t.object))
      → Returns (round interval update_once d) (λ done t. P t.link × Y done t.object)
  unfolding round
  round-keeps interval update_once Y d p once =
      Returns->>= update_once _ (λ done t. P t.link × Y done t.object) _
        (record d { link = record d.link { world = (os.steady_now d.link.world).1 } })
        (once _ (timed.tick d.link p))
        (λ done t k. (
          sleep_rest-keeps 0 (interval t.object) ((os.steady_now d.link.world).0) t.link (k.0),
          k.1,
        ))
