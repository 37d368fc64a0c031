-- ===== src/Device/Links.antt =====
-- What a call on the link of a part does to the part, for src/motor_controller.cpp,
-- src/encoder_reader.cpp and src/imu_reader.cpp.
use joyson_glove_sdk.Prelude.{ℕ, ◌≡◌, refl, sym, ◌∙◌, subst, Option, none, some, List}
use joyson_glove_sdk.Prelude.Monad.{Checked, ok, out_of_bounds}
use joyson_glove_sdk.Prelude.State.{State, pure, lift, ◌>>=◌, on_option, Returns}
use joyson_glove_sdk.Udp.Os.{Os}
use joyson_glove_sdk.Udp.Client.{Link}
use joyson_glove_sdk.Udp.Board.{Board, Waits}
use joyson_glove_sdk.Device.{Device, on_link, stamped, tick}

module _ {os : Os} {C : Type 0} where
  -- What stays of a device: all but its link.
  abbrev pub SameBut : Device os C → Device os C → Type 0
  SameBut d t = (t.object ≡ d.object) × (t.thread ≡ d.thread)

  pub on_link-Returns :
      {A : Type 0} (m : State (Link os) A) (X : A → Link os → Type 0) (d : Device os C)
      → Returns (m d.link) X
      → Returns (on_link m d) (λ a t. X a t.link × SameBut d t)
  on_link-Returns m X d h = by_result (m d.link) h
    where
      by_result :
          (r : Checked (_ × Link os))
          → Returns r X
          → Returns
              (elim r [ ok (a, l) ↦ ok (a, record d { link = l }) | out_of_bounds ↦ out_of_bounds ])
              (λ a t. X a t.link × SameBut d t)
      by_result (ok (a, l)) h = (h, (refl, refl))
      by_result out_of_bounds h = absurd h

module _ {os : Os} (board : Board os) where
  -- A parser that finds its value at any time returns what it finds at some time.
  pub stamped-Waits :
      {A : Type 0} (parse : ℕ → Checked (Option A))
      (found : (now : ℕ) → (a : A) × (parse now ≡ ok (some a))) (queue : List (List ℕ))
      (l : Link os)
      → Waits board queue l
      → Returns
          (stamped parse l)
          (λ value t. ((now : ℕ) × (value ≡ some ((found now).0))) × Waits board queue t)
  unfolding stamped
  stamped-Waits {A = A} parse found queue l h =
      subst
        (λ r.
          Returns ((lift r >>= on_option (pure none) (λ a. tick >>= λ _. pure (some a))) l)
            (λ value t. ((now : ℕ) × (value ≡ some ((found now).0))) × Waits board queue t))
        (sym ((found now).1))
        (
          (now, refl),
          record {
            connected = h.connected;
            waiting = board.steady_now-waiting l.world ∙ h.waiting;
          },
        )
    where
      now : ℕ
      now = (os.steady_now l.world).0
