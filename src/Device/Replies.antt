-- ===== src/Device/Replies.antt =====
-- The requests that src/motor_controller.cpp, src/encoder_reader.cpp and src/imu_reader.cpp make, with
-- a board that answers every request of `ProtocolCodec`.
use joyson_glove_sdk.Prelude.{
  ℕ, ◌≡◌, refl, sym, ap, ◌∙◌, subst, Bool, true, false, not, is_some, Option, none, some, [], ◌∷◌,
}
use joyson_glove_sdk.Prelude.Float.{Float}
use joyson_glove_sdk.Prelude.Monad.{Checked, ok}
use joyson_glove_sdk.Prelude.State.{
  pure, ◌>>=◌, ◌>>◌, gets, on_option, Returns, Returns->>=, Returns-if, Returns-mono,
}
use joyson_glove_sdk.Protocol.Packet.{Packet}
use joyson_glove_sdk.Protocol.Codec.Requests.{
  Request, encode, IsTyped, wire, encode-Sends, read_all_encoders, read_imu,
}
use joyson_glove_sdk.Protocol.Parse.{EncoderData, ImuData, parse_encoder_data, parse_imu_data}
use joyson_glove_sdk.Udp.Os.{Os}
use joyson_glove_sdk.Udp.Client.{send_and_receive}
use joyson_glove_sdk.Udp.Board.{Board, Waits, Holds, send_and_receive-Waits}
use joyson_glove_sdk.Device.{
  Device, returned, on_object, finish_initialize, on_link, ask, order, fetch, stamped,
}
use joyson_glove_sdk.Device.Links.{SameBut, on_link-Returns, stamped-Waits}

-- The packets that the board answers; those for the sensors hold readings.
pub record Replies {os : Os} (F : Type 0) ⦃fl : Float F⦄ (board : Board os) : Type 0 where
  pub packet : Request → Packet
  pub holds : (r : Request) → IsTyped r → Holds board (board.answer (wire r)) (packet r)
  pub encoders :
      (now : ℕ)
      → (reading : EncoderData) × (parse_encoder_data now (packet read_all_encoders)
          ≡ ok (some reading))
  pub orientation :
      (now : ℕ) → (reading : ImuData F) × (parse_imu_data now (packet read_imu) ≡ ok (some reading))

module _ {os : Os} {F : Type 0} ⦃fl : Float F⦄ {board : Board os} (replies : Replies F board)
    {C : Type 0} where
  -- A connected client with nothing in its socket, in a device that is otherwise as it was.
  abbrev pub IsServed : Device os C → Device os C → Type 0
  IsServed d t = Waits board [] t.link × SameBut d t

  ask-IsServed :
      (r : Request)
      → IsTyped r
      → (d : Device os C) → Waits board [] d.link
      → Returns
          (ask (encode r) d)
          (λ response t. (response ≡ some (replies.packet r)) × IsServed d t)
  unfolding ask
  ask-IsServed r typed d h =
      let (p, encoded, on_wire, _) = encode-Sends r typed in
      subst
        (λ request.
          Returns (ask request d)
            (λ response t. (response ≡ some (replies.packet r)) × IsServed d t))
        (sym encoded)
        (Returns-mono (on_link (send_and_receive p) d) _ _
          (on_link-Returns (send_and_receive p) _ d (
            send_and_receive-Waits board p [] (board.answer (wire r)) (replies.packet r) [] d.link
              (ap (λ b. board.answer b ∷ []) on_wire) (replies.holds r typed) h))
          (λ response t k. (k.0.0, (k.0.1, k.1))))

  -- An order is carried out.
  pub order-IsServed :
      (r : Request)
      → IsTyped r
      → (d : Device os C) → Waits board [] d.link
      → Returns (order (encode r) d) (λ done t. (done ≡ true) × IsServed d t)
  unfolding order
  order-IsServed r typed d h =
      Returns->>= (ask (encode r)) _ _ _ d (ask-IsServed r typed d h)
        (λ response t k. (ap is_some (k.0), k.1))

  -- A reading is found.
  pub fetch-IsServed :
      {A : Type 0} (r : Request) (parse : ℕ → Packet → Checked (Option A))
      → IsTyped r
      → ((now : ℕ) → (a : A) × (parse now (replies.packet r) ≡ ok (some a)))
      → (d : Device os C) → Waits board [] d.link
      → Returns (fetch (encode r) parse d) (λ value t. ((a : A) × (value ≡ some a)) × IsServed d t)
  unfolding fetch
  fetch-IsServed {A} r parse typed found d h =
      Returns->>= (ask (encode r)) _ _ _ d (ask-IsServed r typed d h) (λ response t k.
        subst
          (λ o.
            Returns (on_option (pure none) (λ p. on_link (stamped (λ now. parse now p))) o t)
              (λ value t. ((a : A) × (value ≡ some a)) × IsServed d t))
          (sym (k.0))
          (Returns-mono (on_link (stamped (λ now. parse now (replies.packet r))) t) _ _
            (on_link-Returns (stamped (λ now. parse now (replies.packet r))) _ t
              (stamped-Waits board (λ now. parse now (replies.packet r)) found [] t.link (k.1.0)))
            (λ value u m.
              (((found (m.0.0.0)).0, m.0.0.1), (m.0.1, (m.1.0 ∙ k.1.1.0, m.1.1 ∙ k.1.1.1))))))

  -- The end of an `initialize` whose reading was found, where no thread is to be started.
  pub finish-IsServed :
      {A : Type 0} (auto : C → Bool) (store : A → C → C)
      → ((a : A) (c : C) → auto (store a c) ≡ auto c)
      → (d t : Device os C) (value : Option A) (a : A) → auto d.object ≡ false
      → value ≡ some a
      → IsServed d t
      → Returns
          (on_option
            (pure (returned false))
            (λ a. do on_object (store a); c ← gets (λ d. d.object); finish_initialize (auto c))
            value
            t)
          (λ r u.
            (r ≡ returned true)
            × Waits board [] u.link
            × (auto u.object ≡ false)
            × (u.thread ≡ d.thread))
  unfolding finish_initialize
  finish-IsServed auto store same d t none a manual e k = cc
  finish-IsServed auto store same d t (some b) a manual e k =
      Returns-if (not (auto (store b t.object))) (pure (returned true)) _ _
        (record t { object = store b t.object }) (λ _. (refl, k.0, unchanged, k.1.1))
        (λ f. absurd (different unchanged f))
    where
      unchanged : auto (store b t.object) ≡ false
      unchanged = same b t.object ∙ ap auto (k.1.0) ∙ manual

      different : {b : Bool} → b ≡ false → ¬ (not b ≡ false)
      different e f = cc
