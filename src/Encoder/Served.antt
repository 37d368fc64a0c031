-- ===== src/Encoder/Served.antt =====
-- `EncoderReader::initialize`, src/encoder_reader.cpp, with a board that answers every request.
use joyson_glove_sdk.Prelude.{◌≡◌, refl, true, false, []}
use joyson_glove_sdk.Prelude.Float.{Float}
use joyson_glove_sdk.Prelude.State.{Returns, Returns->>=}
use joyson_glove_sdk.Protocol.Codec.Requests.{encode, read_all_encoders}
use joyson_glove_sdk.Protocol.Parse.{parse_encoder_data}
use joyson_glove_sdk.Udp.Os.{Os}
use joyson_glove_sdk.Udp.Board.{Board, Waits}
use joyson_glove_sdk.Device.{Device, returned}
use joyson_glove_sdk.Device.Replies.{Replies, fetch-IsServed, finish-IsServed}
use joyson_glove_sdk.Encoder.{EncoderReader, read_encoders, initialize}

module _ {os : Os} {F : Type 0} ⦃fl : Float F⦄ {board : Board os} (replies : Replies F board) where
  -- A reader without a thread of its own is initialized.
  pub initialize-IsServed :
      (d : Device os (EncoderReader F))
      → d.object.config.auto_start_thread ≡ false
      → Waits board [] d.link
      → Returns (initialize d) (λ r t.
        (r ≡ returned true)
        × Waits board [] t.link
        × (t.object.config.auto_start_thread ≡ false)
        × (t.thread ≡ d.thread))
  unfolding initialize read_encoders encode
  initialize-IsServed d manual h =
      Returns->>= read_encoders _ _ _ d
        (fetch-IsServed replies read_all_encoders parse_encoder_data tt replies.encoders d h)
        (λ value t k.
          finish-IsServed replies (λ (r : EncoderReader F). r.config.auto_start_thread)
            (λ a r. record r { cached_data = a }) (λ a r. refl) d t value (k.0.0) manual (k.0.1)
            (k.1))
