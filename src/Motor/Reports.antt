-- ===== src/Motor/Reports.antt =====
-- `get_motor_status` and `update_once` of src/motor_controller.cpp with a board that answers: which
-- reports they take, and which wait in the socket after them.
use joyson_glove_sdk.Prelude.{
  ℕ, ◌≤◌, ◌≡◌, sym, ap, ◌∙◌, subst, arith, not, Option, none, some, List, [], ◌∷◌, ◌++◌,
}
use joyson_glove_sdk.Prelude.Monad.{ok}
use joyson_glove_sdk.Prelude.State.{pure, Returns, Returns->>=, Returns-if, Returns-mono, on_option}
use joyson_glove_sdk.Protocol.Packet.{Packet}
use joyson_glove_sdk.Protocol.Codec.{encode_read_motor_status}
use joyson_glove_sdk.Protocol.Codec.Requests.{read_motor_status, encode, wire, encode-Sends}
use joyson_glove_sdk.Protocol.Parse.{MotorStatus, parse_motor_status}
use joyson_glove_sdk.Udp.Os.{Os}
use joyson_glove_sdk.Udp.Client.{Link, send_and_receive}
use joyson_glove_sdk.Udp.Board.{Board, Waits, Holds, send_and_receive-Waits}
use joyson_glove_sdk.Device.{Device, on_link, ask, fetch, stamped}
use joyson_glove_sdk.Device.Links.{SameBut, on_link-Returns, stamped-Waits}
use joyson_glove_sdk.Motor.{MotorController, is_valid_motor_id, get_motor_status}

-- A status without the time at which it was read.
abbrev pub timeless : MotorStatus → MotorStatus
timeless s = record s { timestamp = 0 }

module _ {os : Os} (board : Board os) where
  -- A datagram that holds a motor's status.
  pub record Reports (bytes : List ℕ) (s : MotorStatus) : Type 0 where
    pub packet : Packet
    pub holds : Holds board bytes packet
    pub parses :
        (now : ℕ) → parse_motor_status now packet ≡ ok (some (record s { timestamp = now }))

  -- Datagrams that hold these statuses.
  abbrev pub AllReport : List (List ℕ) → List MotorStatus → Type 0
  AllReport [] [] = Unit
  AllReport (bytes ∷ queue) (s ∷ statuses) = Reports bytes s × AllReport queue statuses
  AllReport _ _ = ⊥

  -- The reports that wait in the socket of a connected client.
  pub record Pending (statuses : List MotorStatus) (l : Link os) : Type 0 where
    pub queue : List (List ℕ)
    pub waits : Waits board queue l
    pub report : AllReport queue statuses

  pub AllReport-append :
      (queue : List (List ℕ)) (statuses : List MotorStatus) (bytes : List ℕ) (s : MotorStatus)
      → AllReport queue statuses
      → Reports bytes s
      → AllReport (queue ++ bytes ∷ []) (statuses ++ s ∷ [])
  AllReport-append [] [] bytes s h r = (r, tt)
  AllReport-append [] (t ∷ statuses) bytes s h r = absurd h
  AllReport-append (b ∷ queue) [] bytes s h r = absurd h
  AllReport-append (b ∷ queue) (t ∷ statuses) bytes s h r =
      (h.0, AllReport-append queue statuses bytes s (h.1) r)

  -- The board answers a request for a motor's status with that motor's status.
  abbrev pub Answers : (ℕ → MotorStatus) → Type 0
  Answers status =
      (motor_id : ℕ)
      → 1 ≤ motor_id
      → motor_id ≤ 6
      → Reports (board.answer (wire (read_motor_status motor_id))) (status motor_id)

  -- A status that was stamped when it was read.
  abbrev pub IsStamped : MotorStatus → Option MotorStatus → Type 0
  IsStamped s value = (now : ℕ) × (value ≡ some (record s { timestamp = now }))

  -- The oldest report is taken, and the answer to the request waits behind the others.
  pub get_motor_status-Waits :
      (status : ℕ → MotorStatus)
      → Answers status
      → (motor_id : ℕ) → 1 ≤ motor_id
      → motor_id ≤ 6
      → (queue rest : List (List ℕ)) (bytes : List ℕ) (s : MotorStatus)
        (d : Device os MotorController)
      → queue ++ board.answer (wire (read_motor_status motor_id)) ∷ [] ≡ bytes ∷ rest
      → Reports bytes s
      → Waits board queue d.link
      → Returns
          (get_motor_status motor_id d)
          (λ value t. IsStamped s value × Waits board rest t.link × SameBut d t)
  unfolding get_motor_status is_valid_motor_id fetch ask encode
  get_motor_status-Waits status answers motor_id low high queue rest bytes s d e report h =
      Returns-if (not (is_valid_motor_id motor_id)) (pure none)
        (fetch (encode_read_motor_status motor_id) parse_motor_status) _ d
        (λ wrong. absurd (ground (arith, wrong)))
        (λ _.
          let (packet, encoded, on_wire, _) =
            encode-Sends (read_motor_status motor_id) (omega arith) in
          subst
            (λ r.
              Returns (fetch r parse_motor_status d)
                (λ value t. IsStamped s value × Waits board rest t.link × SameBut d t))
            (sym encoded)
            (Returns->>= (on_link (send_and_receive packet)) _ _ _ d
              (on_link-Returns (send_and_receive packet) _ d (
                send_and_receive-Waits board packet queue bytes report.packet rest d.link
                  (ap (λ b. queue ++ board.answer b ∷ []) on_wire ∙ e) report.holds h))
              (λ response t k. read response t k)))
    where
      read :
          (response : Option Packet) (t : Device os MotorController)
          → (((response ≡ some report.packet) × Waits board rest t.link) × SameBut d t)
          → Returns
              (on_option
                (pure none)
                (λ p. on_link (stamped (λ now. parse_motor_status now p)))
                response
                t)
              (λ value t. IsStamped s value × Waits board rest t.link × SameBut d t)
      read response t k =
          subst
            (λ r.
              Returns
                (on_option (pure none) (λ p. on_link (stamped (λ now. parse_motor_status now p))) r
                  t)
                (λ value t. IsStamped s value × Waits board rest t.link × SameBut d t))
            (sym (k.0.0))
            (Returns-mono (on_link (stamped (λ now. parse_motor_status now report.packet)) t) _ _
              (on_link-Returns (stamped (λ now. parse_motor_status now report.packet)) _ t (
                stamped-Waits board (λ now. parse_motor_status now report.packet)
                  (λ now. (record s { timestamp = now }, report.parses now)) rest t.link (k.0.1)))
              (λ value u m. (m.0.0, m.0.1, (m.1.0 ∙ k.1.0, m.1.1 ∙ k.1.1))))
