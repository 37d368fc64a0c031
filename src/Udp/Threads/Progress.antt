-- ===== src/Udp/Threads/Progress.antt =====
-- How far two threads are that make an exchange at the same time, src/udp_client.cpp: what is in the
-- socket, by the stages of both.
use joyson_glove_sdk.Prelude.{
  ◌≡◌, refl, sym, ◌∙◌, subst, ◌⊎◌, inl, inr, ℕ, Bool, true, false, not, none, some, List, [], ◌∷◌,
  ◌++◌, if◌then◌else◌,
}
use joyson_glove_sdk.Prelude.State.{pure, ◌>>=◌, >>=-assoc, >>=-congr, Returns, Returns->>=}
use joyson_glove_sdk.Protocol.Packet.{Packet, serialize}
use joyson_glove_sdk.Udp.Os.{Os}
use joyson_glove_sdk.Udp.Client.{Link, send_packet, receive_packet, send_and_receive}
use joyson_glove_sdk.Udp.Board.{Board, Waits, Holds, send_packet-Waits, receive_packet-Waits}
use joyson_glove_sdk.Udp.Threads.{Stage, sending, receiving, finished, advance}

-- A thread alone makes the calls of `send_and_receive`.
pub advance_twice :
    {os : Os} (packet : Packet) (l : Link os)
    → (advance (sending packet) >>= advance) l
      ≡ (send_and_receive packet >>= λ r. pure (finished r)) l
unfolding advance send_and_receive
advance_twice {os} packet l =
    >>=-assoc (send_packet packet) _ advance l
    ∙ >>=-congr (send_packet packet) _ _ l by_sent
    ∙ sym (>>=-assoc (send_packet packet) _ _ l)
  where
    by_sent :
        (done : Bool) (t : Link os)
        → advance (if done then receiving else finished none) t
          ≡ ((if not done then pure none else receive_packet) >>= λ r. pure (finished r)) t
    by_sent true t = refl
    by_sent false t = refl

module _ {os : Os} (board : Board os) where
  -- Of two threads with the requests `p` and `q`, whose answers are `a` and `b` and hold `A` and `B`:
  -- what is in the socket, by the stages of the threads.
  abbrev pub Progress :
      Packet → Packet → List ℕ → List ℕ → Packet → Packet → Stage → Stage → List (List ℕ) → Type 0
  Progress p q a b A B (sending x) (sending y) queue = (x ≡ p) × (y ≡ q) × (queue ≡ [])
  Progress p q a b A B (sending x) receiving queue = (x ≡ p) × (queue ≡ b ∷ [])
  Progress p q a b A B (sending x) (finished t) queue = (x ≡ p) × (t ≡ some B) × (queue ≡ [])
  Progress p q a b A B receiving (sending y) queue = (y ≡ q) × (queue ≡ a ∷ [])
  Progress p q a b A B receiving receiving queue = (queue ≡ a ∷ b ∷ []) ⊎ (queue ≡ b ∷ a ∷ [])
  Progress p q a b A B receiving (finished t) queue =
      ((t ≡ some B) × (queue ≡ a ∷ [])) ⊎ ((t ≡ some A) × (queue ≡ b ∷ []))
  Progress p q a b A B (finished r) (sending y) queue = (y ≡ q) × (r ≡ some A) × (queue ≡ [])
  Progress p q a b A B (finished r) receiving queue =
      ((r ≡ some A) × (queue ≡ b ∷ [])) ⊎ ((r ≡ some B) × (queue ≡ a ∷ []))
  Progress p q a b A B (finished r) (finished t) queue =
      ((r ≡ some A) × (t ≡ some B)) ⊎ ((r ≡ some B) × (t ≡ some A))

  Progress-swap :
      (p q : Packet) (a b : List ℕ) (A B : Packet) (one two : Stage) (queue : List (List ℕ))
      → Progress p q a b A B one two queue
      → Progress q p b a B A two one queue
  Progress-swap p q a b A B (sending x) (sending y) queue h = (h.1, h.0, h.2)
  Progress-swap p q a b A B (sending x) receiving queue h = h
  Progress-swap p q a b A B (sending x) (finished t) queue h = h
  Progress-swap p q a b A B receiving (sending y) queue h = h
  Progress-swap p q a b A B receiving receiving queue (inl h) = inr h
  Progress-swap p q a b A B receiving receiving queue (inr h) = inl h
  Progress-swap p q a b A B receiving (finished t) queue h = h
  Progress-swap p q a b A B (finished r) (sending y) queue h = h
  Progress-swap p q a b A B (finished r) receiving queue h = h
  Progress-swap p q a b A B (finished r) (finished t) queue (inl h) = inl (h.1, h.0)
  Progress-swap p q a b A B (finished r) (finished t) queue (inr h) = inr (h.1, h.0)

  pub record IsAt (p q : Packet) (a b : List ℕ) (A B : Packet) (one two : Stage) (l : Link os)
      : Type 0 where
    pub queue : List (List ℕ)
    pub waits : Waits board queue l
    pub progress : Progress p q a b A B one two queue

  pub at :
      (p q : Packet) (a b : List ℕ) (A B : Packet) (one two : Stage) (l : Link os)
      (queue : List (List ℕ))
      → Waits board queue l
      → Progress p q a b A B one two queue
      → IsAt p q a b A B one two l
  at p q a b A B one two l queue w h = record { queue = queue; waits = w; progress = h }

  abbrev pub answer : Packet → List ℕ
  answer p = board.answer (serialize p)

  module _ (p q A B : Packet) (holds_A : Holds board (answer p) A)
      (holds_B : Holds board (answer q) B) where
    abbrev pub Now : Stage → Stage → Link os → Type 0
    Now = IsAt p q (answer p) (answer q) A B

    sent :
        (x : Packet) (two : Stage) (queue : List (List ℕ))
        → Progress p q (answer p) (answer q) A B (sending x) two queue
        → Progress p q (answer p) (answer q) A B receiving two (queue ++ answer x ∷ [])
    sent x (sending y) queue h = (h.1, rw (h.0, h.2))
    sent x receiving queue h = inr (rw (h.0, h.1))
    sent x (finished t) queue h = inl (h.1, rw (h.0, h.2))

    advance_receiving :
        (two : Stage) (bytes : List ℕ) (P : Packet) (rest : List (List ℕ)) (l : Link os)
        → Holds board bytes P
        → Waits board (bytes ∷ rest) l
        → Progress p q (answer p) (answer q) A B (finished (some P)) two rest
        → Returns (advance receiving l) (λ one t. Now one two t)
    unfolding advance
    advance_receiving two bytes P rest l holds w h =
        Returns->>= receive_packet _ _ _ l (receive_packet-Waits board bytes P rest l holds w)
          (λ r t k.
            subst (λ r. Now (finished r) two t) (sym (k.0))
              (at p q (answer p) (answer q) A B (finished (some P)) two t rest (k.1) h))

    pub advance_one :
        (one two : Stage) (l : Link os)
        → Now one two l
        → Returns (advance one l) (λ one t. Now one two t)
    unfolding advance
    advance_one (sending x) two l h =
        Returns->>= (send_packet x) _ _ _ l (send_packet-Waits board x h.queue l h.waits)
          (λ done t k.
            subst (λ done. Now (if done then receiving else finished none) two t) (sym (k.0))
              (at p q (answer p) (answer q) A B receiving two t (h.queue ++ answer x ∷ []) (k.1)
                (sent x two h.queue h.progress)))
    advance_one (finished r) two l h = h
    advance_one receiving (sending y) l h =
        advance_receiving (sending y) (answer p) A [] l holds_A
          (subst (λ queue. Waits board queue l) (h.progress.1) h.waits) (h.progress.0, refl, refl)
    advance_one receiving receiving l h = by_order h.progress
      where
        by_order :
            ((h.queue ≡ answer p ∷ answer q ∷ []) ⊎ (h.queue ≡ answer q ∷ answer p ∷ []))
            → Returns (advance receiving l) (λ one t. Now one receiving t)
        by_order (inl e) =
            advance_receiving receiving (answer p) A (answer q ∷ []) l holds_A
              (subst (λ queue. Waits board queue l) e h.waits) (inl (refl, refl))
        by_order (inr e) =
            advance_receiving receiving (answer q) B (answer p ∷ []) l holds_B
              (subst (λ queue. Waits board queue l) e h.waits) (inr (refl, refl))
    advance_one receiving (finished t) l h = by_order h.progress
      where
        by_order :
            (((t ≡ some B) × (h.queue ≡ answer p ∷ []))
              ⊎ ((t ≡ some A) × (h.queue ≡ answer q ∷ [])))
            → Returns (advance receiving l) (λ one u. Now one (finished t) u)
        by_order (inl (f, e)) =
            advance_receiving (finished t) (answer p) A [] l holds_A
              (subst (λ queue. Waits board queue l) e h.waits) (inl (refl, f))
        by_order (inr (f, e)) =
            advance_receiving (finished t) (answer q) B [] l holds_B
              (subst (λ queue. Waits board queue l) e h.waits) (inr (refl, f))

  pub IsAt-swap :
      (p q : Packet) (a b : List ℕ) (A B : Packet) (one two : Stage) (l : Link os)
      → IsAt p q a b A B one two l
      → IsAt q p b a B A two one l
  IsAt-swap p q a b A B one two l h =
      at q p b a B A two one l h.queue h.waits
        (Progress-swap p q a b A B one two h.queue h.progress)
