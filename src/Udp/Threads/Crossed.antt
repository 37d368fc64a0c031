-- ===== src/Udp/Threads/Crossed.antt =====
-- What two threads get that make an exchange at the same time, src/udp_client.cpp.
use joyson_glove_sdk.Prelude.{
  ◌≡◌, refl, ap, ◌∙◌, subst, ◌⊎◌, ℕ, Option, none, some, List, [], ◌∷◌, ◌++◌, if◌then◌else◌,
}
use joyson_glove_sdk.Prelude.State.{Returns, Returns->>=, Returns-mono, Returns-eq_ok}
use joyson_glove_sdk.Protocol.Packet.{Packet}
use joyson_glove_sdk.Udp.Os.{Os}
use joyson_glove_sdk.Udp.Client.{Link, send_packet, receive_packet}
use joyson_glove_sdk.Udp.Board.{Board, Waits, Holds, send_packet-Waits, receive_packet-Waits}
use joyson_glove_sdk.Udp.Threads.{
  Stage, sending, receiving, finished, Shared, advance, Step, first, second, Reach, here, next,
}
use joyson_glove_sdk.Udp.Threads.Progress.{IsAt, at, answer, Now, advance_one, IsAt-swap}

module _ {os : Os} (board : Board os) where
  sends :
      (x : Packet) (queue : List (List ℕ)) (l : Link os)
      → Waits board queue l
      → Returns
          (advance (sending x) l)
          (λ stage t. (stage ≡ receiving) × Waits board (queue ++ answer board x ∷ []) t)
  unfolding advance
  sends x queue l w =
      Returns->>= (send_packet x) _ _ _ l (send_packet-Waits board x queue l w)
        (λ done t k. (ap (λ done. if done then receiving else finished none) (k.0), k.1))

  receives :
      (bytes : List ℕ) (P : Packet) (rest : List (List ℕ)) (l : Link os)
      → Holds board bytes P
      → Waits board (bytes ∷ rest) l
      → Returns (advance receiving l) (λ stage t. (stage ≡ finished (some P)) × Waits board rest t)
  unfolding advance
  receives bytes P rest l holds w =
      Returns->>= receive_packet _ _ _ l (receive_packet-Waits board bytes P rest l holds w)
        (λ r t k. (ap finished (k.0), k.1))

  module _ (p q A B : Packet) (holds_A : Holds board (answer board p) A)
      (holds_B : Holds board (answer board q) B) where
    advance_two :
        (one two : Stage) (l : Link os)
        → Now board p q A B holds_A holds_B one two l
        → Returns (advance two l) (λ two t. Now board p q A B holds_A holds_B one two t)
    advance_two one two l h =
        Returns-mono (advance two l) _ _
          (advance_one board q p B A holds_B holds_A two one l
            (IsAt-swap board p q (answer board p) (answer board q) A B one two l h))
          (λ two t k. IsAt-swap board q p (answer board q) (answer board p) B A two one t k)

    Step-IsAt :
        (s t : Shared os)
        → Step s t
        → Now board p q A B holds_A holds_B s.one s.two s.link
        → Now board p q A B holds_A holds_B t.one t.two t.link
    Step-IsAt s t (first stage l e) h =
        subst (λ r. Returns r (λ one t. Now board p q A B holds_A holds_B one s.two t)) e
          (advance_one board p q A B holds_A holds_B s.one s.two s.link h)
    Step-IsAt s t (second stage l e) h =
        subst (λ r. Returns r (λ two t. Now board p q A B holds_A holds_B s.one two t)) e
          (advance_two s.one s.two s.link h)

    Reach-IsAt :
        (s t : Shared os)
        → Reach s t
        → Now board p q A B holds_A holds_B s.one s.two s.link
        → Now board p q A B holds_A holds_B t.one t.two t.link
    Reach-IsAt s t here h = h
    Reach-IsAt s t (next {t = u} r step) h = Step-IsAt u t step (Reach-IsAt s u r h)

    abbrev pub begun : Link os → Shared os
    begun l = record { one = sending p; two = sending q; link = l }

    pub crossed :
        (l : Link os)
        → Waits board [] l
        → (t : Shared os) × Reach (begun l) t
          × (t.one ≡ finished (some B))
          × (t.two ≡ finished (some A))
    crossed l w =
        let (a1, l1, e1, k1) = Returns-eq_ok (advance (sending p) l) _ (sends p [] l w) in
        let (b1, l2, e2, k2) =
          Returns-eq_ok (advance (sending q) l1) _ (sends q (answer board p ∷ []) l1 (k1.1)) in
        let (b2, l3, e3, k3) =
          Returns-eq_ok (advance receiving l2) _
            (receives (answer board p) A (answer board q ∷ []) l2 holds_A (k2.1)) in
        let (a2, l4, e4, k4) =
          Returns-eq_ok (advance receiving l3) _
            (receives (answer board q) B [] l3 holds_B (k3.1)) in
        (
          record { one = a2; two = b2; link = l4 },
          next
              (next (next (next here (first a1 l1 e1)) (second b1 l2 e2))
                (second b2 l3 (ap (λ s. advance s l2) (k2.0) ∙ e3)))
              (first a2 l4 (ap (λ s. advance s l3) (k1.0) ∙ e4)),
          k4.0,
          k3.0,
        )

    -- Two threads begin an exchange at board the same time on a connected client with nothing in its socket,
    -- and the board answers the requests `p` and `q` with the packets `A` and `B`. When both are
    -- finished, together they got both packets, each of them one: the own one each, or the other's
    -- each; and there is an order of their steps in which each thread gets the packet of the other.
    pub finished-responses :
        (l : Link os)
        → Waits board [] l
        → (t : Shared os) (r r' : Option Packet) → Reach (begun l) t
        → t.one ≡ finished r
        → t.two ≡ finished r'
        → (((r ≡ some A) × (r' ≡ some B)) ⊎ ((r ≡ some B) × (r' ≡ some A)))
          × ((u : Shared os) × Reach (begun l) u
              × (u.one ≡ finished (some B))
              × (u.two ≡ finished (some A)))
    finished-responses l w t r r' reach e e' = (
      by_progress (
          subst
            (λ one. IsAt board p q (answer board p) (answer board q) A B one (finished r') t.link) e
            (subst (λ two. IsAt board p q (answer board p) (answer board q) A B t.one two t.link) e'
              (Reach-IsAt (begun l) t reach (
                at board p q (answer board p) (answer board q) A B (sending p) (sending q) l [] w
                  (refl, refl, refl))))),
      crossed l w,
    )
      where
        by_progress :
            IsAt board p q (answer board p) (answer board q) A B (finished r) (finished r') t.link
            → (((r ≡ some A) × (r' ≡ some B)) ⊎ ((r ≡ some B) × (r' ≡ some A)))
        by_progress h = h.progress
