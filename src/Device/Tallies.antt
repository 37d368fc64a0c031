-- ===== src/Device/Tallies.antt =====
-- What the loops of src/motor_controller.cpp, src/encoder_reader.cpp and src/imu_reader.cpp have counted
-- when they return.
use joyson_glove_sdk.Prelude.{
  ℕ, ◌+◌, ◌^◌, ◌<◌, ◌≡◌, refl, ap, ◌∙◌, inl, inr, ◌⊎◌, arith, Bool, true, false, List, [], ◌∷◌,
  ◌++◌, length, replicate,
}
use joyson_glove_sdk.Prelude.Monad.{ok}
use joyson_glove_sdk.Prelude.State.{
  State, lift, ◌>>=◌, Returns, Returns->>=, Returns-self, Returns-mono,
}
use joyson_glove_sdk.Protocol.Packet.{Packet}
use joyson_glove_sdk.Udp.Os.{Os}
use joyson_glove_sdk.Udp.Client.{Link}
use joyson_glove_sdk.Device.{Device}
use joyson_glove_sdk.Device.Keeps.{IsStable, IsStable-IsTimed, IsSound}
use joyson_glove_sdk.Device.Loop.{count_failures, round, repeat_updates, repeat_checked_updates}
use joyson_glove_sdk.Device.Rounds.{
  rounds, checked_rounds, after_round, Returns-count_failures, ticked, Ran, over, left, ran,
  sleep_rest-keeps,
}

module _ {os : Os} {C : Type 0} {P : Link os → Type 0} {R : Packet → Type 0} (Q : C → Type 0)
    (stable : IsStable P R) (interval : C → ℕ) (update_once : State (Device os C) Bool)
    (once : (d : Device os C)
      → IsSound P Q d
      → Returns
          (update_once d)
          (λ done t. IsSound P Q t × (done ≡ false → t.object ≡ d.object))) where
  round-IsSound :
      (d : Device os C)
      → IsSound P Q d
      → Returns
          (round interval update_once d)
          (λ done t. IsSound P Q t × (done ≡ false → t.object ≡ d.object))
  unfolding round
  round-IsSound d h =
      Returns->>= update_once _ (λ done t. IsSound P Q t × (done ≡ false → t.object ≡ d.object)) _
        (record d { link = record d.link { world = (os.steady_now d.link.world).1 } })
        (once _ (record { link = stable.tick d.link h.link; object = h.object; thread = h.thread }))
        (λ done t k. (
          record {
            link =
                sleep_rest-keeps (IsStable-IsTimed stable) 0 (interval t.object)
                  ((os.steady_now d.link.world).0) t.link k.0.link;
            object = k.0.object;
            thread = k.0.thread;
          },
          k.1,
        ))

  -- Failures of so many rounds before, and what follows when the loop returns.
  abbrev Tally : ℕ → List Bool → Device os C → ℕ → Device os C → Type 0
  Tally before results d failures t =
      ((results ≡ replicate (length results) false)
        × (failures ≡ before + length results)
        × (t.object ≡ d.object))
      ⊎ ((front : List Bool) × (results ≡ front ++ true ∷ replicate failures false))

  abbrev IsCounted : ℕ → ℕ → Device os C → ℕ → Device os C → Type 0
  IsCounted before n d failures t =
      IsSound P Q t
      × (results : List Bool) × (length results ≡ n)
      × Ran interval update_once d results t
      × Tally before results d failures t

  Tally-step :
      (success : Bool) (before failures : ℕ) (results : List Bool) (d t u : Device os C)
      → (success ≡ false → t.object ≡ d.object)
      → Tally (after_round success before) results t failures u
      → Tally before (success ∷ results) d failures u
  Tally-step true before failures results d t u same (inl k) = inr (
    [],
    ap (λ rest. true ∷ rest)
        ((k.0) ∙ ap (λ n. replicate n false) (the_same (length results) (k.1))),
  )
    where
      the_same : (n : ℕ) → failures ≡ 0 + n → n ≡ failures
      the_same n e = omega (arith, e)
  Tally-step true before failures results d t u same (inr (front, e)) =
      inr (true ∷ front, ap (λ rest. true ∷ rest) e)
  Tally-step false before failures results d t u same (inl k) =
      inl (ap (λ rest. false ∷ rest) (k.0), omega (arith, k.1), k.2 ∙ same refl)
  Tally-step false before failures results d t u same (inr (front, e)) =
      inr (false ∷ front, ap (λ rest. false ∷ rest) e)

  IsCounted-step :
      (success : Bool) (before n failures : ℕ) (d t u : Device os C)
      → round interval update_once d ≡ ok (success, t)
      → (success ≡ false → t.object ≡ d.object)
      → IsCounted (after_round success before) n t failures u
      → IsCounted before (n + 1) d failures u
  IsCounted-step success before n failures d t u e same (sound, results, len, rest, tally) = (
    sound,
    success ∷ results,
    omega (arith, len),
    ran d t u success results e rest,
    Tally-step success before failures results d t u same tally,
  )

  none_left : (before : ℕ) (d : Device os C) → IsSound P Q d → IsCounted before 0 d before d
  none_left before d h = (h, [], refl, over d, inl (refl, omega arith, refl))

  none_ticked :
      (before : ℕ) (d : Device os C) → IsSound P Q d → IsCounted before 0 d before (ticked d)
  none_ticked before d h = (
    record { link = stable.tick d.link h.link; object = h.object; thread = h.thread },
    [],
    refl,
    left d,
    inl (refl, omega arith, refl),
  )

  -- Where a round is followed by a loop that counts right.
  round-IsCounted :
      (rest : ℕ → State (Device os C) ℕ) (before n : ℕ) (d : Device os C)
      → before + (n + 1) < 2 ^ 31
      → IsSound P Q d
      → ((counted : ℕ) (t : Device os C)
          → counted + n < 2 ^ 31
          → IsSound P Q t
          → Returns (rest counted t) (IsCounted counted n t))
      → Returns
          ((round interval update_once >>= λ success. lift (count_failures success before) >>= rest)
            d)
          (IsCounted before (n + 1) d)
  round-IsCounted rest before n d fits h repeat =
      Returns->>= (round interval update_once) _ _ _ d
        (Returns-self (round interval update_once d) _ (round-IsSound d h))
        (λ success t k. Returns-count_failures success before rest _ t (omega (arith, fits)) (
          Returns-mono (rest (after_round success before) t) _ _
            (repeat (after_round success before) t (small success) ((k.0).0))
            (λ failures u c. IsCounted-step success before n failures d t u (k.1) ((k.0).1) c)))
    where
      small : (success : Bool) → after_round success before + n < 2 ^ 31
      small true = omega (arith, fits)
      small false = omega (arith, fits)

  repeat_updates-IsCounted :
      (loads : List Bool) (before : ℕ) (d : Device os C)
      → before + rounds loads < 2 ^ 31
      → IsSound P Q d
      → Returns
          (repeat_updates interval update_once loads before d)
          (IsCounted before (rounds loads) d)
  unfolding repeat_updates
  repeat_updates-IsCounted [] before d fits h = none_left before d h
  repeat_updates-IsCounted (false ∷ loads) before d fits h = none_left before d h
  repeat_updates-IsCounted (true ∷ loads) before d fits h =
      round-IsCounted (repeat_updates interval update_once loads) before (rounds loads) d fits h
        (λ counted t small k. repeat_updates-IsCounted loads counted t small k)

  repeat_checked_updates-IsCounted :
      (loads : List Bool) (before : ℕ) (d : Device os C)
      → before + checked_rounds loads < 2 ^ 31
      → IsSound P Q d
      → Returns
          (repeat_checked_updates interval update_once loads before d)
          (IsCounted before (checked_rounds loads) d)
  unfolding repeat_checked_updates
  repeat_checked_updates-IsCounted [] before d fits h = none_left before d h
  repeat_checked_updates-IsCounted (false ∷ loads) before d fits h = none_left before d h
  repeat_checked_updates-IsCounted (true ∷ []) before d fits h = none_ticked before d h
  repeat_checked_updates-IsCounted (true ∷ false ∷ loads) before d fits h = none_ticked before d h
  repeat_checked_updates-IsCounted (true ∷ true ∷ loads) before d fits h =
      round-IsCounted (repeat_checked_updates interval update_once loads) before
        (checked_rounds loads) d fits h
        (λ counted t small k. repeat_checked_updates-IsCounted loads counted t small k)

  -- So many rounds were made, and the failures are those behind the last round that succeeded. Where
  -- none did, the object is as it was.
  abbrev pub IsTallied : ℕ → Device os C → ℕ → Device os C → Type 0
  IsTallied n d failures t =
      IsSound P Q t
      × (results : List Bool) × (length results ≡ n)
      × Ran interval update_once d results t
      × (((results ≡ replicate failures false) × (t.object ≡ d.object))
          ⊎ ((front : List Bool) × (results ≡ front ++ true ∷ replicate failures false)))

  IsCounted-IsTallied :
      (n failures : ℕ) (d t : Device os C) → IsCounted 0 n d failures t → IsTallied n d failures t
  IsCounted-IsTallied n failures d t (sound, results, len, rest, inl k) = (
    sound,
    results,
    len,
    rest,
    inl ((k.0) ∙ ap (λ n. replicate n false) (the_same (length results) (k.1)), k.2),
  )
    where
      the_same : (n : ℕ) → failures ≡ 0 + n → n ≡ failures
      the_same n e = omega (arith, e)
  IsCounted-IsTallied n failures d t (sound, results, len, rest, inr k) =
      (sound, results, len, rest, inr k)

  -- The loops begin with no failure.
  pub repeat_updates-IsTallied :
      (loads : List Bool) (d : Device os C)
      → rounds loads < 2 ^ 31
      → IsSound P Q d
      → Returns (repeat_updates interval update_once loads 0 d) (IsTallied (rounds loads) d)
  repeat_updates-IsTallied loads d fits h =
      Returns-mono (repeat_updates interval update_once loads 0 d) _ _
        (repeat_updates-IsCounted loads 0 d (omega (arith, fits)) h)
        (λ failures t k. IsCounted-IsTallied (rounds loads) failures d t k)

  pub repeat_checked_updates-IsTallied :
      (loads : List Bool) (d : Device os C)
      → checked_rounds loads < 2 ^ 31
      → IsSound P Q d
      → Returns
          (repeat_checked_updates interval update_once loads 0 d)
          (IsTallied (checked_rounds loads) d)
  repeat_checked_updates-IsTallied loads d fits h =
      Returns-mono (repeat_checked_updates interval update_once loads 0 d) _ _
        (repeat_checked_updates-IsCounted loads 0 d (omega (arith, fits)) h)
        (λ failures t k. IsCounted-IsTallied (checked_rounds loads) failures d t k)
