-- ===== src/StreamHandler/Turns.antt =====
-- What the turns of the callback of `Stream` are to hand on, told without channels.
use chronos_monitor.Prelude.{
  ℕ, zero, suc, ◌+◌, ◌≤◌, ◌≡◌, refl, sym, ap, ◌∙◌, List, [], ◌∷◌, ◌++◌, length, length-append,
  arith,
}
use mathlib.Core.List.{append_assoc, append-nil}
use chronos_monitor.Broker.{Event}
use chronos_monitor.StreamHandler.{Moment, published, woken}

-- The events that are published, in their order.
abbrev pub events_of : List Moment → List Event
events_of [] = []
events_of (published evt ∷ rest) = evt ∷ events_of rest
events_of (woken ∷ rest) = events_of rest

-- What a queue without a bound hands on: each turn takes the oldest event, if there is one.
abbrev pub received : List Moment → List Event → List Event
received [] waiting = []
received (published evt ∷ rest) waiting = received rest (waiting ++ evt ∷ [])
received (woken ∷ rest) [] = received rest []
received (woken ∷ rest) (evt ∷ waiting) = evt ∷ received rest waiting

-- The turns of the callback that come after all else.
abbrev pub turns : ℕ → List Moment
turns zero = []
turns (suc n) = woken ∷ turns n

-- What is received is what waited and then what was published, up to some event.
pub received-prefix :
    (moments : List Moment) (waiting : List Event)
    → (unsent : List Event) × (received moments waiting ++ unsent ≡ waiting ++ events_of moments)
received-prefix [] waiting = (waiting, sym (append-nil waiting))
received-prefix (published evt ∷ rest) waiting =
    let (unsent, e) = received-prefix rest (waiting ++ evt ∷ []) in
    (unsent, e ∙ append_assoc waiting (evt ∷ []) (events_of rest))
received-prefix (woken ∷ rest) [] = received-prefix rest []
received-prefix (woken ∷ rest) (evt ∷ waiting) =
    let (unsent, e) = received-prefix rest waiting in (unsent, ap (λ l. evt ∷ l) e)

received-turns :
    (n : ℕ) (waiting : List Event) → length waiting ≤ n → received (turns n) waiting ≡ waiting
received-turns zero [] h = refl
received-turns zero (evt ∷ waiting) h = absurd (omega (arith, h))
received-turns (suc n) [] h = received-turns n [] (omega arith)
received-turns (suc n) (evt ∷ waiting) h =
    ap (λ l. evt ∷ l) (received-turns n waiting (omega arith))

-- With enough turns at the end, all that waited and was published is received.
pub received-all :
    (moments : List Moment) (n : ℕ) (waiting : List Event)
    → length waiting + length (events_of moments) ≤ n
    → received (moments ++ turns n) waiting ≡ waiting ++ events_of moments
received-all [] n waiting h = received-turns n waiting (omega arith) ∙ sym (append-nil waiting)
received-all (published evt ∷ rest) n waiting h =
    let longer = length-append {0} waiting (evt ∷ []) in
    received-all rest n (waiting ++ evt ∷ []) (omega (arith, longer))
    ∙ append_assoc waiting (evt ∷ []) (events_of rest)
received-all (woken ∷ rest) n [] h = received-all rest n [] h
received-all (woken ∷ rest) n (evt ∷ waiting) h =
    ap (λ l. evt ∷ l) (received-all rest n waiting (omega arith))

events_of-turns : (n : ℕ) → events_of (turns n) ≡ []
events_of-turns zero = refl
events_of-turns (suc n) = events_of-turns n

pub events_of-append_turns :
    (moments : List Moment) (n : ℕ) → events_of (moments ++ turns n) ≡ events_of moments
events_of-append_turns [] n = events_of-turns n
events_of-append_turns (published evt ∷ rest) n = ap (λ l. evt ∷ l) (events_of-append_turns rest n)
events_of-append_turns (woken ∷ rest) n = events_of-append_turns rest n
