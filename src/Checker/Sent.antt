-- ===== src/Checker/Sent.antt =====
-- What MyoNucMotor/MyoNucMotor/main.cpp and NUCServer/NUCServer/Server.cpp send, as the bytes of one
-- stream: neither program sends the length of a message.
use myodesignproject.Base.{ℕ, ◌≡◌, refl, ap, Option, none, some, List, [], ◌∷◌, ◌++◌}
use myodesignproject.Sensor.{Sensor}
use myodesignproject.Sensor.WireFormat.{Wire}
use myodesignproject.Sensor.Stream.{stream}
use myodesignproject.Controller.Spec.{Numbers, message_of, frame_of, all_frames}

-- The bytes on the socket after some rounds.
abbrev pub received : List (Option (List ℕ)) → List ℕ
received [] = []
received (none ∷ sent) = received sent
received (some bytes ∷ sent) = bytes ++ received sent

-- The messages that were sent.
abbrev pub messages : List (Option Numbers) → List Sensor
messages [] = []
messages (none ∷ outs) = messages outs
messages (some vs ∷ outs) = message_of vs ∷ messages outs

pub received-all_frames :
    (w : Wire) (outs : List (Option Numbers))
    → received (all_frames w outs) ≡ stream w (messages outs)
received-all_frames w [] = refl
received-all_frames w (none ∷ outs) = received-all_frames w outs
received-all_frames w (some vs ∷ outs) =
    ap (λ (bytes : List ℕ). frame_of w vs ++ bytes) (received-all_frames w outs)
