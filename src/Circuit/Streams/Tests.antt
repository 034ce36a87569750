-- ===== src/Circuit/Streams/Tests.antt =====
-- A read at a concrete channel: the cell of stream 9 in front of the answer is lost.
use go_tor.Prelude.{◌≡◌, refl, [], ◌∷◌}
use go_tor.Circuit.Streams.{begin_payload}

begin_onion : begin_payload (97 ∷ []) 8080 ≡ 97 ∷ 58 ∷ 56 ∷ 48 ∷ 56 ∷ 48 ∷ 0 ∷ []
unfolding begin_payload
begin_onion = refl
