-- ===== src/Stream/Tests.antt =====
-- The stream theorems at a concrete stream and manager.
use go_tor.Prelude.{refl, false, [], ◌∷◌, arith}
use go_tor.Prelude.Subset.{elem}
use go_tor.Stream.{StreamManager}
use go_tor.Stream.Named.{AreNames}

-- The next identifier is in use, and the last one.
abbrev wrapped : StreamManager
wrapped = record { streams = (65535, 0) ∷ (1, 1) ∷ []; next_stream_id = 65535; is_shut = false }

wrapped-AreNames : AreNames wrapped
unfolding elem
wrapped-AreNames = record {
  next_nonzero = omega arith;
  next_bound = omega arith;
  distinct = (ground arith, (refl, tt));
  in_range = ((omega arith, omega arith), ((omega arith, omega arith), tt));
}
