-- ===== src/Tests/Wakeup.antt =====
-- real_pty.rs: a write to a bridge that is full, and that the blocking loop then empties.
use esesaetsch.Base.{◌++◌, true, false, none, some, List, [], ◌∷◌, ◌≡◌, refl, replicate}
use esesaetsch.Crates.{Bytes}
use esesaetsch.RealPty.Wakeup.{WriteTask, carried, Turn, polled, received, turn, turns, turns-full}

abbrev full : WriteTask
full = record {
  bridge = record { queue = replicate 8 (1 ∷ []); closed = false; written = [] };
  bytes = 2 ∷ [];
  awake = true;
  outcome = none;
}

abbrev emptying : List Turn
emptying = replicate 8 (received true)

abbrev emptied : WriteTask
emptied = record full {
  bridge = record (full.bridge) { queue = []; written = replicate 8 1 };
  awake = false;
}

emptied_run : turns full (polled ∷ emptying) ≡ some emptied
unfolding turns turn
emptied_run = refl

turns-full_example :
    (emptied.outcome ≡ none)
    × ((lost : Bytes) × (carried full.bridge ≡ carried emptied.bridge ++ lost))
    × (turn emptied polled ≡ none)
turns-full_example = turns-full emptying full emptied (λ e. cc) refl refl refl emptied_run
