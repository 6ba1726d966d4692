-- ===== src/Node/Turns.antt =====
-- pkg/node/node.go, `run`: the turns that the loop takes of itself, without a call of the owner and without a
-- group that is received.
use n2k.Prelude.{ℕ, ◌≡◌, Bool, true, false, List, [], ◌++◌}
use n2k.Node.Messages.{Message}
use n2k.Node.Loop.{
  Loop, Step, call_claim_address, call_set_device_info, call_set_product_info,
  call_set_configuration_provider, call_set_supported_pgns, call_set_heartbeat_interval,
  call_enable_heartbeat, start, stop, at_top, claim_sent, heartbeat_sent, no_heartbeat, received,
  claim_ticked, heartbeat_ticked, woken,
}

module _ {P F : Type 0} {hundredths : F → ℕ} {over_hundred : ℕ → F} where
  -- A step of the loop: the top, what it sends there, and the cases of its `select` but a group received.
  abbrev pub is_own :
      {l l' : Loop P} {ms : List (Message F)} → Step hundredths over_hundred l ms l' → Bool
  is_own (call_claim_address l a n e) = false
  is_own (call_set_device_info l info n e) = false
  is_own (call_set_product_info l info) = false
  is_own (call_set_configuration_provider l p) = false
  is_own (call_set_supported_pgns l t r) = false
  is_own (call_set_heartbeat_interval l i) = false
  is_own (call_enable_heartbeat l b) = false
  is_own (start l e) = false
  is_own (stop l e) = false
  is_own (at_top l e) = true
  is_own (claim_sent l d b e) = true
  is_own (heartbeat_sent l e) = true
  is_own (no_heartbeat l e) = true
  is_own (received l u c a now m e) = false
  is_own (claim_ticked l e e') = true
  is_own (heartbeat_ticked l e e') = true
  is_own (woken l e e') = true

pub data Turns {P F : Type 0} (hundredths : F → ℕ) (over_hundred : ℕ → F)
    : Loop P → List (Message F) → Loop P → Type 0 where
  still : (l : Loop P) → Turns hundredths over_hundred l [] l
  turn :
      (l l' l'' : Loop P) (ms ms' : List (Message F)) (e : Step hundredths over_hundred l ms l')
      → is_own e ≡ true
      → Turns hundredths over_hundred l' ms' l''
      → Turns hundredths over_hundred l (ms ++ ms') l''
