-- ===== src/Node/Tests.antt =====
-- pkg/node/node.go: a node that claims the address 10, and a device with a lower NAME.
use n2k.Prelude.{
  ℕ, ◌+◌, ◌*◌, ◌^◌, ◌≡◌, refl, true, false, List, [], Option, none, some, arith, All, ◌⊎◌,
}
use n2k.Prelude.Results.{ok}
use n2k.Packet.{MessageInfo}
use n2k.Node.{Node, new_node, claiming, claimed, claim_address, set_device_info}
use n2k.Node.Name.{
  DeviceInfo, pack_name, compute_name, compute_name_from_claim, build_address_claim,
}
use n2k.Node.Name.Fields.{compute_name_from_claim-build_address_claim}
use n2k.Node.Messages.{
  Message, IsoRequest, NmeaRequest, configuration_information_pgn, product_information_pgn,
}
use n2k.Node.Claims.{send_address_claim}
use n2k.Node.Loop.{
  Loop, new_loop, top, select, claim_due, heartbeat_due, prepare, Step, call_set_device_info,
  call_claim_address, start, at_top, claim_sent, no_heartbeat, woken, Run, done, step,
}
use n2k.Node.Sound.{IsSound, Run-new-IsSound}
use n2k.Node.Sent.{MaySend, Step-Run-MaySend}
use n2k.Node.Turns.{Turns}
use n2k.Node.Settles.{
  Owns, Waits, StartsWith, claim_of, claim_address-Owns, claim_address_overtaken,
}

abbrev info : ℕ → DeviceInfo
info unique = record {
  unique_number = unique;
  manufacturer_code = 137;
  device_function = 130;
  device_class = 25;
  device_instance_lower = 1;
  device_instance_upper = 2;
  system_instance = 3;
  industry_group = 4;
  arbitrary_address_capable = true;
}

abbrev name_of : ℕ → ℕ
name_of unique =
    unique
    + 137 * 2 ^ 21
    + 1 * 2 ^ 32
    + 2 * 2 ^ 35
    + 130 * 2 ^ 40
    + 25 * 2 ^ 49
    + 3 * 2 ^ 56
    + 4 * 2 ^ 60
    + 2 ^ 63

info_named : compute_name (info 5) ≡ ok (name_of 5)
unfolding compute_name pack_name
info_named = refl

abbrev target : ℕ → MessageInfo
target a = record { timestamp = 0; priority = 6; pgn = 65240; source_id = 7; target_id = a }

abbrev config : Option ℕ → Node ℕ
config p = record new_node {
  device_info = info 5;
  device_info_set = true;
  name = name_of 5;
  config_provider = p;
}

abbrev hundredths : ℕ → ℕ
hundredths v = v * 100

abbrev over_hundred : ℕ → ℕ
over_hundred v = v

abbrev asked : Node ℕ
asked = record (config none) { preferred_address = 10; read_only = false; address_state = claiming }

-- The states of a node that is configured, started and told to claim the address 10.
abbrev set : Loop ℕ
set = record new_loop { node = config none }

abbrev running : Loop ℕ
running = record set { phase = top }

abbrev passed : Loop ℕ
passed = record set { phase = claim_due false false }

abbrev beating : Loop ℕ
beating = record set { phase = heartbeat_due false }

abbrev waiting : Loop ℕ
waiting = record set { phase = select }

abbrev told : Loop ℕ
told = record waiting { node = record asked { wake_up = true } }

abbrev again : Loop ℕ
again = record waiting { node = asked; phase = top }

abbrev due : Loop ℕ
due = record again {
  node = record asked { network_address = 10 };
  claim_ticker = true;
  phase = claim_due true false;
}

reaches_waiting :
    (l : Loop ℕ)
    → Run {F = ℕ} hundredths over_hundred waiting [] l
    → Run {F = ℕ} hundredths over_hundred new_loop [] l
unfolding set_device_info compute_name pack_name prepare send_address_claim
reaches_waiting l r =
    step new_loop set l [] [] (call_set_device_info new_loop (info 5) (config none) refl) (
      step set running l [] [] (start set refl) (
        step running passed l [] [] (at_top running refl) (
          step passed beating l [] [] (claim_sent passed false false refl)
            (step beating waiting l [] [] (no_heartbeat beating refl) r))))

reaches_due : Run {F = ℕ} hundredths over_hundred new_loop [] due
unfolding claim_address prepare
reaches_due = reaches_waiting due (
    step waiting told due [] [] (call_claim_address waiting 10 told.node refl) (
      step told again due [] [] (woken told refl refl)
        (step again due due [] [] (at_top again refl) (done due))))

-- The claim is the next message.
claims :
    Step {F = ℕ} hundredths over_hundred due
      (send_address_claim due.node)
      (record due { phase = heartbeat_due false })
claims = claim_sent due true false refl

Run-new-IsSound_example : IsSound due.node
Run-new-IsSound_example = Run-new-IsSound hundredths over_hundred due [] reaches_due

Step-Run-MaySend_example : All (MaySend due.node) (send_address_claim {F = ℕ} due.node)
Step-Run-MaySend_example =
    Step-Run-MaySend hundredths over_hundred due (record due { phase = heartbeat_due false }) []
      (send_address_claim due.node) reaches_due claims

-- A request for the configuration, to all.
abbrev for_configuration : IsoRequest
for_configuration = record { info = target 255; pgn = some configuration_information_pgn }

abbrev owner : Node ℕ
owner = record due.node { address_state = claimed; address_claimed = true }

-- A node with a lower NAME that has claimed the address too.
abbrev rival : Node ℕ
rival = record owner { device_info = info 4; name = name_of 4 }

claim_address-Owns_example :
    (n : Node ℕ) × (claim_address 10 waiting.node ≡ ok n)
    × ((l' : Loop ℕ) × (ms : List (Message ℕ)) × Turns hundredths over_hundred
          (record waiting { node = n })
          ms
          l'
        × Owns 10 l'.node
        × (Waits 10 waiting ⊎ StartsWith (claim_of waiting.node 10) ms))
claim_address-Owns_example =
    claim_address-Owns hundredths over_hundred waiting 10 refl refl (omega arith)

-- The loop waits for the address 10.
abbrev pending : Loop ℕ
pending = record due { phase = select }

claim_address_overtaken_example :
    (n : Node ℕ) × (claim_address 20 pending.node ≡ ok n)
    × ((l' : Loop ℕ) × Turns {F = ℕ} hundredths over_hundred (record pending { node = n }) [] l'
        × Owns 10 l'.node
        × (l'.node.preferred_address ≡ 20)
        × ((prepare l').node.network_address ≡ 10))
claim_address_overtaken_example =
    claim_address_overtaken hundredths over_hundred pending 20 refl refl refl (omega arith)

abbrev for_product : NmeaRequest
for_product = record {
  info = target 10;
  pgn = some product_information_pgn;
  number_of_parameters = some 2;
}

compute_name_from_claim-build_address_claim_example :
    compute_name_from_claim (build_address_claim (info 5) 10) ≡ name_of 5
compute_name_from_claim-build_address_claim_example =
    compute_name_from_claim-build_address_claim (info 5) 10 (name_of 5) info_named
