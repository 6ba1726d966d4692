-- ===== src/Node/Sent.antt =====
-- pkg/node/node.go: what a node hands to its publisher, and when.
use n2k.Prelude.{
  Bool, Bytes, ℕ, ◌≡◌, refl, inl, inr, ◌⊎◌, true, false, List, [], ◌∷◌, Option, arith, Bool-cases,
  All, All-map, All-append,
}
use n2k.Packet.{MessageInfo}
use n2k.Node.{Node, write}
use n2k.Node.Name.{AddressClaim, build_address_claim}
use n2k.Node.Devices.{ConfigurationInfo}
use n2k.Node.Messages.{
  Message, iso_address_claim, iso_acknowledgement, product_information, configuration_information,
  pgn_list, message_info, Incoming, iso_request, nmea_request, nmea_command, nmea_write_fields,
  nmea_read_fields, iso_commanded_address,
}
use n2k.Node.Claims.{send_address_claim, process_iso_address_claim}
use n2k.Node.Loop.{
  Loop, send_heartbeat, send_process_responses, process_pgn, receive, Step, Run, new_loop,
  call_claim_address, call_set_device_info, call_set_product_info, call_set_configuration_provider,
  call_set_supported_pgns, call_set_heartbeat_interval, call_enable_heartbeat, start, stop, at_top,
  claim_sent, heartbeat_sent, no_heartbeat, received, claim_ticked, heartbeat_ticked, woken,
}
use n2k.Node.Groups.Replies.{
  process_nmea_command-IsAnswer, process_nmea_write_fields-IsAnswer,
  process_nmea_read_fields-IsAnswer,
}
use n2k.Node.Answers.{
  is_claim, IsAnswer, process_iso_request-IsAnswer, process_nmea_request-IsAnswer,
}
use n2k.Node.Sound.{IsSound, Run-new-IsSound}

-- A message that the node may send: it writes, the message has its address as the source, and unless the
-- message is an address claim, its flag of a claimed address is set. A call of `ClaimAddress` leaves the flag
-- as it is, so the flag may have been set for another address.
abbrev pub MaySend : {P F : Type 0} → Node P → Message F → Type 0
MaySend n m =
    (n.read_only ≡ false)
    × ((message_info m).source_id ≡ n.network_address)
    × ((is_claim m ≡ true) ⊎ (n.address_claimed ≡ true))

module _ (F : Type 0) {P : Type 0} (n : Node P) (s : IsSound n) where
  answer-MaySend : (i : MessageInfo) (m : Message F) → IsAnswer n i m → MaySend n m
  answer-MaySend i m a = ground arith

  send_address_claim-MaySend : All (MaySend {F = F} n) (send_address_claim n)
  unfolding send_address_claim build_address_claim
  send_address_claim-MaySend = ground arith

  send_heartbeat-MaySend : All (MaySend {F = F} n) (send_heartbeat n).1
  unfolding send_heartbeat write
  send_heartbeat-MaySend = ground arith

  process_iso_address_claim-MaySend :
      (now : ℕ) (c : AddressClaim)
      → All (MaySend {F = F} n) (process_iso_address_claim now c n).sent
  unfolding process_iso_address_claim send_address_claim build_address_claim
  process_iso_address_claim-MaySend now c = ground arith

  responses-MaySend :
      (i : MessageInfo) (ms : List (Message F))
      → All (IsAnswer n i) ms
      → All (MaySend n) (send_process_responses n ms)
  unfolding send_process_responses
  responses-MaySend i ms a = elim (Bool-cases n.read_only) [
    | inl passive ↦ simp passive tt
    | inr writes ↦ simp writes (All-map (IsAnswer n i) (MaySend n) (answer-MaySend i) ms a)
  ]

silent :
    {P F : Type 0} (n : Node P) (ms : List (Message F))
    → n.read_only ≡ true
    → All (MaySend n) ms
    → ms ≡ []
silent n [] passive h = refl
silent n (m ∷ ms) passive (h, hs) = ground (arith, passive, h)

-- A handler that returns no response adds none.
no_responses :
    (F : Type 0) {P : Type 0} (n m : Node P) → All (MaySend {F = F} n) (send_process_responses m [])
unfolding send_process_responses
no_responses F n m = ground arith

module _ {P F : Type 0} (hundredths : F → ℕ) (over_hundred : ℕ → F) where
  receive-MaySend :
      (utf16 : List ℕ → Bytes) (configuration : P → Option ConfigurationInfo)
      (accepts : P → ConfigurationInfo → Bool) (now : ℕ) (m : Incoming F) (n : Node P)
      → IsSound n
      → All (MaySend n) (receive hundredths over_hundred utf16 configuration accepts now m n).sent
  unfolding receive process_pgn
  receive-MaySend u c a now (iso_request r) n s =
      responses-MaySend F n s r.info _ (process_iso_request-IsAnswer over_hundred c n r)
  receive-MaySend u c a now (nmea_request r) n s =
      responses-MaySend F n s r.info _ (process_nmea_request-IsAnswer over_hundred c n r)
  receive-MaySend u c a now (nmea_command cmd) n s =
      responses-MaySend F n s cmd.info _ (process_nmea_command-IsAnswer over_hundred u c a n cmd)
  receive-MaySend u c a now (nmea_write_fields w) n s =
      responses-MaySend F n s w.header.info _
        (process_nmea_write_fields-IsAnswer over_hundred u c a n w)
  receive-MaySend u c a now (nmea_read_fields r) n s =
      responses-MaySend F n s r.header.info _
        (process_nmea_read_fields-IsAnswer over_hundred u c a n r)
  receive-MaySend u c a now (iso_address_claim m) n s =
      All-append (MaySend n) _ _ (process_iso_address_claim-MaySend F n s now m)
        (no_responses F n _)
  receive-MaySend u c a now (iso_acknowledgement m) n s = no_responses F n n
  receive-MaySend u c a now (iso_commanded_address m) n s = no_responses F n _
  receive-MaySend u c a now (product_information p) n s = no_responses F n _
  receive-MaySend u c a now (configuration_information i m) n s = no_responses F n _
  receive-MaySend u c a now (pgn_list p) n s = no_responses F n _

  -- A step of a sound node sends only what the node may send.
  pub Step-MaySend :
      (l l' : Loop P) (ms : List (Message F))
      → Step hundredths over_hundred l ms l'
      → IsSound l.node
      → All (MaySend l.node) ms
  Step-MaySend _ _ _ (call_claim_address l a n e) s = tt
  Step-MaySend _ _ _ (call_set_device_info l info n e) s = tt
  Step-MaySend _ _ _ (call_set_product_info l info) s = tt
  Step-MaySend _ _ _ (call_set_configuration_provider l p) s = tt
  Step-MaySend _ _ _ (call_set_supported_pgns l t r) s = tt
  Step-MaySend _ _ _ (call_set_heartbeat_interval l i) s = tt
  Step-MaySend _ _ _ (call_enable_heartbeat l b) s = tt
  Step-MaySend _ _ _ (start l e) s = tt
  Step-MaySend _ _ _ (stop l e) s = tt
  Step-MaySend _ _ _ (at_top l e) s = tt
  Step-MaySend _ _ _ (claim_sent l true b e) s = send_address_claim-MaySend F l.node s
  Step-MaySend _ _ _ (claim_sent l false b e) s = tt
  Step-MaySend _ _ _ (heartbeat_sent l e) s = send_heartbeat-MaySend F l.node s
  Step-MaySend _ _ _ (no_heartbeat l e) s = tt
  Step-MaySend _ _ _ (received l u c a now m e) s = receive-MaySend u c a now m l.node s
  Step-MaySend _ _ _ (claim_ticked l e e') s = tt
  Step-MaySend _ _ _ (heartbeat_ticked l e e') s = send_heartbeat-MaySend F l.node s
  Step-MaySend _ _ _ (woken l e e') s = tt

  -- In every state that a run from a new node leads to, a step sends only what the node may send: the
  -- node is not read-only, each message has the node's address as its source, and each but an address claim is
  -- sent only while the flag of a claimed address is set; the address that the flag was set for may be another
  -- one, since `ClaimAddress` leaves the flag.
  pub Step-Run-MaySend :
      (l l' : Loop P) (ms ms' : List (Message F))
      → Run hundredths over_hundred new_loop ms l
      → Step hundredths over_hundred l ms' l'
      → All (MaySend l.node) ms'
  Step-Run-MaySend l l' ms ms' r e =
      Step-MaySend l l' ms' e (Run-new-IsSound hundredths over_hundred l ms r)

  -- In every state that a run from a new node leads to, a step of a read-only node sends nothing.
  pub Step-Run-read_only :
      (l l' : Loop P) (ms ms' : List (Message F))
      → Run hundredths over_hundred new_loop ms l
      → Step hundredths over_hundred l ms' l'
      → l.node.read_only ≡ true
      → ms' ≡ []
  Step-Run-read_only l l' ms ms' r e passive =
      silent l.node ms' passive (Step-Run-MaySend l l' ms ms' r e)
