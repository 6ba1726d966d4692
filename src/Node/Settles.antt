-- ===== src/Node/Settles.antt =====
-- pkg/node/node.go: what the loop does of itself after a call of `ClaimAddress`.
use n2k.Prelude.{
  ℕ, ◌≤◌, ◌≡◌, refl, ap₂, subst, inl, inr, ◌⊎◌, Bool, true, false, ◌&&◌, not, List, [], ◌∷◌, arith,
  Bool-cases,
}
use n2k.Prelude.Results.{ok}
use n2k.Node.{Node, claiming, claimed, claim_address}
use n2k.Node.Name.{DeviceInfo, build_address_claim}
use n2k.Node.Messages.{Message, iso_address_claim}
use n2k.Node.Claims.{send_address_claim}
use n2k.Node.Loop.{
  Loop, top, select, claim_due, heartbeat_due, prepare, send_heartbeat, claim_tick, woken, at_top,
  claim_sent, heartbeat_sent, no_heartbeat, claim_ticked,
}
use n2k.Node.Turns.{Turns, still, turn}

-- The node owns the address.
abbrev pub Owns : {P : Type 0} → ℕ → Node P → Type 0
Owns a n =
    (n.address_state ≡ claimed)
    × (n.address_claimed ≡ true)
    × (n.network_address ≡ a)
    × (n.read_only ≡ false)

-- The loop waits for the address to become the node's own.
abbrev pub Waits : {P : Type 0} → ℕ → Loop P → Type 0
Waits a l = (l.claim_ticker ≡ true) × (l.node.network_address ≡ a)

abbrev claim_to : {F : Type 0} → DeviceInfo → ℕ → Message F
claim_to info a = iso_address_claim (build_address_claim info a)

abbrev pub claim_of : {P F : Type 0} → Node P → ℕ → Message F
claim_of n a = claim_to n.device_info a

abbrev pub StartsWith : {F : Type 0} → Message F → List (Message F) → Type 0
StartsWith {F = F} m ms = (rest : List (Message F)) × (ms ≡ m ∷ rest)

prepare_claims :
    {P : Type 0} (l : Loop P)
    → l.node.address_state ≡ claiming
    → l.node.read_only ≡ false
    → (let m = prepare l in
        (m.claim_ticker ≡ true)
        × (m.node.address_state ≡ claiming)
        × (m.node.network_address ≡ l.node.preferred_address)
        × (m.node.read_only ≡ false)
        × (m.node.device_info ≡ l.node.device_info)
        × ((due : Bool) × (m.phase
              ≡ claim_due due
                  ((l.node.heartbeat_enabled && l.node.address_claimed) && not l.heartbeat_ticker))
            × ((due ≡ false) → Waits l.node.preferred_address l)))
unfolding prepare
prepare_claims l claims writes = (
  ground (arith, claims),
  ground (arith, claims),
  ground (arith, claims),
  ground (arith, writes),
  ground arith,
  (_, refl, ground (arith, claims)),
)

module _ {P F : Type 0} (hundredths : F → ℕ) (over_hundred : ℕ → F) where
  -- At the `select`, the claim ticker makes the address the node's own.
  tick_claims :
      (l : Loop P)
      → l.phase ≡ select
      → l.claim_ticker ≡ true
      → l.node.address_state ≡ claiming
      → l.node.read_only ≡ false
      → (l' : Loop P) × Turns {F = F} hundredths over_hundred l [] l'
        × Owns l.node.network_address l'.node
  unfolding claim_tick
  tick_claims l at ticker claims writes =
      let l' = record l { node = claim_tick l.node; phase = top } in
      (
        l',
        turn l l' l' [] [] (claim_ticked l at ticker) refl (still l'),
        ground (arith, claims, writes),
      )

  -- The heartbeat that may be due comes before it.
  beat_claims :
      (l : Loop P) (beats : Bool)
      → l.phase ≡ heartbeat_due beats
      → l.claim_ticker ≡ true
      → l.node.address_state ≡ claiming
      → l.node.read_only ≡ false
      → (l' : Loop P) × (ms : List (Message F)) × Turns hundredths over_hundred l ms l'
        × Owns l.node.network_address l'.node
  unfolding send_heartbeat
  beat_claims l true at ticker claims writes =
      let m = record l { node = (send_heartbeat {F = F} l.node).0; phase = select } in
      let (l', run, owns) = tick_claims m refl ticker claims writes in
      (l', _, turn l m l' _ [] (heartbeat_sent l at) refl run, owns)
  beat_claims l false at ticker claims writes =
      let m = record l { phase = select } in
      let (l', run, owns) = tick_claims m refl ticker claims writes in
      (l', _, turn l m l' [] [] (no_heartbeat l at) refl run, owns)

  -- The claim that may be due comes first.
  due_claims :
      (l : Loop P) (due beats : Bool)
      → l.phase ≡ claim_due due beats
      → l.claim_ticker ≡ true
      → l.node.address_state ≡ claiming
      → l.node.read_only ≡ false
      → (l' : Loop P) × (ms : List (Message F)) × Turns hundredths over_hundred l ms l'
        × Owns l.node.network_address l'.node
        × ((due ≡ false) ⊎ StartsWith (claim_of l.node l.node.network_address) ms)
  unfolding send_address_claim
  due_claims l due beats at ticker claims writes =
      let m = record l { phase = heartbeat_due beats } in
      let (l', ms, run, owns) = beat_claims m beats refl ticker claims writes in
      (
        l',
        _,
        turn l m l' _ ms (claim_sent l due beats at) refl run,
        owns,
        elim (Bool-cases due) [
          | inl is_due ↦ inr (rw (is_due, writes) (ms, refl))
          | inr runs ↦ inl runs
        ],
      )

  -- From the top: the loop waits for the address already, or its first message is a claim of it.
  top_claims :
      (l : Loop P)
      → l.phase ≡ top
      → l.node.address_state ≡ claiming
      → l.node.read_only ≡ false
      → (l' : Loop P) × (ms : List (Message F)) × Turns hundredths over_hundred l ms l'
        × Owns l.node.preferred_address l'.node
        × (Waits l.node.preferred_address l
            ⊎ StartsWith (claim_of l.node l.node.preferred_address) ms)
  top_claims l at claims writes =
      let m = prepare l in
      let (ticker, claims', here, writes', info, (due, at', waits)) =
        prepare_claims l claims writes in
      let (l', ms, run, owns, sent) = due_claims m due _ at' ticker claims' writes' in
      (
        l',
        ms,
        turn l m l' [] ms (at_top l at) refl run,
        subst (λ a. Owns a l'.node) here owns,
        elim sent [
          | inl runs ↦ inl (waits runs)
          | inr claim ↦ inr (subst (λ c. StartsWith c ms) (ap₂ claim_to info here) claim)
        ],
      )

  -- A node that is waiting in its loop, whose device information is set: a call of `ClaimAddress` with an
  -- address up to 253 is accepted, and from the loop with the node that it leaves there are turns of the loop of
  -- itself, with no other call and nothing received, after which the address is the node's own. Their first
  -- message is a claim of the address, unless the loop waits for that address already.
  pub claim_address-Owns :
      (l : Loop P) (a : ℕ)
      → l.phase ≡ select
      → l.node.device_info_set ≡ true
      → a ≤ 253
      → (n : Node P) × (claim_address a l.node ≡ ok n)
        × ((l' : Loop P) × (ms : List (Message F)) × Turns hundredths over_hundred
              (record l { node = n })
              ms
              l'
            × Owns a l'.node
            × (Waits a l ⊎ StartsWith (claim_of l.node a) ms))
  unfolding claim_address
  claim_address-Owns l a at configured low =
      let n = record l.node {
        preferred_address = a;
        read_only = false;
        address_state = claiming;
        wake_up = true;
      } in
      let told = record l { node = n } in
      let awake = record told { node = record n { wake_up = false }; phase = top } in
      let (l', ms, run, owns, sent) = top_claims awake refl refl refl in
      (
        n,
        ground (arith, configured, low),
        (l', ms, turn told awake l' [] ms (woken told at refl) refl run, owns, sent),
      )

  -- The loop is waiting for an address: a call of `ClaimAddress` with another one, up to 253, is accepted, and
  -- from the loop with the node that it leaves there are turns of the loop of itself, without a message, after
  -- which the old address is the node's own while the preferred one is the other, and which the next top of
  -- the loop does not take up either.
  pub claim_address_overtaken :
      (l : Loop P) (a : ℕ)
      → l.phase ≡ select
      → l.claim_ticker ≡ true
      → l.node.device_info_set ≡ true
      → a ≤ 253
      → (n : Node P) × (claim_address a l.node ≡ ok n)
        × ((l' : Loop P) × Turns {F = F} hundredths over_hundred (record l { node = n }) [] l'
            × Owns l.node.network_address l'.node
            × (l'.node.preferred_address ≡ a)
            × ((prepare l').node.network_address ≡ l.node.network_address))
  unfolding claim_address claim_tick prepare
  claim_address_overtaken l a at ticker configured low =
      let n = record l.node {
        preferred_address = a;
        read_only = false;
        address_state = claiming;
        wake_up = true;
      } in
      let told = record l { node = n } in
      let l' = record told { node = claim_tick n; phase = top } in
      (
        n,
        ground (arith, configured, low),
        (
          l',
          turn told l' l' [] [] (claim_ticked told at ticker) refl (still l'),
          (refl, refl, refl, refl),
          refl,
          refl,
        ),
      )
