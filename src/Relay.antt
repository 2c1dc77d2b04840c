-- ===== src/Relay.antt =====
-- The relay of session reports: the tables of config/config.go that RelayReportSequence,
-- RenumberReportRelay, TakeReportRelay, ForgetReportRelay and ForgetRelaysForHost keep under
-- reportRelayMutex. Each function takes the tables before the call and returns those after it.
pub mod Sequence
pub mod Index
pub mod Sweep
pub mod Search
pub mod Claims
pub mod Release
pub mod Answer
pub mod Absorbs
pub mod Invariant
pub mod WellFormed
pub mod Calls
mod Tests
use upfadapter.Prelude.{
  ℕ, zero, suc, ◌+◌, ◌-◌, ◌%◌, ◌^◌, Bool, true, false, not, ◌&&◌, ◌||◌, Option, none, some, List,
  [], ◌∷◌, if◌then◌else◌, ltb, leb, ◌==◌, nat_key, text_key, Map, Set, bucket, drop_from_host, keys,
  is_empty, lookup, insert, delete, contains, ◌*◌,
}
use upfadapter.Net.{Net, Text, UdpAddr, second}

-- `reportRelay`: where a relayed report came from, under which number, and since when.
pub record ReportRelay : Type 0 where
  pub upf_addr : UdpAddr
  pub recorded : ℕ
  pub upf_seq : ℕ
  pub answered : Bool

-- `relayGeneration`: how often an address was released, and when it last was.
pub record RelayGeneration : Type 0 where
  pub released_at : ℕ
  pub count : ℕ

-- The variables that reportRelayMutex guards.
pub record RelayTable : Type 0 where
  pub relays : Map ℕ ReportRelay
  pub by_host : Map Text (Set ℕ)
  pub generations : Map Text RelayGeneration
  pub last_seq : ℕ
  pub last_sweep : ℕ

abbrev pub empty_table : RelayTable
empty_table = record { relays = []; by_host = []; generations = []; last_seq = 0; last_sweep = 0 }

abbrev pub report_relay_lifetime : ℕ
report_relay_lifetime = 30 * second

abbrev pub relay_sweep_interval : ℕ
relay_sweep_interval = second

abbrev pub relay_sequence_floor : ℕ
relay_sequence_floor = 0x800000

abbrev pub relay_sequence_ceil : ℕ
relay_sequence_ceil = 0xFFFFFF

-- The age test that the lookups and the sweep share: `now.Sub(t) <= reportRelayLifetime`.
abbrev pub is_live : ℕ → ReportRelay → Bool
is_live now r = leb (now - r.recorded) report_relay_lifetime

-- `relayGenerations[addr]`, where a missing entry is the zero value.
abbrev pub generation : Text → Map Text RelayGeneration → RelayGeneration
generation addr m = elim (lookup addr m) [
  | none ↦ record { released_at = 0; count = 0 }
  | some g ↦ g
]

-- The next number to try, in the range that is inclusive at both ends.
abbrev pub next_candidate : ℕ → ℕ → ℕ → ℕ
next_candidate floor ceil c = if ltb c floor || leb ceil c then floor else c + 1

-- The walk over relayGenerations.
unfoldable pub sweep_generations :
    ℕ → List Text → Map Text RelayGeneration → Map Text RelayGeneration
sweep_generations now [] m = m
sweep_generations now (a ∷ rest) m =
    sweep_generations now rest
      (if ltb report_relay_lifetime (now - (generation a m).released_at) then delete a m else m)

-- The loop of nextFreeRelaySequence, with the trips left.
unfoldable pub free_loop : Map ℕ ReportRelay → ℕ → ℕ → ℕ → ℕ → Option ℕ
free_loop outstanding floor ceil zero c = none
free_loop outstanding floor ceil (suc trips) c =
    let c' = next_candidate floor ceil c in
    let rest = free_loop outstanding floor ceil trips c' in
    if contains c' outstanding then rest else some c'

-- The number of trips is computed in uint32.
unfoldable pub next_free_relay_sequence : Map ℕ ReportRelay → ℕ → ℕ → ℕ → Option ℕ
next_free_relay_sequence outstanding from floor ceil =
    free_loop outstanding floor ceil ((ceil + 2 ^ 32 - floor + 1) % 2 ^ 32) from

-- What the search for a retransmission finds. A number that the index holds and the table does not
-- reads as the zero entry, whose address is nil.
pub data Found : Type 0 where
  held : ℕ → Found
  absent nil_address : Found

unfoldable pub relay_from_loop : Map ℕ ReportRelay → UdpAddr → ℕ → ℕ → List ℕ → Found
relay_from_loop relays addr upf_seq now [] = absent
relay_from_loop relays addr upf_seq now (k ∷ ks) =
    let rest = relay_from_loop relays addr upf_seq now ks in
    elim (lookup k relays) [
      | none ↦ if 0 == upf_seq then nil_address else rest
      | some r ↦
          if (r.upf_seq == upf_seq) && (r.upf_addr.port == addr.port) && is_live now r
          then held k
          else rest
    ]

-- What RelayReportSequence returns: a fresh number, the number of the relay in flight, or an error.
pub data Claim : Type 0 where
  fresh retransmission : ℕ → Claim
  peer_released sequence_exhausted nil_dereference : Claim

pub data Renumbered : Type 0 where
  renumbered : ℕ → Renumbered
  not_held exhausted : Renumbered

module _ ⦃net : Net⦄ where
  -- `relay.upfAddr.IP.String()`
  abbrev pub host_of : ReportRelay → Text
  host_of r = net.ip_string r.upf_addr.ip

  unfoldable pub relay_from_locked : UdpAddr → ℕ → ℕ → RelayTable → Found
  relay_from_locked addr upf_seq now t =
      relay_from_loop t.relays addr upf_seq now (keys (bucket (net.ip_string addr.ip) t.by_host))

  unfoldable pub record_relay_locked : ℕ → ReportRelay → RelayTable → RelayTable
  record_relay_locked seq r t =
      let host = host_of r in
      record t {
        relays = insert seq r t.relays;
        by_host = insert host (insert seq tt (bucket host t.by_host)) t.by_host;
      }

  unfoldable pub drop_relay_locked : ℕ → RelayTable → RelayTable
  drop_relay_locked seq t = elim (lookup seq t.relays) [
    | none ↦ t
    | some r ↦ record t {
      relays = delete seq t.relays;
      by_host = drop_from_host (host_of r) seq t.by_host;
    }
  ]

  -- The body of the walk over reportRelays. An entry is read when it is visited.
  unfoldable pub sweep_relay : ℕ → ℕ → RelayTable → RelayTable
  sweep_relay now k t = elim (lookup k t.relays) [
    | none ↦ t
    | some r ↦ if is_live now r then t else drop_relay_locked k t
  ]

  unfoldable pub sweep_relays : ℕ → List ℕ → RelayTable → RelayTable
  sweep_relays now [] t = t
  sweep_relays now (k ∷ ks) t = sweep_relays now ks (sweep_relay now k t)

  unfoldable pub sweep_relays_locked : ℕ → RelayTable → RelayTable
  sweep_relays_locked now t =
      if ltb (now - t.last_sweep) relay_sweep_interval
      then t
      else sweep_relays now (keys t.relays) (record t {
        last_sweep = now;
        generations = sweep_generations now (keys t.generations) t.generations;
      })

  -- RelayGeneration
  unfoldable pub relay_generation : Text → RelayTable → ℕ
  relay_generation addr t = (generation addr t.generations).count

  -- The end of RelayReportSequence: the claim under the next free number, if there is one.
  unfoldable pub claim_number : UdpAddr → ℕ → ℕ → RelayTable → Option ℕ → RelayTable × Claim
  claim_number addr upf_seq now t none = (t, sequence_exhausted)
  claim_number addr upf_seq now t (some c) = (
    record_relay_locked c
        (record { upf_addr = addr; recorded = now; upf_seq = upf_seq; answered = false })
        (record t { last_seq = c }),
    fresh c,
  )

  -- RelayReportSequence past the test of the generation and the sweep.
  unfoldable pub claim_report : UdpAddr → ℕ → ℕ → RelayTable → RelayTable × Claim
  claim_report addr upf_seq now t = elim (relay_from_locked addr upf_seq now t) [
    | held k ↦ (t, retransmission k)
    | nil_address ↦ (t, nil_dereference)
    | absent ↦
        claim_number addr upf_seq now t
          (next_free_relay_sequence t.relays t.last_seq relay_sequence_floor relay_sequence_ceil)
  ]

  -- RelayReportSequence
  unfoldable pub relay_report_sequence : UdpAddr → ℕ → ℕ → ℕ → RelayTable → RelayTable × Claim
  relay_report_sequence addr upf_seq now authorised_under t =
      if relay_generation (net.ip_string addr.ip) t == authorised_under
      then claim_report addr upf_seq now (sweep_relays_locked now t)
      else (t, peer_released)

  -- RenumberReportRelay past the test that the relay is held.
  renumber_to : ℕ → ReportRelay → RelayTable → Option ℕ → RelayTable × Renumbered
  renumber_to seq r t none = (t, exhausted)
  renumber_to seq r t (some c) =
      (record_relay_locked c r (record (drop_relay_locked seq t) { last_seq = c }), renumbered c)

  -- RenumberReportRelay
  pub renumber_report_relay : ℕ → RelayTable → RelayTable × Renumbered
  renumber_report_relay seq t = elim (lookup seq t.relays) [
    | none ↦ (t, not_held)
    | some r ↦
        renumber_to seq r t
          (next_free_relay_sequence t.relays t.last_seq relay_sequence_floor relay_sequence_ceil)
  ]

  unfoldable pub drop_all : List ℕ → RelayTable → RelayTable
  drop_all [] t = t
  drop_all (k ∷ ks) t = drop_all ks (drop_relay_locked k t)

  -- ForgetRelaysForHost; the count of releases is a uint64.
  unfoldable pub forget_relays_for_host : Text → ℕ → RelayTable → RelayTable
  forget_relays_for_host addr now t =
      let released : RelayGeneration = record {
        released_at = now;
        count = ((generation addr t.generations).count + 1) % 2 ^ 64;
      } in
      drop_all (keys (bucket addr t.by_host))
        (record t { generations = insert addr released t.generations })

  -- ForgetReportRelay
  pub forget_report_relay : ℕ → RelayTable → RelayTable
  forget_report_relay seq t = drop_relay_locked seq t

-- TakeReportRelay: none where Go returns a nil address.
unfoldable pub take_report_relay : ℕ → ℕ → RelayTable → RelayTable × Option (UdpAddr × ℕ)
take_report_relay seq now t = elim (lookup seq t.relays) [
  | none ↦ (t, none)
  | some r ↦ if r.answered || not (is_live now r) then (t, none) else (
    record t { relays = insert seq (record r { answered = true }) t.relays },
    some (r.upf_addr, r.upf_seq),
  )
]
