-- ===== src/Bandwidth/Conflicts.antt =====
-- src/server/bandwidth-service.ts, lines 300 to 325: what on a router stands in the way of a queue.
use wireguard_panel.Base.{
  Bool, false, not, ◌&&◌, ◌||◌, List, [], ◌∷◌, ◌++◌, map, Option, none, some, ◌==◌, if◌then◌else◌,
  any, keep,
}
use wireguard_panel.Base.Text.{Text, codes, text_eq}
use wireguard_panel.Base.Decimal.{nonempty}
use wireguard_panel.Ip.Allowed.{allowed_address_owns_ip}
use wireguard_panel.Routeros.Types.{RemoteSimpleQueue}
use wireguard_panel.Routeros.Exchange.{Row, get}
use wireguard_panel.Bandwidth.Rates.{to_lower_case}

pub record ConflictSummary : Type 0 where
  pub id : Text
  pub name : Text
  pub target : Text
  pub comment : Text

abbrev pub conflict_summary : RemoteSimpleQueue → ConflictSummary
conflict_summary q = record { id = q.id; name = q.name; target = q.target; comment = q.comment }

-- `row[key] ?? fallback`.
abbrev pub field_or : Text → Text → Row → Text
field_or key fallback row = elim (get key row) [ none ↦ fallback | some value ↦ value ]

unfoldable pub record_disabled : Row → Bool
unfolding to_lower_case
record_disabled row =
    let value = to_lower_case (field_or (codes "disabled") [] row) in
    any (text_eq value) (codes "yes" ∷ codes "true" ∷ codes "1" ∷ [])

abbrev pub starts_with_bang : Text → Bool
starts_with_bang [] = false
starts_with_bang (c ∷ s) = c == b'!'

-- The `catch` never runs: `allowedAddressOwnsIp` does not throw.
unfoldable pub record_targets_ip : Option Text → Text → Bool
record_targets_ip none ip = false
record_targets_ip (some value) ip =
    if not (nonempty value) || starts_with_bang value
    then false
    else allowed_address_owns_ip value ip

abbrev pub is_fast_track : Row → Bool
is_fast_track rule =
    not (record_disabled rule)
    && text_eq (to_lower_case (field_or (codes "action") [] rule)) (codes "fasttrack-connection")

abbrev pub fast_track_summary : Row → ConflictSummary
fast_track_summary rule = record {
  id = field_or (codes ".id") [] rule;
  name = codes "FastTrack filter rule";
  target = field_or (codes "chain") (codes "forward") rule;
  comment = field_or (codes "comment") (codes "Enabled FastTrack may bypass Simple Queues") rule;
}

unfoldable pub enabled_fast_track_rules : List Row → List ConflictSummary
unfolding record_disabled
enabled_fast_track_rules rules = map fast_track_summary (keep is_fast_track rules)

abbrev pub is_relevant : Text → Row → Bool
is_relevant peer_ip rule =
    not (record_disabled rule)
    && (record_targets_ip (get (codes "src-address") rule) peer_ip
        || record_targets_ip (get (codes "dst-address") rule) peer_ip)

-- The packet marks of rules, as a list in place of a `Set`.
abbrev pub packet_marks : List Row → List Text
packet_marks rules = keep nonempty (map (field_or (codes "new-packet-mark") []) rules)

abbrev pub uses_mark : List Text → Row → Bool
uses_mark marks tree =
    let mark = field_or (codes "packet-mark") [] tree in nonempty mark && any (text_eq mark) marks

abbrev pub tree_summary : Text → Row → ConflictSummary
tree_summary peer_ip tree = record {
  id = field_or (codes ".id") [] tree;
  name = field_or (codes "name") (codes "Queue tree") tree;
  target = peer_ip;
  comment =
      field_or (codes "comment")
        (codes "Uses packet mark " ++ field_or (codes "packet-mark") [] tree) tree;
}

unfoldable pub advanced_shaping_conflicts : Text → List Row → List Row → List ConflictSummary
unfolding record_disabled record_targets_ip
advanced_shaping_conflicts peer_ip trees mangle_rules =
    let marks = packet_marks (keep (is_relevant peer_ip) mangle_rules) in
    map (tree_summary peer_ip)
      (keep (λ tree. not (record_disabled tree) && uses_mark marks tree) trees)
