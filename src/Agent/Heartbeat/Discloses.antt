-- ===== src/Agent/Heartbeat/Discloses.antt =====
-- internal/agent/agent.go: what a heartbeat tells of the sources.
use retentionops_connector.Prelude.{
  ◌≡◌, refl, ap, String, true, false, List, [], ◌∷◌, length, map, Option, Bool-cases, inl, inr,
}
use retentionops_connector.Prelude.Text.{Time}
use retentionops_connector.Policy.{allowed_table_count}
use retentionops_connector.Config.{Source, pending}
use retentionops_connector.Evidence.{Builder}
use retentionops_connector.Agent.Heartbeat.{source_status, heartbeat}

-- Two sources of one outline: kind, whether configured and, if so, the mode of TLS, and how many
-- tables are allowed.
pub record SameOutline (s t : Source) : Type 0 where
  pub type_name : s.type_name ≡ t.type_name
  pub waiting : pending s ≡ pending t
  pub tls_mode : pending s ≡ false → s.tls.mode ≡ t.tls.mode
  pub tables : length s.safety.tables ≡ length t.safety.tables

-- Under one key each.
pub data SameOutlines : List (String × Source) → List (String × Source) → Type 0 where
  no_source : SameOutlines [] []
  one_source :
      {id : String} {s t : Source} {ss ts : List (String × Source)}
      → SameOutline s t
      → SameOutlines ss ts
      → SameOutlines ((id, s) ∷ ss) ((id, t) ∷ ts)

status-outline :
    (id : String) (s t : Source) → SameOutline s t → source_status (id, s) ≡ source_status (id, t)
unfolding source_status allowed_table_count
status-outline id s t h = elim (Bool-cases (pending s)) [
  | inl p ↦ let q : pending t ≡ true = cc (h.waiting, p) in rw (p, q, h.type_name, h.tables) refl
  | inr p ↦
      let q : pending t ≡ false = cc (h.waiting, p) in
      rw (p, q, h.type_name, h.tables, h.tls_mode p) refl
]

-- A heartbeat tells of each source its key, its kind, whether it is configured, its mode of TLS where
-- it is, and the number of its tables. Under one digest of the policies, connectors whose sources agree in
-- these send
-- the same, whatever their hosts, databases, roles, secret references, schemas and tables.
pub heartbeat-SameOutlines :
    (b : Builder) (platform : String) (key : Option String) (now : Time)
    (sources others : List (String × Source))
    → SameOutlines sources others
    → heartbeat b platform key now sources ≡ heartbeat b platform key now others
unfolding heartbeat
heartbeat-SameOutlines b platform key now sources others same =
    ap (λ ss. record (heartbeat b platform key now []) { sources = ss }) (statuses same)
  where
    statuses :
        {ss ts : List (String × Source)}
        → SameOutlines ss ts
        → map source_status ss ≡ map source_status ts
    statuses no_source = refl
    statuses (one_source {id} {s} {t} h hs) = rw (status-outline id s t h, statuses hs) refl
