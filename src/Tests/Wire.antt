-- ===== src/Tests/Wire.antt =====
-- protocol/v1/canonical.go: the theorems at a small document.
use retentionops_connector.Prelude.{ℕ, ◌≡◌, ◌≢◌, refl, List, true, arith}
use retentionops_connector.Prelude.Text.{codes}
use retentionops_connector.Prelude.Result.{ok}
use retentionops_connector.Protocol.Json.{Json, Items, Members}
use retentionops_connector.Protocol.Values.{parse_int64}
use retentionops_connector.Protocol.Canonical.{
  write_canonical, write_number, write_string, escape_all, escape, format_int, sort_entries,
  insert_entry, join_members, less_units, utf16_encode, units,
}
use retentionops_connector.Protocol.Canonical.Order.{
  Reordered, ReorderedMembers, write_canonical-Reordered,
}
use retentionops_connector.Protocol.Canonical.Reader.{read, content}
use retentionops_connector.Protocol.Canonical.RoundTrip.{read-write_canonical}
use retentionops_connector.Protocol.Canonical.Requests.{request_signing_payload-injective}

abbrev list : Json
list = Json.array (Items.cons (Json.number (codes "-07")) (Items.cons (Json.string "x") Items.nil))

abbrev document : Json
document = Json.object (Members.member "b" list (Members.member "a" (Json.bool true) Members.end))

abbrev turned : Json
turned = Json.object (Members.member "a" (Json.bool true) (Members.member "b" list Members.end))

abbrev written : List ℕ
written = codes "{\"a\":true,\"b\":[-7,\"x\"]}"

writes : write_canonical document ≡ ok written
unfolding write_canonical write_number write_string escape_all escape format_int sort_entries
    insert_entry join_members less_units utf16_encode parse_int64
writes = refl

read-write_canonical_example : read written ≡ ok (content document)
read-write_canonical_example = read-write_canonical document written writes

apart : units "b" ≢ units "a"
unfolding utf16_encode
apart h = ground arith

write_canonical-Reordered_example : write_canonical document ≡ write_canonical turned
write_canonical-Reordered_example =
    write_canonical-Reordered document turned (Reordered.object (ReorderedMembers.swap apart))

abbrev post : List ℕ
post = codes "POST"

abbrev path : List ℕ
path = codes "/v1/results"

abbrev stamp : List ℕ
stamp = codes "2026-01-01T00:00:00Z"

abbrev once : List ℕ
once = codes "abcdefghijklmnopqrstuv"

abbrev body : List ℕ
body = codes "sha256:00"

request_signing_payload-injective_example :
    (post ≡ post) × (path ≡ path) × (stamp ≡ stamp) × (once ≡ once) × (body ≡ body)
request_signing_payload-injective_example =
    request_signing_payload-injective post path stamp once body post path stamp once body
      (omega arith) (omega arith) (omega arith) (omega arith) (omega arith) (omega arith)
      (omega arith) (omega arith) refl
