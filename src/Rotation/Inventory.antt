-- ===== src/Rotation/Inventory.antt =====
-- The key inventory, and the queries that the operations share.
use muse_agent_social.Prelude.{
  ℕ, String, Bool, not, ◌&&◌, Option, none, some, List, [], ◌∷◌, ◌==◌, nat_eq, max, present,
  if◌then◌else◌,
}
use muse_agent_social.Prelude.Action.{pure, throw, modify}
use muse_agent_social.Prelude.Table.{find, exists, select, delete, insert}
use muse_agent_social.Rotation.Tables.{
  Role, RotationRow, KeyFile, peer_key, own_key, KeyRow, Relationship, Keys, RotationCode,
  unknown_relationship, rotation_error, integrity_error, Act, same_role, same_file, is_own, is_live,
  rotation_of, key_of,
}

abbrev pub refuse : {A : Type 0} → RotationCode → Act A
refuse code = throw (rotation_error code)

unfoldable pub relationship_of : String → Keys → Option Relationship
relationship_of rid s = find (λ r. r.relationship_id == rid) s.relationships

unfoldable pub own_epochs : String → Keys → List KeyRow
own_epochs rid s = select (λ k. k.relationship_id == rid && is_own k) s.key_epochs

-- `max(own)` with its row.
unfoldable pub newest : List KeyRow → Option KeyRow
newest [] = none
newest (k ∷ ks) =
    let later = newest ks in
    elim later [
      | none ↦ some k
      | some n ↦ if nat_eq (max k.epoch n.epoch) n.epoch then some n else some k
    ]

-- `out[epoch] = key`: an entry that is there keeps its place.
unfoldable pub put : ℕ → String → List (ℕ × String) → List (ℕ × String)
put epoch key [] = (epoch, key) ∷ []
put epoch key ((e, k) ∷ rest) =
    let later = put epoch key rest in if nat_eq e epoch then (epoch, key) ∷ rest else (e, k) ∷ later

put_peer_keys : List KeyRow → List (ℕ × String) → List (ℕ × String)
unfolding put
put_peer_keys [] out = out
put_peer_keys (k ∷ ks) out = put_peer_keys ks (put k.epoch k.public_key out)

-- `int(rel["key_epoch"] or 1)`; the column holds 1 at least.
abbrev seed : Option Relationship → List (ℕ × String)
seed none = []
seed (some rel) = elim (present rel.peer_agreement_key) [
  | none ↦ []
  | some key ↦ (rel.key_epoch, key) ∷ []
]

unfoldable pub peer_key_epochs : String → Keys → List (ℕ × String)
unfolding put_peer_keys relationship_of
peer_key_epochs rid s =
    put_peer_keys (select (λ k. k.relationship_id == rid && not (is_own k)) s.key_epochs)
      (seed (relationship_of rid s))

unfoldable pub max_epoch : List (ℕ × String) → ℕ
max_epoch [] = 0
max_epoch ((e, k) ∷ rest) = max e (max_epoch rest)

unfoldable pub max_own : List KeyRow → ℕ
max_own [] = 0
max_own (k ∷ ks) = max k.epoch (max_own ks)

unfoldable pub current_epoch : String → Keys → ℕ
unfolding own_epochs peer_key_epochs max_own max_epoch
current_epoch rid s = max (max_own (own_epochs rid s)) (max_epoch (peer_key_epochs rid s))

unfoldable pub rotation : String → ℕ → Role → Keys → Option RotationRow
rotation rid epoch role s = find (rotation_of rid epoch role) s.key_rotations

unfoldable pub in_flight : String → Keys → Bool
in_flight rid s = exists (λ r. r.relationship_id == rid && is_live r.phase) s.key_rotations

unfoldable pub in_flight_as : String → Role → Keys → Option RotationRow
in_flight_as rid role s =
    find (λ r. r.relationship_id == rid && same_role r.role role && is_live r.phase) s.key_rotations

unfoldable pub get_relationship : String → Act Relationship
unfolding relationship_of
get_relationship rid s = elim (relationship_of rid s) [
  | none ↦ refuse unknown_relationship s
  | some rel ↦ pure rel s
]

-- INSERT INTO key_epochs: the primary key is (relationship_id, epoch).
unfoldable pub insert_key : KeyRow → Act (Unit {0})
insert_key row s =
    if exists (key_of row.relationship_id row.epoch) s.key_epochs
    then (throw integrity_error) s
    else modify (λ t. record t { key_epochs = insert row t.key_epochs }) s

-- DELETE FROM key_epochs: `events` references the rows by (relationship_id, key_epoch).
unfoldable pub delete_keys : (KeyRow → Bool) → Act (Unit {0})
delete_keys p s =
    if exists (λ k. p k && exists (λ e. key_of e.relationship_id e.key_epoch k) s.events)
      s.key_epochs
    then (throw integrity_error) s
    else modify (λ t. record t { key_epochs = delete p t.key_epochs }) s

-- `delete_private_key`, where the file system lets it.
abbrev pub delete_file : KeyFile → Keys → Keys
delete_file file s = record s { key_files = delete (same_file file) s.key_files }

abbrev pub file_of : KeyRow → Option KeyFile
file_of k = elim k.private_key_ref [ peer_key ↦ none | own_key file ↦ some file ]
