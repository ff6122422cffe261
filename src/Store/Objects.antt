-- ===== src/Store/Objects.antt =====
-- The `offsite_objects` table: what has been pushed to cold storage.
use backitup.Prelude.{
  ℕ, ◌+◌, Bool, false, List, [], ◌∷◌, ◌++◌, Option, none, some, Text, ok, err, any, select, update,
  sort_by, ◌&&◌, not, ◌==◌, nat_eq, text_eq, if◌then◌else◌,
}
use backitup.Clock.Stamp.{stamp_lt}
use backitup.Model.{OffsiteObject}
use backitup.Store.{Db, Answer, foreign_key, has_client}

-- `UNIQUE (client_id, snapshot_id, remote)`
abbrev pub is_object : ℕ → Text → Text → OffsiteObject → Bool
is_object client_id snapshot_id remote o =
    o.client_id == client_id && o.snapshot_id == snapshot_id && o.remote == remote

-- `INSERT … ON CONFLICT DO UPDATE`; a zero time is replaced by the present.
unfoldable pub record_offsite_object : OffsiteObject → ℕ → Db → Answer (Unit {0})
record_offsite_object o now d =
    if any same d.objects
    then (ok tt, record d { objects = update same renew d.objects })
    else if not (has_client d o.client_id)
    then (err foreign_key, d)
    else (ok tt, record d { objects = d.objects ++ row ∷ []; next_object = d.next_object + 1 })
  where
    same : OffsiteObject → Bool
    same = is_object o.client_id o.snapshot_id o.remote

    uploaded : ℕ
    uploaded = if o.uploaded_at == 0 then now else o.uploaded_at

    renew : OffsiteObject → OffsiteObject
    renew q = record q { bytes = o.bytes; uploaded_at = uploaded; checksum = o.checksum }

    row : OffsiteObject
    row = record o {
      id = d.next_object;
      uploaded_at = uploaded;
      remote_missing = false;
      remote_verified_at = 0;
    }

-- Newest first, by the stored texts.
unfoldable pub list_offsite_objects : ℕ → Db → List OffsiteObject
list_offsite_objects client_id d =
    sort_by (λ a b. stamp_lt b.uploaded_at a.uploaded_at)
      (select (λ o. o.client_id == client_id) d.objects)

unfoldable pub offsite_checksum_exists : ℕ → Text → Text → Db → Bool
offsite_checksum_exists client_id remote checksum d =
    if checksum == []
    then false
    else any (λ o. o.client_id == client_id && o.remote == remote && o.checksum == checksum)
        d.objects

sum_bytes : List OffsiteObject → ℕ
sum_bytes [] = 0
sum_bytes (o ∷ os) = o.bytes + sum_bytes os

unfoldable pub total_offsite_bytes : Db → ℕ
unfolding sum_bytes
total_offsite_bytes d = sum_bytes d.objects

unfoldable pub update_offsite_remote_status : ℕ → Bool → ℕ → Db → Db
update_offsite_remote_status id missing verified_at d = record d {
  objects =
      update (λ o. o.id == id)
        (λ o. record o { remote_missing = missing; remote_verified_at = verified_at }) d.objects;
}

unfoldable pub delete_offsite_object : ℕ → Text → Text → Db → Db
delete_offsite_object client_id snapshot_id remote d = record d {
  objects = select (λ o. not (is_object client_id snapshot_id remote o)) d.objects;
}

-- The same statement under another name.
unfoldable pub forget_offsite_object : ℕ → Text → Text → Db → Db
forget_offsite_object client_id snapshot_id remote d = record d {
  objects = select (λ o. not (is_object client_id snapshot_id remote o)) d.objects;
}

uploaded_first : List OffsiteObject → Option ℕ
uploaded_first [] = none
uploaded_first (o ∷ os) = some o.uploaded_at

unfoldable pub latest_offsite : ℕ → Db → Option ℕ
unfolding list_offsite_objects uploaded_first
latest_offsite client_id d = uploaded_first (list_offsite_objects client_id d)

-- `MAX(uploaded_at)` for each client, as the map that the caller reads.
max_uploaded : ℕ → Option ℕ → List OffsiteObject → Option ℕ
max_uploaded client_id best [] = best
max_uploaded client_id best (o ∷ os) =
    max_uploaded client_id (if o.client_id == client_id then some later else best) os
  where
    later : ℕ
    later = elim best [
      | none ↦ o.uploaded_at
      | some t ↦ if stamp_lt t o.uploaded_at then o.uploaded_at else t
    ]

unfoldable pub latest_offsite_all_clients : Db → ℕ → Option ℕ
unfolding max_uploaded
latest_offsite_all_clients d client_id = max_uploaded client_id none d.objects
